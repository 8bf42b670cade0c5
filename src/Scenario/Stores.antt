-- ===== src/Scenario/Stores.antt =====
-- The theorems about the ledger, the stores, the checkpoints and the aggregate, at the scenario.
use llm_errata.Prelude.{
  List, [], ◌∷◌, ◌≡◌, ◌↔◌, IsAscending, is_empty, values, String, some, true, false, All, Dict,
  contains, every, ◌==◌, ◌||◌, IsUnique, keys, put, refl,
}
use llm_errata.Errors.{ok, raise, checkpoint_error, already_consumed, invalid_fields}
use llm_errata.Json.{codes, encode, bool, obj, null, field, end}
use llm_errata.Lineage.{empty_ledger, descendants}
use llm_errata.Lineage.Invariant.{IsLedger}
use llm_errata.Lineage.Reachable.{Reachable, created, imported, derived, Reachable-IsLedger}
use llm_errata.Lineage.Exact.{Derived, descendants_exact}
use llm_errata.Adapters.{Coverage, verified, unknown}
use llm_errata.Adapters.Lawful.{IsLawful}
use llm_errata.Adapters.Markdown
use llm_errata.Adapters.Markdown.Enumeration.{InStore, enumerate_exact}
use llm_errata.Adapters.Reference.{stores}
use llm_errata.Adapters.Markdown.Disposal.{AllIn, coverage_iff, quarantine_coverage_iff}
use llm_errata.Adapters.Vector
use llm_errata.Adapters.Vector.Disposal.{EntryOf, AllEntries, enumerate_iff, coverage-verified}
use llm_errata.Scenario.{build_vector}
use llm_errata.Adapters.Reference.Laws.{stores-IsLawful}
use llm_errata.Checkpoints.{QuarantineCheckpoint, with_consumed, to_dict}
use llm_errata.Checkpoints.Parse.{from_dict, exact_payload}
use llm_errata.Checkpoints.RoundTrip.{from_dict-to_dict}
use llm_errata.Semantic.Parse.{field_names}
use llm_errata.Checkpoints.Consumption.{IsCheckpoint, make_checkpoint_iff, with_consumed-once}
use llm_errata.Receipts.{aggregate_coverage}
use llm_errata.Receipts.Aggregate.{aggregate_coverage_iff}
use llm_errata.Residue.{StoreFile, bytes, blocks_verified, scan_files, existing}
use llm_errata.Residue.Clean.{LacksValue, scan_files_iff}
use llm_errata.Scenario.Runs.{start, checkpoint, now, any_time}
use llm_errata.Scenario.Evidence.{
  imports, start_derived, checkpoint_fresh, checkpoint_made, checkpoint_adapters, now-is_utc,
}
use llm_errata.Samples.{toy}

imports-Reachable : Reachable imports
imports-Reachable = imported "mem_09ZZ" "fact:pet" "markdown" "has a cat" _ (
    imported "mem_03RS" "fact:budget" "markdown" "moderate budget" _ (
      imported "mem_02KP" "fact:venue" "markdown" "prefers quiet restaurants" _
        (imported "mem_01HX" "fact:diet" "markdown" "is vegetarian" empty_ledger created)))

start-Reachable : Reachable start.ledger
start-Reachable =
    derived "summary:dining" "markdown" ("fact:diet" ∷ "fact:venue" ∷ "fact:budget" ∷ [])
      "is vegetarian; prefers quiet restaurants; moderate budget" imports start.ledger
      imports-Reachable start_derived

Reachable-IsLedger_example : IsLedger start.ledger
Reachable-IsLedger_example = Reachable-IsLedger start.ledger start-Reachable

start-IsLedger : IsLedger start.ledger
start-IsLedger = Reachable-IsLedger start.ledger start-Reachable

descendants_exact_example :
    (contains (descendants start.ledger "mem_01HX") "summary:dining" ≡ true)
    ↔ Derived start.ledger "mem_01HX" "summary:dining"
descendants_exact_example =
    descendants_exact start.ledger "mem_01HX" "summary:dining" start-IsLedger

enumerate_exact_example :
    (ids : List String) × (Markdown.enumerate start.ledger "mem_01HX" ≡ ok ids)
    × IsAscending ids
    × ((k : String)
        → (contains ids k ≡ true) ↔ (Derived start.ledger "mem_01HX" k × InStore start.ledger k))
enumerate_exact_example = enumerate_exact start.ledger "mem_01HX" start-IsLedger

stores-IsLawful_example : IsLawful (stores codes)
stores-IsLawful_example = stores-IsLawful codes

abbrev mixed : Dict Coverage
mixed = ("markdown", verified) ∷ ("cache", unknown) ∷ []

abbrev passed : Dict String
passed = ("negative", "pass") ∷ []

aggregate_coverage_iff_example :
    ((aggregate_coverage mixed passed ≡ verified) ↔ (
      All (λ result. result ≡ "pass") (values passed)
      × (is_empty mixed ≡ false)
      × All (λ c. c ≡ verified) (values mixed)))
    × ((aggregate_coverage mixed passed ≡ unknown)
        ↔ (All (λ result. result ≡ "pass") (values passed) × All (λ c. c ≡ unknown) (values mixed)))
aggregate_coverage_iff_example = aggregate_coverage_iff mixed passed

checkpoint-IsCheckpoint : IsCheckpoint toy any_time checkpoint
checkpoint-IsCheckpoint = (make_checkpoint_iff toy any_time checkpoint).0 checkpoint_made

with_consumed-once_example :
    (c : QuarantineCheckpoint) × (with_consumed toy any_time now checkpoint ≡ ok c)
    × (c ≡ record checkpoint { consumed = true; consumed_at = some now })
    × IsCheckpoint toy any_time c
    × (with_consumed toy any_time now c ≡ raise (checkpoint_error already_consumed))
with_consumed-once_example =
    with_consumed-once toy any_time now now checkpoint checkpoint-IsCheckpoint checkpoint_fresh
      now-is_utc

from_dict-to_dict_example : from_dict toy any_time (to_dict checkpoint) ≡ ok checkpoint
from_dict-to_dict_example =
    from_dict-to_dict toy any_time checkpoint checkpoint-IsCheckpoint checkpoint_adapters

-- A checkpoint that is no object, and one with a key too few.
no_object : from_dict toy any_time null ≡ raise (checkpoint_error invalid_fields)
unfolding from_dict exact_payload
no_object = refl

no_digest :
    from_dict toy any_time (obj (field "consumed" (bool false) end))
    ≡ raise (checkpoint_error invalid_fields)
unfolding from_dict exact_payload field_names every contains
no_digest = refl

abbrev files : List StoreFile
files =
    (record { name = "store.db"; exists = true; reading = bytes (encode "has a cat") })
    ∷ (record { name = "store.db-wal"; exists = true; reading = bytes (encode "is vegetarian") })
    ∷ []

scan_files_iff_example : (blocks_verified (scan_files files "vegetarian") ≡ false) ↔ (
    (("vegetarian" == "") ≡ false)
    × (is_empty (existing files) ≡ false)
    × All (LacksValue (encode "vegetarian")) (existing files))
scan_files_iff_example = scan_files_iff files "vegetarian"

coverage_iff_example :
    (c : Coverage) × (Markdown.coverage start.ledger Markdown.new "mem_01HX" ≡ ok c)
    × ((c ≡ verified)
        ↔ AllIn start.ledger Markdown.new "mem_01HX" start-IsLedger
            (λ k. contains Markdown.new.retired k || contains Markdown.new.rebuilt k))
coverage_iff_example = coverage_iff start.ledger Markdown.new "mem_01HX" start-IsLedger

quarantine_coverage_iff_example :
    (c : Coverage) × (Markdown.quarantine_coverage start.ledger Markdown.new "mem_01HX" ≡ ok c)
    × ((c ≡ verified) ↔ (
        (Markdown.lineage_complete start.ledger "mem_01HX" ≡ true)
        × AllIn start.ledger Markdown.new "mem_01HX" start-IsLedger
            (contains Markdown.new.quarantined)))
quarantine_coverage_iff_example =
    quarantine_coverage_iff start.ledger Markdown.new "mem_01HX" start-IsLedger

build_vector-IsUnique : IsUnique (keys build_vector.sources)
unfolding build_vector Vector.index keys put contains
build_vector-IsUnique = (refl, (refl, (refl, tt)))

enumerate_iff_example :
    (contains (Vector.enumerate start.ledger build_vector "mem_01HX") "vec:dining" ≡ true)
    ↔ EntryOf start.ledger build_vector "mem_01HX" "vec:dining"
enumerate_iff_example =
    enumerate_iff start.ledger build_vector "mem_01HX" start-IsLedger build_vector-IsUnique
      "vec:dining"

coverage-verified_example :
    ((Vector.coverage start.ledger build_vector "mem_01HX" ≡ verified)
      ↔ AllEntries start.ledger build_vector "mem_01HX" start-IsLedger build_vector-IsUnique
          (λ k. contains build_vector.retired k || contains build_vector.rebuilt k))
    × ((Vector.quarantine_coverage start.ledger build_vector "mem_01HX" ≡ verified) ↔ (
        (Vector.lineage_complete start.ledger build_vector "mem_01HX" ≡ true)
        × AllEntries start.ledger build_vector "mem_01HX" start-IsLedger build_vector-IsUnique
            (contains build_vector.quarantined)))
coverage-verified_example =
    coverage-verified start.ledger build_vector "mem_01HX" start-IsLedger build_vector-IsUnique
