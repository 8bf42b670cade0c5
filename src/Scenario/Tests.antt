-- ===== src/Scenario/Tests.antt =====
-- The theorems about the importer, at the runs of the scenario.
use llm_errata.Prelude.{
  ◌≤◌, [], ◌∷◌, ◌≡◌, ◌↔◌, ◌⊎◌, is_empty, String, some, true, false, arith, ltb, if◌then◌else◌, ◌+◌,
  All, Dict, values, get, concat, number_text,
}
use llm_errata.Errors.{ok, raise, Exception}
use llm_errata.Json.{codes}
use llm_errata.Lineage.{register_import}
use llm_errata.Errata.Shape.{IsWellShaped, check_shape_iff}
use llm_errata.Errata.Feed.{IsAccepted}
use llm_errata.Adapters.{Coverage, verified, reported}
use llm_errata.Adapters.Markdown
use llm_errata.Adapters.Reference.{Adapter, markdown, vector, opaque, stores}
use llm_errata.Adapters.Reference
use llm_errata.Adapters.Reference.Laws.{stores-IsLawful}
use llm_errata.Controller.Kept.{Kept}
use llm_errata.Controller.{Importer}
use llm_errata.Errata.{Erratum}
use llm_errata.Controller.Observe.{observe}
use llm_errata.Controller.Observe.Accepted.{Untouched, IsConsistent, IsObserved, observe-IsObserved}
use llm_errata.Controller.Gate.{checkpoint_coverage, lineage_limitation}
use llm_errata.Controller.Gate.Hides.{IsGated, IsHidden, quarantine-IsHidden}
use llm_errata.Controller.Gate.Evidence.{checkpoint_coverage-verified}
use llm_errata.Controller.Attest.Verified.{IsVerified, attest-IsVerified}
use llm_errata.Controller.Probes.{run_triad}
use llm_errata.Controller.Probes.Triad.{run_triad_iff, IsRetired, IsReplacing, IsPreserving}
use llm_errata.Controller.Repair.{repair_quarantined}
use llm_errata.Controller.Repair.Sequence.{
  repair_quarantined-advances, repair_quarantined-replay, repair_quarantined-reimport,
  repair_quarantined-KeepsOnRaise,
}
use llm_errata.Controller.Reimport.{reimport}
use llm_errata.Strategies.Rebuild.{rebuild_strategy}
use llm_errata.Strategies.Kept.{rebuild_strategy-Keeps}
use llm_errata.Controller.Session.{Session-IsBounded}
use llm_errata.Controller.Reimport.Collision.{import_id, reimport-replaces}
use llm_errata.Scenario.Runs.{
  start, gated, checkpoint, repaired, receipt, gated_ok, repaired_ok, now, any_time, spent,
  spent_refused,
}
use llm_errata.Scenario.Evidence.{
  reimported, reimported_ok, none_applied, none_applied_still, start-IsBounded, repaired-Session,
  attested, attested_ok, attested_verified, repaired-IsUnique, first_shaped,
}
use llm_errata.Samples.{toy, roots, first_erratum}

quarantine-IsHidden_example :
    (gated.0.ledger ≡ start.ledger)
    × All (IsGated (stores codes) gated.0.ledger "mem_01HX") gated.0.adapters
    × All (IsHidden (stores codes) gated.0.ledger "mem_01HX") gated.0.adapters
quarantine-IsHidden_example =
    quarantine-IsHidden (stores codes) toy any_time (stores-IsLawful codes) now first_erratum start
      gated.0 checkpoint gated_ok

repair_quarantined-advances_example :
    (repaired.0.last_sequence ≡ 1)
    × (1 ≡ gated.0.last_sequence + 1)
    × (get repaired.0.applied "mem_01HX" ≡ some 1)
repair_quarantined-advances_example =
    repair_quarantined-advances (stores codes) codes toy (rebuild_strategy (stores codes))
      first_erratum checkpoint gated.0 repaired.0 receipt repaired_ok

repair_quarantined-replay_example :
    ((x : Exception) × ((observe toy first_erratum repaired.0).1 ≡ raise x))
    × Untouched repaired.0 (observe toy first_erratum repaired.0).0
repair_quarantined-replay_example =
    repair_quarantined-replay (stores codes) codes toy (rebuild_strategy (stores codes))
      first_erratum first_erratum checkpoint gated.0 repaired.0 receipt repaired_ok (omega arith)

repair_quarantined-reimport_example :
    ((reimport "mem_01HX" "is vegetarian" 1 repaired.0).1 ≡ ltb 1 1)
    × ((reimport "mem_01HX" "is vegetarian" 1 repaired.0).0.ledger ≡ (
        if ltb 1 1
        then register_import "mem_01HX"
            (concat ("fact:reimport:" ∷ number_text 1 ∷ []))
            "markdown"
            "is vegetarian"
            repaired.0.ledger
        else repaired.0.ledger))
repair_quarantined-reimport_example =
    repair_quarantined-reimport (stores codes) codes toy (rebuild_strategy (stores codes))
      first_erratum checkpoint gated.0 repaired.0 receipt "is vegetarian" 1 repaired_ok

repair_quarantined-KeepsOnRaise_example :
    Kept gated.0
      (repair_quarantined
        (stores codes)
        codes
        toy
        (rebuild_strategy (stores codes))
        first_erratum
        spent
        gated.0).0
repair_quarantined-KeepsOnRaise_example =
    repair_quarantined-KeepsOnRaise (stores codes) codes toy (rebuild_strategy (stores codes))
      first_erratum spent (rebuild_strategy-Keeps (stores codes)) gated.0 _ spent_refused

observe-IsObserved_example :
    (((j : Importer Adapter) × (observe toy first_erratum start ≡ (j, ok first_erratum))) ↔ (
      IsConsistent toy start first_erratum
      × IsAccepted toy start.owner start.roots start.last_sequence (first_erratum ∷ [])))
    × ((j : Importer Adapter) (returned : Erratum)
        → observe toy first_erratum start ≡ (j, ok returned)
        → (returned ≡ first_erratum) × IsObserved toy start first_erratum j)
observe-IsObserved_example = observe-IsObserved toy start first_erratum

checkpoint_coverage-verified_example :
    ((checkpoint_coverage
        (stores codes)
        start.ledger
        (markdown Markdown.new)
        "mem_01HX"
        (lineage_limitation (stores codes) start.ledger (markdown Markdown.new) "mem_01HX")).0
      ≡ verified)
    ↔ ((Reference.quarantine_coverage start.ledger (markdown Markdown.new) "mem_01HX"
          ≡ reported verified)
        × (Reference.lineage_complete start.ledger (markdown Markdown.new) "mem_01HX"
            ≡ reported true)
        × ((d : Dict String) × (Reference.snapshot start.ledger (markdown Markdown.new) ≡ some d)))
checkpoint_coverage-verified_example =
    checkpoint_coverage-verified (stores codes) start.ledger (markdown Markdown.new)
      (markdown Markdown.new) "mem_01HX"

first-IsWellShaped : IsWellShaped roots first_erratum
first-IsWellShaped = (check_shape_iff roots first_erratum).0 first_shaped

run_triad_iff_example :
    (triad : Dict String) × (run_triad (stores codes) codes repaired.0 first_erratum ≡ ok triad)
    × (All (λ result. result ≡ "pass") (values triad) ↔ (
        IsRetired (stores codes) codes repaired.0 first_erratum
        × IsReplacing (stores codes) codes repaired.0 first_erratum.operation first_erratum
        × IsPreserving (stores codes) codes repaired.0 first_erratum))
run_triad_iff_example =
    run_triad_iff (stores codes) codes repaired.0 roots first_erratum first-IsWellShaped

abbrev before : Dict Coverage
before = ("markdown", verified) ∷ ("vector", verified) ∷ []

attest-IsVerified_example :
    All (λ result. result ≡ "pass") (values receipt.triad)
    × (is_empty attested.stores ≡ false)
    × All
        (λ a. (true ≡ false) ⊎ IsVerified (stores codes) repaired.0.ledger "mem_01HX" before a)
        repaired.0.adapters
attest-IsVerified_example =
    attest-IsVerified (stores codes) toy repaired.0 first_erratum checkpoint.pre_state_root before
      [] receipt.triad attested repaired-IsUnique attested_ok attested_verified

Session-IsBounded_example :
    (start.last_sequence ≤ repaired.0.last_sequence)
    × All (λ n. n ≤ repaired.0.last_sequence) (values repaired.0.applied)
Session-IsBounded_example =
    Session-IsBounded (stores codes) codes toy any_time (rebuild_strategy (stores codes)) start
      repaired.0 (rebuild_strategy-Keeps (stores codes)) start-IsBounded repaired-Session

reimport-replaces_example :
    (get reimported.ledger.root_of (import_id 7) ≡ some "mem_02KP")
    × (get (reimport "mem_03RS" "large budget" 7 reimported).0.ledger.root_of (import_id 7)
        ≡ some "mem_03RS")
    × (get (reimport "mem_03RS" "large budget" 7 reimported).0.ledger.artifacts (import_id 7)
        ≡ some (record {
          artifact_id = import_id 7;
          store = "markdown";
          content = "large budget";
          inputs = [];
          root = some "mem_03RS";
        }))
reimport-replaces_example =
    reimport-replaces "mem_02KP" "mem_03RS" "likes noise" "large budget" 7 start reimported
      none_applied reimported_ok none_applied_still
