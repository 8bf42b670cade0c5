-- ===== src/Scenario/Runs.antt =====
-- Runs of the importer of the scenario: a quarantine, a repair, and refused ones.
use llm_errata.Prelude.{
  [], ◌∷◌, ◌≡◌, refl, String, none, some, true, false, Bool, sort_by, select, contains, keys,
  values, get, put, pop, get_at, put_at, every, some_of, update, add, discard,
}
use llm_errata.Errors.{Result, ok, raise, Exception, checkpoint_error, already_consumed}
use llm_errata.Errors
use llm_errata.Json
use llm_errata.Json.{dumps, encode, codes, utf8}
use llm_errata.Signing.{to_hex, from_hex, verifies, sign_payload, commitment, separated}
use llm_errata.Lineage.{
  empty_ledger, register_import, register_derivation, unregistered, artifact, artifacts,
  artifact_ids, roots_seen, direct, visit, sweep, closure_loop, descendants, store_of, set_content,
}
use llm_errata.Errata.{Erratum, verify_feed}
use llm_errata.Errata
use llm_errata.Adapters.{
  verified, partial, failed, join, contents_of, with_replacement, rebuilt_content, terms,
  shares_term, similarity, reaches_threshold,
}
use llm_errata.Adapters.Markdown
use llm_errata.Adapters.Vector
use llm_errata.Adapters.Opaque
use llm_errata.Adapters.Reference.{Adapter, markdown, vector, opaque, stores}
use llm_errata.Adapters.Reference
use llm_errata.Checkpoints
use llm_errata.Checkpoints.{QuarantineCheckpoint, make_checkpoint, create, canonical_digest}
use llm_errata.Receipts.{Receipt, aggregate_coverage}
use llm_errata.Controller.{Importer, make_importer, log, state_root}
use llm_errata.Controller.Observe.{observe}
use llm_errata.Controller.Gate.{quarantine, gate, make_records}
use llm_errata.Controller.Gate
use llm_errata.Controller.Recheck
use llm_errata.Controller.Recheck.{validate_checkpoint}
use llm_errata.Controller.Probes
use llm_errata.Controller.Probes.{run_triad}
use llm_errata.Controller.Attest
use llm_errata.Controller.Attest.{attest}
use llm_errata.Controller
use llm_errata.Controller.Repair.{
  repair, repair_quarantined, repair_authenticated, gated_of, limitations_of, coverages_of, settle,
}
use llm_errata.Strategies
use llm_errata.Strategies.Rebuild
use llm_errata.Strategies.Rebuild.{rebuild_strategy}
use llm_errata.Receipts
use llm_errata.Strategies.{gated_for}
use llm_errata.Strategies.Nonconforming
use llm_errata.Strategies.Nonconforming.{interrupting_strategy}
use llm_errata.Scenario.{build_importer, build_ledger, build_vector}
use llm_errata.Samples.{toy, owner_signer, owner, first_erratum}

abbrev blank : Importer Adapter
blank = make_importer "" empty_ledger [] owner_signer owner (record { roots = [] })

abbrev made : Result (Importer Adapter) → Importer Adapter
made (ok i) = i
made (raise e) = blank

unfoldable pub start : Importer Adapter
unfolding build_importer build_ledger build_vector register_import register_derivation Vector.index
    put unregistered select contains keys
start = made (build_importer owner_signer owner false)

start_names :
    (start.name ≡ "travel-planner")
    × (descendants start.ledger "mem_01HX" ≡ "summary:dining" ∷ "fact:diet" ∷ [])
unfolding start descendants closure_loop sweep visit direct values contains some_of add
start_names = (refl, refl)

abbrev pub now : String
now = "2026-01-02T00:00:00Z"

abbrev pub any_time : String → Bool
any_time t = true

abbrev pub Outcome : Type 0 → Type 0
Outcome B = Importer Adapter × Result B

unfoldable pub gated : Outcome QuarantineCheckpoint
unfolding start quarantine observe gate make_records create state_root make_checkpoint
    canonical_digest log Checkpoints.is_safe_id Checkpoints.is_digest Checkpoints.is_utc
    Checkpoints.same_texts Checkpoints.make_adapter_checkpoint Checkpoints.identity_onto commitment
    separated to_hex from_hex dumps Json.strings encode utf8 verifies Errata.signable
    Errata.check_event Errata.schedule_of Errata.key_for Errata.check_shape Errata.event_fingerprint
    verify_feed get put get_at put_at contains select keys values sort_by update add every some_of
    Reference.enumerate Reference.quarantine Reference.acknowledge Reference.is_quarantined
    Reference.lineage_complete Reference.quarantine_coverage Reference.snapshot Markdown.enumerate
    Markdown.stored_here Markdown.quarantine Markdown.lineage_complete Markdown.quarantine_coverage
    Markdown.snapshot Vector.enumerate Vector.entries_from Vector.quarantine Vector.lineage_complete
    Vector.quarantine_coverage Vector.snapshot Opaque.enumerate Opaque.acknowledge Opaque.snapshot
    artifact artifacts artifact_ids roots_seen direct visit sweep closure_loop descendants store_of
gated = quarantine (stores codes) toy any_time now first_erratum start

abbrev checkpoint_of : Result QuarantineCheckpoint → QuarantineCheckpoint
checkpoint_of (ok c) = c
checkpoint_of (raise e) = record {
  schema_version = 0;
  erratum_id = "";
  sequence = 0;
  target_root = "";
  pre_state_root = "";
  adapters = [];
  created_at = "";
  consumed = false;
  consumed_at = none;
  checkpoint_digest = "";
}

unfoldable pub checkpoint : QuarantineCheckpoint
unfolding gated
checkpoint = checkpoint_of gated.1

pub gated_ok :
    quarantine (stores codes) toy any_time now first_erratum start ≡ (gated.0, ok checkpoint)
unfolding gated checkpoint
gated_ok = refl

unfoldable pub repaired : Outcome Receipt
unfolding gated checkpoint Markdown.is_quarantined Vector.is_quarantined repair_quarantined
    repair_authenticated validate_checkpoint gated_of limitations_of coverages_of run_triad attest
    settle rebuild_strategy Gate.item Recheck.by_name Gate.opaque_limitation Gate.lineage_limitation
    Gate.checkpoint_coverage Gate.root_detail Probes.recalls Probes.split_bar Probes.is_infix
    Probes.is_prefix Attest.conservative_coverage Attest.final_stores Attest.all_dispositions
    aggregate_coverage Receipts.signable sign_payload Strategies.call Strategies.ask
    Strategies.store_back Controller.find Controller.replace_first Rebuild.retire_item
    Rebuild.retire_items Rebuild.pass_one Rebuild.rebuild_item Rebuild.rebuild_items
    Rebuild.pass_two Reference.source_artifact Reference.repair_inputs Reference.retire
    Reference.rebuild Reference.coverage Reference.dispositions Reference.recall Markdown.retire
    Markdown.remember Markdown.rebuild Markdown.repair_inputs Markdown.coverage
    Markdown.dispositions Markdown.disposition Markdown.recall Vector.source_of Vector.repair_inputs
    Vector.retire Vector.rebuild Vector.coverage Vector.dispositions Vector.disposition
    Vector.recall Vector.matches rebuilt_content contents_of with_replacement join terms shares_term
    similarity reaches_threshold set_content pop discard
repaired =
    repair_quarantined (stores codes) codes toy (rebuild_strategy (stores codes)) first_erratum
      checkpoint gated.0

abbrev pub is_ok : {B : Type 0} → Result B → Bool
is_ok (ok b) = true
is_ok (raise e) = false

abbrev pub receipt_of : Result Receipt → Receipt
receipt_of (ok r) = r
receipt_of (raise e) = record {
  importer = "";
  erratum_id = "";
  sequence = 0;
  target_root = "";
  operation = "";
  pre_state_root = "";
  post_state_root = "";
  stores = [];
  dispositions = [];
  triad = [];
  aggregate = failed;
  limitations = [];
  history_retained = false;
  adapter_versions = [];
  signature = none;
}

unfoldable pub receipt : Receipt
unfolding repaired
receipt = receipt_of repaired.1

-- An outcome that returns is what it is.
outcome_ok : (r : Outcome Receipt) → is_ok r.1 ≡ true → r ≡ (r.0, ok (receipt_of r.1))
outcome_ok (i, ok x) h = refl
outcome_ok (i, raise e) h = cc

repaired_returns : is_ok repaired.1 ≡ true
unfolding repaired
repaired_returns = refl

pub repaired_ok :
    repair_quarantined
      (stores codes)
      codes
      toy
      (rebuild_strategy (stores codes))
      first_erratum
      checkpoint
      gated.0
    ≡ (repaired.0, ok receipt)
unfolding repaired receipt
repaired_ok = outcome_ok repaired repaired_returns

receipt_sample :
    (receipt.aggregate ≡ verified)
    × (receipt.triad ≡ ("negative", "pass") ∷ ("positive", "pass") ∷ ("preserve", "pass") ∷ [])
    × (receipt.dispositions
        ≡ ("markdown", ("fact:diet", "retired") ∷ ("summary:dining", "rebuilt") ∷ [])
          ∷ ("vector", ("vec:diet", "retired") ∷ ("vec:dining", "rebuilt") ∷ [])
          ∷ [])
unfolding receipt
receipt_sample = (refl, refl, refl)

-- The interrupted repair raises, and what it has gated stays gated.
unfoldable pub interrupted : Outcome Receipt
unfolding repaired interrupting_strategy gated_for Nonconforming.each Nonconforming.having_inputs
interrupted =
    repair_quarantined (stores codes) codes toy (interrupting_strategy codes) first_erratum
      checkpoint gated.0

interrupted_raises : interrupted.1 ≡ raise Errors.interrupted_repair
unfolding interrupted
interrupted_raises = refl

-- A checkpoint that is consumed is refused.
abbrev pub spent : QuarantineCheckpoint
spent = record checkpoint { consumed = true; consumed_at = some now }

pub spent_refused :
    (repair_quarantined
      (stores codes)
      codes
      toy
      (rebuild_strategy (stores codes))
      first_erratum
      spent
      gated.0).1
    ≡ raise (checkpoint_error already_consumed)
unfolding repaired
spent_refused = refl

-- With the opaque store, the same repair is partial.
abbrev whole : Importer Adapter
whole = record start {
  adapters = markdown Markdown.new ∷ vector build_vector ∷ opaque (Opaque.new "prompt_cache") ∷ [];
}

partly : Outcome Receipt
unfolding repaired repair Opaque.coverage Opaque.dispositions Opaque.recall
partly =
    repair (stores codes) codes toy any_time now (rebuild_strategy (stores codes)) first_erratum
      false whole

partly_sample : (receipt_of partly.1).aggregate ≡ partial
unfolding partly
partly_sample = refl
