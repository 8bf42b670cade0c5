-- ===== src/Controller/Repair.antt =====
-- Importer.repair_quarantined and Importer.repair.
pub mod Run
pub mod Sequence
use llm_errata.Prelude.{
  ℕ, Bool, true, false, Option, none, some, List, [], ◌∷◌, String, Dict, put, if◌then◌else◌, ◌==◌,
}
use llm_errata.Errors.{Result, ok, raise, Exception, value_error}
use llm_errata.Errors
use llm_errata.Json.{Json, obj, field, end, str, string_fields}
use llm_errata.Signing.{Crypto}
use llm_errata.Errata.{Erratum}
use llm_errata.Adapters.{Coverage, verified, partial, unknown, failed, coverage_value, StoreAdapter}
use llm_errata.Checkpoints.{AdapterCheckpoint, QuarantineCheckpoint}
use llm_errata.Receipts.{Receipt}
use llm_errata.Step.{Step, ◌>>=◌, ◌>>◌, lift, read, modify, done}
use llm_errata.Controller.{Importer, log, rebuild_begin, rebuild_complete, test}
use llm_errata.Controller
use llm_errata.Controller.Observe.{observe}
use llm_errata.Controller.Gate.{quarantine, root_detail}
use llm_errata.Controller.Recheck.{validate_checkpoint}
use llm_errata.Controller.Probes.{run_triad}
use llm_errata.Controller.Attest.{attest}

-- Coverage(value)
unfoldable pub coverage_of : String → Result Coverage
coverage_of value =
    if value == "verified"
    then ok verified
    else if value == "partial"
    then ok partial
    else if value == "unknown"
    then ok unknown
    else if value == "failed"
    then ok failed
    else raise value_error

unfoldable pub gated_of : List AdapterCheckpoint → Dict (List String) → Dict (List String)
gated_of [] d = d
gated_of (r ∷ rs) d = gated_of rs (put r.name r.artifact_ids d)

abbrev put_limitation : String → Option String → Dict String → Dict String
put_limitation name none d = d
put_limitation name (some text) d = put name text d

unfoldable pub limitations_of : List AdapterCheckpoint → Dict String → Dict String
limitations_of [] d = d
limitations_of (r ∷ rs) d = limitations_of rs (put_limitation r.name r.limitation d)

unfoldable pub coverages_of : List AdapterCheckpoint → Dict Coverage → Result (Dict Coverage)
unfolding coverage_of
coverages_of [] d = ok d
coverages_of (r ∷ rs) d =
    Errors.◌>>=◌ (coverage_of r.coverage) (λ c. coverages_of rs (put r.name c d))

-- What `RepairStrategy.apply` does to the importer, with the gated identifiers by store.
abbrev pub Strategy : Type 0 → Type 0
Strategy A = Erratum → Dict (List String) → Step (Importer A) (Unit {0})

-- The assignments at the end of `repair_quarantined`.
unfoldable pub settle : {A : Type 0} → Erratum → Receipt → Importer A → Importer A
unfolding log
settle e receipt i =
    log Controller.attest (obj (field "aggregate" (str (coverage_value receipt.aggregate)) end))
      (record i { last_sequence = e.sequence; applied = put e.target_root e.sequence i.applied })

module _ {A : Type 0} (s : StoreAdapter A) (lower : String → List ℕ) (crypto : Crypto) where
  -- `repair_quarantined`, once the erratum is authenticated.
  unfoldable pub repair_authenticated :
      Strategy A → QuarantineCheckpoint → Erratum → Step (Importer A) Receipt
  unfolding validate_checkpoint gated_of limitations_of coverages_of run_triad attest settle log
      root_detail
  repair_authenticated strategy c valid = do
    lift (λ i. validate_checkpoint s crypto i valid c)
    coverage ← lift (λ _. coverages_of c.adapters [])
    modify (log rebuild_begin (root_detail valid.target_root))
    strategy valid (gated_of c.adapters [])
    modify (log rebuild_complete (root_detail valid.target_root))
    triad ← lift (λ i. run_triad s lower i valid)
    modify (log test (obj (string_fields triad)))
    receipt ← lift (λ i.
        attest s crypto i valid c.pre_state_root coverage (limitations_of c.adapters []) triad)
    modify (settle valid receipt)
    done receipt

  unfoldable pub repair_quarantined :
      Strategy A → Erratum → QuarantineCheckpoint → Step (Importer A) Receipt
  unfolding observe repair_authenticated
  repair_quarantined strategy e c = observe crypto e >>= repair_authenticated strategy c

  unfoldable pub repair :
      (String → Bool) → String → Strategy A → Erratum → Bool → Step (Importer A) Receipt
  unfolding quarantine repair_quarantined
  repair from_iso now strategy e resume = do
    c ← quarantine s crypto from_iso now e
    modify (λ i.
        if resume
        then log Controller.observe (obj (field "resumed" (str e.erratum_id) end)) i
        else i)
    repair_quarantined strategy e c
