-- ===== src/Scenario/Evidence.antt =====
-- What the runs of the scenario satisfy.
use llm_errata.Prelude.{
  ◌≤◌, All, [], ◌∷◌, ◌≡◌, refl, none, some, true, false, IsUnique, map, values, get, put,
}
use llm_errata.Errors.{Result, ok, raise}
use llm_errata.Json.{codes}
use llm_errata.Lineage.{
  LineageLedger, empty_ledger, register_import, register_derivation, artifact, set_content,
}
use llm_errata.Errata.{Erratum, verify_feed}
use llm_errata.Errata
use llm_errata.Adapters.{verified}
use llm_errata.Adapters.Reference.{Adapter, markdown, vector, opaque, stores}
use llm_errata.Adapters.Reference
use llm_errata.Checkpoints
use llm_errata.Checkpoints.RoundTrip.{IsAdapterCheckpoint}
use llm_errata.Checkpoints.{QuarantineCheckpoint, make_checkpoint, create, canonical_digest}
use llm_errata.Receipts.{Receipt}
use llm_errata.Controller.{Importer}
use llm_errata.Controller.Attest.{attest}
use llm_errata.Strategies.Rebuild.{rebuild_strategy}
use llm_errata.Controller.Session.{Session, opened, called, quarantining, repairing}
use llm_errata.Controller.Reimport.{reimport, imported}
use llm_errata.Samples.{toy, roots, first_erratum}
use llm_errata.Scenario.Runs.{
  start, now, any_time, gated, checkpoint, repaired, is_ok, receipt_of, receipt,
}

-- The receipt of the repaired importer, made again.
attestation : Result Receipt
unfolding repaired receipt checkpoint
attestation =
    attest (stores codes) toy repaired.0 first_erratum checkpoint.pre_state_root
      (("markdown", verified) ∷ ("vector", verified) ∷ []) [] receipt.triad

result_ok : (r : Result Receipt) → is_ok r ≡ true → r ≡ ok (receipt_of r)
result_ok (ok x) h = refl
result_ok (raise e) h = cc

attestation_returns : is_ok attestation ≡ true
unfolding attestation
attestation_returns = refl

unfoldable pub attested : Receipt
unfolding attestation
attested = receipt_of attestation

pub attested_ok :
    attest
      (stores codes)
      toy
      repaired.0
      first_erratum
      checkpoint.pre_state_root
      (("markdown", verified) ∷ ("vector", verified) ∷ [])
      []
      receipt.triad
    ≡ ok attested
unfolding attestation attested
attested_ok = result_ok attestation attestation_returns

pub attested_verified : attested.aggregate ≡ verified
unfolding attested
attested_verified = refl

pub repaired-IsUnique : IsUnique (map Reference.name repaired.0.adapters)
unfolding repaired
repaired-IsUnique = (refl, (refl, tt))

pub first_shaped : Errata.check_shape first_erratum roots ≡ ok tt
unfolding gated
first_shaped = refl

-- The ledger of the scenario is one that the operations of a ledger can make.
abbrev pub imports : LineageLedger
imports = register_import "mem_09ZZ" "fact:pet" "markdown" "has a cat" (
    register_import "mem_03RS" "fact:budget" "markdown" "moderate budget" (
      register_import "mem_02KP" "fact:venue" "markdown" "prefers quiet restaurants"
        (register_import "mem_01HX" "fact:diet" "markdown" "is vegetarian" empty_ledger)))

pub start_derived :
    register_derivation "summary:dining" "markdown"
      ("fact:diet" ∷ "fact:venue" ∷ "fact:budget" ∷ [])
      "is vegetarian; prefers quiet restaurants; moderate budget"
      imports
    ≡ ok start.ledger
unfolding start
start_derived = refl

unfoldable pub emptied : LineageLedger
unfolding start
emptied = record start.ledger {
  artifacts =
      put "fact:diet"
        (record {
          artifact_id = "fact:diet";
          store = "markdown";
          content = "";
          inputs = [];
          root = some "mem_01HX";
        })
        start.ledger.artifacts;
}

pub emptied_set : set_content "fact:diet" "" start.ledger ≡ ok emptied
unfolding emptied set_content artifact get
emptied_set = refl

pub checkpoint_fresh : checkpoint.consumed ≡ false
unfolding checkpoint
checkpoint_fresh = refl

pub checkpoint_made : make_checkpoint toy any_time checkpoint ≡ ok checkpoint
unfolding checkpoint
checkpoint_made = refl

pub checkpoint_adapters : All IsAdapterCheckpoint checkpoint.adapters
unfolding checkpoint Checkpoints.make_adapter_checkpoint
checkpoint_adapters = (refl, (refl, tt))

pub now-is_utc : Checkpoints.is_utc toy any_time now ≡ true
unfolding Checkpoints.is_utc
now-is_utc = refl

pub start-IsBounded : All (λ n. n ≤ start.last_sequence) (values start.applied)
unfolding start values
start-IsBounded = tt

-- A quarantine and a repair, one after the other.
pub repaired-Session :
    Session (stores codes) codes toy any_time (rebuild_strategy (stores codes)) start repaired.0
unfolding repaired
repaired-Session =
    called gated.0 _ (called start _ opened (quarantining now first_erratum start))
      (repairing first_erratum checkpoint gated.0)

-- Two re-exports with the same sequence.
unfoldable pub reimported : Importer Adapter
unfolding start reimport imported
reimported = (reimport "mem_02KP" "likes noise" 7 start).0

pub reimported_ok : reimport "mem_02KP" "likes noise" 7 start ≡ (reimported, true)
unfolding reimported get
reimported_ok = refl

pub none_applied : get start.applied "mem_02KP" ≡ none
unfolding start get
none_applied = refl

pub none_applied_still : get reimported.applied "mem_03RS" ≡ none
unfolding reimported get
none_applied_still = refl
