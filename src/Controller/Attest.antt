-- ===== src/Controller/Attest.antt =====
-- Importer._attest: the receipt of a repair.
pub mod Verified
use llm_errata.Prelude.{
  ℕ, Bool, true, false, Option, none, some, List, [], ◌∷◌, ◌++◌, String, Dict, put, values, sort,
  map, leb, if◌then◌else◌, ◌||◌,
}
use llm_errata.Errors.{Result, ok, raise, ◌>>=◌}
use llm_errata.Signing.{Crypto, sign_payload}
use llm_errata.Lineage.{LineageLedger}
use llm_errata.Errata.{Erratum, operation_value, is_supersede}
use llm_errata.Adapters.{Coverage, verified, partial, unknown, failed, StoreAdapter}
use llm_errata.Receipts.{Receipt, signable, aggregate_coverage, is_failed}
use llm_errata.Controller.{Importer, state_root}
use llm_errata.Controller.Gate.{item}

-- The rank of `_conservative_coverage`; `failed` does not come to it.
abbrev pub rank : Coverage → ℕ
rank verified = 0
rank partial = 1
rank unknown = 2
rank failed = 3

-- `max` keeps the first of two of the same rank.
unfoldable pub conservative_coverage : Coverage → Coverage → Coverage
conservative_coverage checkpoint final =
    if is_failed checkpoint || is_failed final
    then failed
    else if leb (rank final) (rank checkpoint)
    then checkpoint
    else final

abbrev pub feed_view_limitation : String
feed_view_limitation =
    "receipt authenticates this importer's accepted feed view only; importer-local sequencing cannot establish global owner non-equivocation without an external witnessed or append-only log"

module _ {A : Type 0} (s : StoreAdapter A) where
  -- The loop over the required adapters.
  unfoldable pub final_stores :
      LineageLedger → String → Dict Coverage → List A → Dict Coverage → Result (Dict Coverage)
  unfolding conservative_coverage item
  final_stores l root before [] stores = ok stores
  final_stores l root before (a ∷ rest) stores =
      if s.required a
      then (do
        final ← s.coverage l a root
        checkpoint ← item before (s.name a)
        final_stores l root before rest
            (put (s.name a) (conservative_coverage checkpoint final) stores))
      else final_stores l root before rest stores

  unfoldable pub all_dispositions :
      LineageLedger → String → List A → Dict (Dict String) → Result (Dict (Dict String))
  all_dispositions l root [] d = ok d
  all_dispositions l root (a ∷ rest) d = do
    items ← s.dispositions l a root
    all_dispositions l root rest (put (s.name a) items d)

  versions : List A → Dict String → Dict String
  versions [] d = d
  versions (a ∷ rest) d = versions rest (put (s.name a) "0.1.0" d)

  -- `_attest`
  unfoldable pub attest :
      Crypto
      → Importer A
      → Erratum
      → String
      → Dict Coverage
      → Dict String
      → Dict String
      → Result Receipt
  unfolding final_stores all_dispositions versions aggregate_coverage signable state_root
  attest crypto i e pre_state_root checkpoint_coverage limitations triad = do
    stores ← final_stores i.ledger e.target_root checkpoint_coverage i.adapters []
    dispositions ← all_dispositions i.ledger e.target_root i.adapters []
    let receipt : Receipt = record {
      importer = i.name;
      erratum_id = e.erratum_id;
      sequence = e.sequence;
      target_root = e.target_root;
      operation = operation_value e.operation;
      pre_state_root = pre_state_root;
      post_state_root = state_root s crypto i;
      stores = stores;
      dispositions = dispositions;
      triad = triad;
      aggregate = aggregate_coverage stores triad;
      limitations = sort (values limitations) ++ feed_view_limitation ∷ [];
      history_retained = is_supersede e.operation;
      adapter_versions = versions i.adapters [];
      signature = none;
    }
    ok (record receipt { signature = some (sign_payload crypto i.signer (signable receipt)) })
