-- ===== src/Strategies.antt =====
-- prototype/strategies.py: the conforming repair, for every store, and the three that are not.
pub mod Rebuild
pub mod Kept
pub mod Nonconforming
use llm_errata.Prelude.{
  ℕ, Bool, true, false, not, Option, none, some, List, [], ◌∷◌, String, Dict, get, select, contains,
  add, is_empty, if◌then◌else◌,
}
use llm_errata.Errors.{Result, ok, raise}
use llm_errata.Lineage.{LineageLedger}
use llm_errata.Adapters.{StoreAdapter}
use llm_errata.Step.{Step, ◌>>=◌, ◌>>◌, lift, modify, done}
use llm_errata.Controller.{Importer, find, replace_first}

module _ {A : Type 0} (s : StoreAdapter A) where
  -- What a call gives, and where the adapter of the name is then.
  unfoldable pub store_back :
      String → Importer A → A × Result LineageLedger → Importer A × Result (Unit {0})
  unfolding replace_first
  store_back name i (a, raise e) =
      (record i { adapters = replace_first s name a i.adapters }, raise e)
  store_back name i (a, ok l) =
      (record i { adapters = replace_first s name a i.adapters; ledger = l }, ok tt)

  -- A call of a method of `importer.adapter(name)`, which may write to the ledger.
  unfoldable pub call :
      String → (LineageLedger → A → A × Result LineageLedger) → Step (Importer A) (Unit {0})
  unfolding find store_back
  call name method = do
    a ← lift (λ i. find s name i.adapters)
    λ i. store_back name i (method i.ledger a)

  -- A call that only reads.
  unfoldable pub ask {ℓ} :
      {V : Type ℓ} → String → (LineageLedger → A → Result V) → Step (Importer A) V
  unfolding find
  ask name question = do a ← lift (λ i. find s name i.adapters); lift (λ i. question i.ledger a)

-- gated.get(name, [])
unfoldable pub gated_for : String → Dict (List String) → List String
gated_for name d = elim (get d name) [ none ↦ [] | some ids ↦ ids ]
