-- ===== src/Adapters/Lawful.antt =====
-- The laws of a store that the importer relies on.
use llm_errata.Prelude.{◌≡◌, true, not, List, String, every}
use llm_errata.Errors.{ok}
use llm_errata.Lineage.{LineageLedger}
use llm_errata.Adapters.{StoreAdapter, Hit}

pub record IsLawful {A : Type 0} (s : StoreAdapter A) : Type 0 where
  -- A gate does not change what a store is called, or what it enumerates.
  pub enumerate-quarantine :
      (l : LineageLedger) (a : A) (ids : List String) (root : String)
      → s.enumerate l (s.quarantine a ids) root ≡ s.enumerate l a root
  pub enumerate-acknowledge :
      (l : LineageLedger) (a : A) (to root : String)
      → s.enumerate l (s.acknowledge a to) root ≡ s.enumerate l a root
  pub name-quarantine : (a : A) (ids : List String) → s.name (s.quarantine a ids) ≡ s.name a
  pub name-acknowledge : (a : A) (to : String) → s.name (s.acknowledge a to) ≡ s.name a
  -- A store that enumerates can gate what it enumerates.
  pub gated :
      (l : LineageLedger) (a : A) (root : String) (ids : List String)
      → s.enumerate l a root ≡ ok ids
      → every (s.is_quarantined (s.quarantine a ids)) ids ≡ true
  -- What is gated is not retrieved.
  pub hidden :
      (l : LineageLedger) (a : A) (query : String)
      → every (λ (hit : Hit). not (s.is_quarantined a hit.artifact_id)) (s.recall l a query) ≡ true
