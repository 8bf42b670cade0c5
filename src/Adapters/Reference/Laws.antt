-- ===== src/Adapters/Reference/Laws.antt =====
-- The three stores keep the laws of a store.
use llm_errata.Prelude.{ℕ, ◌≡◌, refl, true, not, List, String, every, every-update}
use llm_errata.Errors.{ok}
use llm_errata.Lineage.{LineageLedger}
use llm_errata.Adapters.{Hit}
use llm_errata.Adapters.Lawful.{IsLawful}
use llm_errata.Adapters.Markdown
use llm_errata.Adapters.Markdown.Gate
use llm_errata.Adapters.Vector
use llm_errata.Adapters.Vector.Laws
use llm_errata.Adapters.Opaque
use llm_errata.Adapters.Reference.{
  Adapter, markdown, vector, opaque, stores, name, enumerate, quarantine, acknowledge,
  is_quarantined, recall,
}

enumerate_same :
    (l : LineageLedger) (a : Adapter) (ids : List String) (root : String)
    → enumerate l (quarantine a ids) root ≡ enumerate l a root
unfolding enumerate quarantine Vector.enumerate Vector.quarantine Opaque.quarantine
enumerate_same l (markdown m) ids root = refl
enumerate_same l (vector v) ids root = refl
enumerate_same l (opaque o) ids root = refl

acknowledge_same :
    (l : LineageLedger) (a : Adapter) (to root : String)
    → enumerate l (acknowledge a to) root ≡ enumerate l a root
unfolding enumerate acknowledge Opaque.enumerate
acknowledge_same l (markdown m) to root = refl
acknowledge_same l (vector v) to root = refl
acknowledge_same l (opaque o) to root = refl

name_gated : (a : Adapter) (ids : List String) → name (quarantine a ids) ≡ name a
unfolding quarantine Opaque.quarantine
name_gated (markdown m) ids = refl
name_gated (vector v) ids = refl
name_gated (opaque o) ids = refl

name_told : (a : Adapter) (to : String) → name (acknowledge a to) ≡ name a
unfolding acknowledge Opaque.acknowledge
name_told (markdown m) to = refl
name_told (vector v) to = refl
name_told (opaque o) to = refl

gated_all :
    (l : LineageLedger) (a : Adapter) (root : String) (ids : List String)
    → enumerate l a root ≡ ok ids
    → every (is_quarantined (quarantine a ids)) ids ≡ true
unfolding enumerate quarantine is_quarantined Markdown.quarantine Markdown.is_quarantined
    Vector.quarantine Vector.is_quarantined Opaque.enumerate
gated_all l (markdown m) root ids h = every-update ids m.quarantined
gated_all l (vector v) root ids h = every-update ids v.quarantined
gated_all l (opaque o) root ids h = cc

module _ (lower : String → List ℕ) where
  hidden_all :
      (l : LineageLedger) (a : Adapter) (query : String)
      → every (λ (hit : Hit). not (is_quarantined a hit.artifact_id)) (recall lower l a query)
        ≡ true
  unfolding recall is_quarantined Opaque.recall every
  hidden_all l (markdown m) query = Markdown.Gate.recall-hidden lower l m query
  hidden_all l (vector v) query = Vector.Laws.recall-hidden lower v query
  hidden_all l (opaque o) query = refl

  -- Each of the three stores enumerates what it did before it was gated, gates all that it
  -- enumerates, and retrieves nothing that is gated.
  pub stores-IsLawful : IsLawful (stores lower)
  stores-IsLawful = record {
    enumerate-quarantine = enumerate_same;
    enumerate-acknowledge = acknowledge_same;
    name-quarantine = name_gated;
    name-acknowledge = name_told;
    gated = gated_all;
    hidden = hidden_all;
  }
