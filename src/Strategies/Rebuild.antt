-- ===== src/Strategies/Rebuild.antt =====
-- RebuildStrategy: retire what has no inputs left of its own, rebuild what mixed it.
use llm_errata.Prelude.{
  not, Option, none, some, List, [], ◌∷◌, String, Dict, select, contains, add, is_empty,
  if◌then◌else◌,
}
use llm_errata.Errors.{Result, ok, raise}
use llm_errata.Errors
use llm_errata.Errata.{is_supersede}
use llm_errata.Adapters.{unless_raised, StoreAdapter}
use llm_errata.Step.{Step, ◌>>=◌, ◌>>◌, lift, done}
use llm_errata.Controller.{Importer, find}
use llm_errata.Controller.Repair.{Strategy}
use llm_errata.Strategies.{call, ask}

module _ {A : Type 0} (s : StoreAdapter A) where
  -- The body of the inner loop of pass one, on the set of what is retired so far.
  unfoldable pub retire_item :
      String → Option String → List String → String → Step (Importer A) (List String)
  unfolding call ask
  retire_item store superseded_at retired id = do
    source ← ask s store (λ l a. s.source_artifact a id)
    inputs ← ask s store (λ l a. s.repair_inputs l a id)
    if is_empty inputs
        then (call s store (λ l a.
              unless_raised a (Errors.◌>>=◌ (s.retire l a id superseded_at) (λ a'. ok (a', l))))
            >> done (add source retired))
        else done retired

  unfoldable pub retire_items :
      String → Option String → List String → List String → Step (Importer A) (List String)
  unfolding retire_item
  retire_items store superseded_at retired [] = done retired
  retire_items store superseded_at retired (id ∷ ids) =
      retire_item store superseded_at retired id >>= λ retired'.
      retire_items store superseded_at retired' ids

  unfoldable pub pass_one :
      Option String → List String → Dict (List String) → Step (Importer A) (List String)
  unfolding retire_items find
  pass_one superseded_at retired [] = done retired
  pass_one superseded_at retired ((store, ids) ∷ gated) =
      lift (λ i. find s store i.adapters) >>= λ a.
      retire_items store superseded_at retired ids >>= λ retired'.
      pass_one superseded_at retired' gated

  unfoldable pub rebuild_item :
      String → Option String → List String → String → Step (Importer A) (Unit {0})
  unfolding call ask
  rebuild_item store replacement retired id = do
    source ← ask s store (λ l a. s.source_artifact a id)
    if contains retired source
        then done tt
        else (ask s store (λ l a. s.repair_inputs l a id) >>= λ inputs. call s store (λ l a.
            s.rebuild l a id (select (λ value. not (contains retired value)) inputs) replacement))

  unfoldable pub rebuild_items :
      String → Option String → List String → List String → Step (Importer A) (Unit {0})
  unfolding rebuild_item
  rebuild_items store replacement retired [] = done tt
  rebuild_items store replacement retired (id ∷ ids) =
      rebuild_item store replacement retired id >> rebuild_items store replacement retired ids

  unfoldable pub pass_two :
      Option String → List String → Dict (List String) → Step (Importer A) (Unit {0})
  unfolding rebuild_items find
  pass_two replacement retired [] = done tt
  pass_two replacement retired ((store, ids) ∷ gated) = lift (λ i. find s store i.adapters) >>= λ a.
      rebuild_items store replacement retired ids >>= λ _. pass_two replacement retired gated

  -- RebuildStrategy.apply
  unfoldable pub rebuild_strategy : Strategy A
  unfolding pass_one pass_two
  rebuild_strategy e gated =
      pass_one (if is_supersede e.operation then some e.valid_from else none) [] gated
      >>= λ retired. pass_two e.replacement retired gated
