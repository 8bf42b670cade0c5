-- ===== src/Strategies/Kept.antt =====
-- The conforming repair leaves the last sequence alone.
use llm_errata.Prelude.{
  refl, Bool, true, false, Option, none, some, List, [], ◌∷◌, String, Dict, is_empty, contains,
  if◌then◌else◌,
}
use llm_errata.Errors.{Result, ok, raise}
use llm_errata.Errors
use llm_errata.Lineage.{LineageLedger}
use llm_errata.Errata.{Erratum, is_supersede}
use llm_errata.Adapters.{StoreAdapter, unless_raised}
use llm_errata.Step.{Step, lift}
use llm_errata.Controller.{Importer, find}
use llm_errata.Controller.Kept.{Kept, Keeps, Kept-refl, chain-Keeps}
use llm_errata.Strategies.{store_back, call, ask}
use llm_errata.Strategies.Rebuild.{
  retire_item, retire_items, pass_one, rebuild_item, rebuild_items, pass_two, rebuild_strategy,
}

module _ {A : Type 0} (s : StoreAdapter A) where
  store_back-Kept :
      (name : String) (i : Importer A) (r : A × Result LineageLedger)
      → Kept i (store_back s name i r).0
  unfolding store_back
  store_back-Kept name i (a, raise e) = record { last_sequence = refl; applied = refl }
  store_back-Kept name i (a, ok l) = record { last_sequence = refl; applied = refl }

  call-Keeps :
      (name : String) (method : LineageLedger → A → A × Result LineageLedger)
      → Keeps (call s name method)
  unfolding call
  call-Keeps name method =
      chain-Keeps (lift (λ (i : Importer A). find s name i.adapters)) _ Kept-refl
        (λ a i. store_back-Kept name i (method i.ledger a))

  ask-Keeps :
      {V : Type 0} (name : String) (question : LineageLedger → A → Result V)
      → Keeps (ask s name question)
  unfolding ask
  ask-Keeps name question =
      chain-Keeps (lift (λ (i : Importer A). find s name i.adapters)) _ Kept-refl (λ a. Kept-refl)

  when :
      {B : Type 0} (b : Bool) (m n : Step (Importer A) B)
      → Keeps m
      → Keeps n
      → Keeps (if b then m else n)
  when true m n h k = h
  when false m n h k = k

  retire_item-Keeps :
      (store : String) (superseded_at : Option String) (retired : List String) (id : String)
      → Keeps (retire_item s store superseded_at retired id)
  unfolding retire_item
  retire_item-Keeps store superseded_at retired id =
      chain-Keeps (ask s store (λ l a. s.source_artifact a id)) _ (ask-Keeps store _) (λ source.
        chain-Keeps (ask s store (λ l a. s.repair_inputs l a id)) _ (ask-Keeps store _) (λ inputs.
          when (is_empty inputs) _ _
            (chain-Keeps
              (call s store (λ l a.
                unless_raised a (Errors.◌>>=◌ (s.retire l a id superseded_at) (λ a'. ok (a', l)))))
              _ (call-Keeps store _) (λ _. Kept-refl))
            Kept-refl))

  retire_items-Keeps :
      (store : String) (superseded_at : Option String) (retired ids : List String)
      → Keeps (retire_items s store superseded_at retired ids)
  unfolding retire_items
  retire_items-Keeps store superseded_at retired [] = Kept-refl
  retire_items-Keeps store superseded_at retired (id ∷ ids) =
      chain-Keeps (retire_item s store superseded_at retired id) _
        (retire_item-Keeps store superseded_at retired id)
        (λ retired'. retire_items-Keeps store superseded_at retired' ids)

  pass_one-Keeps :
      (superseded_at : Option String) (retired : List String) (gated : Dict (List String))
      → Keeps (pass_one s superseded_at retired gated)
  unfolding pass_one
  pass_one-Keeps superseded_at retired [] = Kept-refl
  pass_one-Keeps superseded_at retired ((store, ids) ∷ gated) =
      chain-Keeps (lift (λ (i : Importer A). find s store i.adapters)) _ Kept-refl (λ a.
        chain-Keeps (retire_items s store superseded_at retired ids) _
          (retire_items-Keeps store superseded_at retired ids)
          (λ retired'. pass_one-Keeps superseded_at retired' gated))

  rebuild_item-Keeps :
      (store : String) (replacement : Option String) (retired : List String) (id : String)
      → Keeps (rebuild_item s store replacement retired id)
  unfolding rebuild_item
  rebuild_item-Keeps store replacement retired id =
      chain-Keeps (ask s store (λ l a. s.source_artifact a id)) _ (ask-Keeps store _) (λ source.
        when (contains retired source) _ _ Kept-refl (
          chain-Keeps (ask s store (λ l a. s.repair_inputs l a id)) _ (ask-Keeps store _)
            (λ inputs. call-Keeps store _)))

  rebuild_items-Keeps :
      (store : String) (replacement : Option String) (retired ids : List String)
      → Keeps (rebuild_items s store replacement retired ids)
  unfolding rebuild_items
  rebuild_items-Keeps store replacement retired [] = Kept-refl
  rebuild_items-Keeps store replacement retired (id ∷ ids) =
      chain-Keeps (rebuild_item s store replacement retired id) _
        (rebuild_item-Keeps store replacement retired id)
        (λ _. rebuild_items-Keeps store replacement retired ids)

  pass_two-Keeps :
      (replacement : Option String) (retired : List String) (gated : Dict (List String))
      → Keeps (pass_two s replacement retired gated)
  unfolding pass_two
  pass_two-Keeps replacement retired [] = Kept-refl
  pass_two-Keeps replacement retired ((store, ids) ∷ gated) =
      chain-Keeps (lift (λ (i : Importer A). find s store i.adapters)) _ Kept-refl (λ a.
        chain-Keeps (rebuild_items s store replacement retired ids) _
          (rebuild_items-Keeps store replacement retired ids)
          (λ _. pass_two-Keeps replacement retired gated))

  -- The conforming strategy writes neither the last sequence nor what was applied.
  pub rebuild_strategy-Keeps :
      (e : Erratum) (gated : Dict (List String)) (i : Importer A)
      → Kept i (rebuild_strategy s e gated i).0
  unfolding rebuild_strategy
  rebuild_strategy-Keeps e gated =
      chain-Keeps
        (pass_one s (if is_supersede e.operation then some e.valid_from else none) [] gated) _
        (pass_one-Keeps _ [] gated) (λ retired. pass_two-Keeps e.replacement retired gated)
