-- ===== src/Strategies/Nonconforming.antt =====
-- WipeStrategy, AppendOnlyStrategy and InterruptingStrategy, over the three stores.
use llm_errata.Adapters.{unless_raised}
use llm_errata.Prelude.{
  ℕ, Bool, true, false, Option, none, some, List, [], ◌∷◌, String, select, is_empty, if◌then◌else◌,
  ◌==◌, map, concat,
}
use llm_errata.Errors.{Result, ok, raise, value_error, interrupted_repair}
use llm_errata.Errors
use llm_errata.Lineage.{LineageLedger, artifact, artifacts, set_content}
use llm_errata.Errata.{Erratum}
use llm_errata.Adapters.Markdown
use llm_errata.Adapters.Vector
use llm_errata.Adapters.Reference.{Adapter, markdown, vector, opaque, stores}
use llm_errata.Adapters.Reference
use llm_errata.Step.{Step, ◌>>=◌, ◌>>◌, lift, read, done, fail}
use llm_errata.Controller.{Importer}
use llm_errata.Controller.Repair.{Strategy}
use llm_errata.Strategies.{call, gated_for}

-- `release` and `mark_rebuilt`, which only the inspectable stores have.
abbrev release : String → Adapter → Result Adapter
release id (markdown m) = ok (markdown (Markdown.release id m))
release id (vector v) = ok (vector (Vector.release id v))
release id (opaque o) = raise value_error

abbrev mark_rebuilt : String → Adapter → Result Adapter
mark_rebuilt id (markdown m) = ok (markdown (Markdown.mark_rebuilt id m))
mark_rebuilt id (vector v) = ok (vector (Vector.mark_rebuilt id v))
mark_rebuilt id (opaque o) = raise value_error

module _ (lower : String → List ℕ) where
  abbrev on :
      String → (LineageLedger → Adapter → Result Adapter) → Step (Importer Adapter) (Unit {0})
  on name method =
      call (stores lower) name
        (λ l a. unless_raised a (Errors.◌>>=◌ (method l a) (λ a'. ok (a', l))))

  -- for item in items: …
  unfoldable pub each :
      (String → Step (Importer Adapter) (Unit {0}))
      → List String
      → Step (Importer Adapter) (Unit {0})
  each body [] = done tt
  each body (id ∷ ids) = body id >> each body ids

  abbrev retire_in : String → String → Step (Importer Adapter) (Unit {0})
  retire_in name id = on name (λ l a. Reference.retire l a id none)

  -- [item for item in ids if bool(ledger.artifact(item).inputs) is wanted]
  unfoldable pub having_inputs : LineageLedger → Bool → List String → Result (List String)
  having_inputs l wanted [] = ok []
  having_inputs l wanted (id ∷ ids) = Errors.◌>>=◌ (artifact l id) (λ a.
      Errors.◌>>=◌ (having_inputs l wanted ids) (λ rest. ok (
        if is_empty a.inputs
        then (if wanted then rest else id ∷ rest)
        else (if wanted then id ∷ rest else rest))))

  unfoldable pub wipe_strategy : Strategy Adapter
  unfolding call each Reference.retire gated_for artifacts
  wipe_strategy e gated =
      read
        (λ i. map (λ a. a.artifact_id) (select (λ a. a.store == "markdown") (artifacts i.ledger)))
      >>= λ ids.
          each (retire_in "markdown") ids >> each (retire_in "vector") (gated_for "vector" gated)

  abbrev un_gate : String → String → Step (Importer Adapter) (Unit {0})
  un_gate name id = on name (λ l a. release id a) >> on name (λ l a. mark_rebuilt id a)

  -- f"{existing}; {erratum.replacement}"
  abbrev shown : Option String → String
  shown none = "None"
  shown (some text) = text

  append_replacement : Erratum → String → Step (Importer Adapter) (Unit {0})
  unfolding artifact set_content concat
  append_replacement e id i =
      let written =
        Errors.◌>>=◌ (artifact i.ledger id)
          (λ a. set_content id (concat (a.content ∷ "; " ∷ shown e.replacement ∷ [])) i.ledger) in
      elim written [ raise x ↦ (i, raise x) | ok l ↦ (record i { ledger = l }, ok tt) ]

  unfoldable pub append_only_strategy : Strategy Adapter
  unfolding call each append_replacement having_inputs gated_for
  append_only_strategy e gated = do
    each (un_gate "markdown") (gated_for "markdown" gated)
    derived ← lift (λ i. having_inputs i.ledger true (gated_for "markdown" gated))
    each (append_replacement e) derived
    each (un_gate "vector") (gated_for "vector" gated)

  unfoldable pub interrupting_strategy : Strategy Adapter
  unfolding call each having_inputs gated_for Reference.retire
  interrupting_strategy e gated = do
    raw ← lift (λ i. having_inputs i.ledger false (gated_for "markdown" gated))
    each (retire_in "markdown") raw
    derived ← lift (λ i. having_inputs i.ledger true (gated_for "markdown" gated))
    if is_empty derived then done tt else fail interrupted_repair
