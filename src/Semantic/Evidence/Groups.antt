-- ===== src/Semantic/Evidence/Groups.antt =====
-- What grouping the observations by their probe gives: for each identifier, all of them, in order.
use mathlib.Core.List.{append_assoc, append-nil}
use llm_errata.Prelude.{
  ◌≡◌, refl, sym, ap, ◌∙◌, inl, inr, false, none, some, List, [], ◌∷◌, ◌++◌, String, Dict, get, put,
  keys, values, get-put, put-IsUnique, IsUnique, All, All-values, is_empty, select, Bool-cases,
  if◌then◌else◌, ◌==◌, eq_iff, arith,
}
use llm_errata.Semantic.{SemanticObservation}
use llm_errata.Semantic.Evidence.{group, listed}

-- The observations of one probe, in order.
unfoldable pub of_id : List SemanticObservation → String → List SemanticObservation
of_id os k = select (λ o. o.probe_id == k) os

abbrev Groups : Type 0
Groups = Dict (List SemanticObservation)

listed-put :
    (o : SemanticObservation) (k : String) (d : Groups)
    → listed (get (put o.probe_id (listed (get d o.probe_id) ++ o ∷ []) d) k)
      ≡ (if o.probe_id == k then listed (get d k) ++ o ∷ [] else listed (get d k))
listed-put o k d =
    ground
      (arith, get-put o.probe_id k (listed (get d o.probe_id) ++ o ∷ []) d, eq_iff o.probe_id k)

listed-group :
    (os : List SemanticObservation) (k : String) (d : Groups)
    → listed (get (group os d) k) ≡ listed (get d k) ++ of_id os k
unfolding group of_id select
listed-group [] k d = sym (append-nil (listed (get d k)))
listed-group (o ∷ os) k d =
    let d' = put o.probe_id (listed (get d o.probe_id) ++ o ∷ []) d in
    let step = listed-group os k d' ∙ ap (λ rs. rs ++ of_id os k) (listed-put o k d) in
    elim (Bool-cases (o.probe_id == k)) [
      | inl e ↦ rw e ((rw e at step) ∙ append_assoc (listed (get d k)) (o ∷ []) (of_id os k))
      | inr e ↦ rw e (rw e at step)
    ]

group-IsUnique :
    (os : List SemanticObservation) (d : Groups) → IsUnique (keys d) → IsUnique (keys (group os d))
unfolding group
group-IsUnique [] d u = u
group-IsUnique (o ∷ os) d u =
    group-IsUnique os (put o.probe_id (listed (get d o.probe_id) ++ o ∷ []) d)
      (put-IsUnique o.probe_id (listed (get d o.probe_id) ++ o ∷ []) d u)

abbrev IsFull : Groups → Type 0
IsFull d = (k : String) (rs : List SemanticObservation) → get d k ≡ some rs → is_empty rs ≡ false

not-empty-append :
    (rs : List SemanticObservation) (o : SemanticObservation) → is_empty (rs ++ o ∷ []) ≡ false
not-empty-append [] o = refl
not-empty-append (r ∷ rs) o = refl

group-IsFull : (os : List SemanticObservation) (d : Groups) → IsFull d → IsFull (group os d)
unfolding group
group-IsFull [] d f = f
group-IsFull (o ∷ os) d f =
    group-IsFull os (put o.probe_id (listed (get d o.probe_id) ++ o ∷ []) d) (λ k rs h. ground (
      arith,
      get-put o.probe_id k (listed (get d o.probe_id) ++ o ∷ []) d,
      f k rs,
      not-empty-append (listed (get d o.probe_id)) o,
    ))

module _ (os : List SemanticObservation) where
  pub grouped-IsUnique : IsUnique (keys (group os []))
  unfolding keys
  grouped-IsUnique = group-IsUnique os [] tt

  nothing-IsFull : IsFull []
  unfolding get
  nothing-IsFull k rs h = cc

  -- A group holds all observations of its probe.
  pub get-grouped :
      (k : String) (rs : List SemanticObservation) → get (group os []) k ≡ some rs → rs ≡ of_id os k
  get-grouped k rs h = ap listed (sym h) ∙ listed-group os k [] ∙ (unfold get in refl)

  pub get-grouped_none : (k : String) → get (group os []) k ≡ none → of_id os k ≡ []
  get-grouped_none k h = sym (ap listed (sym h) ∙ listed-group os k [] ∙ (unfold get in refl))

  pub grouped-full : All (λ rs. is_empty rs ≡ false) (values (group os []))
  grouped-full =
      All-values (λ rs. is_empty rs ≡ false) (group os []) grouped-IsUnique
        (group-IsFull os [] nothing-IsFull)

  pub get-grouped_full :
      (k : String) (rs : List SemanticObservation)
      → get (group os []) k ≡ some rs
      → is_empty rs ≡ false
  get-grouped_full = group-IsFull os [] nothing-IsFull
