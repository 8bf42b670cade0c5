-- ===== src/Semantic/Evidence/Weighing.antt =====
-- What the loop over the groups leaves, in terms of the groups.
use llm_errata.Prelude.{
  ◌≡◌, refl, ap, ◌∙◌, inl, inr, Bool, true, false, not, ◌&&◌, Option, none, some, List, [], ◌∷◌,
  ◌++◌, String, Dict, get, keys, values, get-put, nat_eq, IsUnique, All, every, is_empty,
  Bool-cases, if◌then◌else◌, ◌==◌, eq_iff, arith, add-not_empty, get_of_not-contains, concat,
}
use llm_errata.Semantic.{SemanticProbe, SemanticObservation}
use llm_errata.Semantic.Evidence.{Weighed, unweighed, weigh_all, weigh_group, answers, is_fail}

-- The observation of a group that counts, and whether it fails a required probe.
abbrev pub answer :
    String → Option SemanticProbe → List SemanticObservation → Option SemanticObservation
answer digest (some p) (o ∷ []) = if answers digest p o then some o else none
answer digest _ _ = none

abbrev pub is_some {ℓ} : {A : Type ℓ} → Option A → Bool
is_some none = false
is_some (some a) = true

abbrev pub fails : String → Option SemanticProbe → List SemanticObservation → Bool
fails digest (some p) (o ∷ []) = answers digest p o && is_fail o.verdict && p.required
fails digest _ _ = false

abbrev pub is_clean : Weighed → Bool
is_clean w = is_empty w.limitations && nat_eq w.unexpected 0

abbrev or_else {ℓ} : {A : Type ℓ} → Option A → Option A → Option A
or_else none b = b
or_else (some a) b = some a

or_else-none {ℓ} : {A : Type ℓ} (a : Option A) → or_else a none ≡ a
or_else-none none = refl
or_else-none (some a) = refl

and_assoc : (a b c : Bool) → ((a && b) && c) ≡ (a && (b && c))
and_assoc a b c = ground arith

not_empty : {A : Type 0} (xs : List A) (x : A) → is_empty (xs ++ x ∷ []) ≡ false
not_empty [] x = refl
not_empty (y ∷ ys) x = refl

module _ (digest : String) where
  clean-weigh_group :
      (k : String) (declared : Option SemanticProbe) (rs : List SemanticObservation) (w : Weighed)
      → is_empty rs ≡ false
      → is_clean (weigh_group digest k declared rs w)
        ≡ (is_clean w && is_some (answer digest declared rs))
  unfolding weigh_group
  clean-weigh_group k none [] w h = cc
  clean-weigh_group k none (r ∷ rs) w h = ground arith
  clean-weigh_group k (some p) [] w h = cc
  clean-weigh_group k (some p) (o ∷ []) w h = ground (
    arith,
    not_empty w.limitations (concat ("operation mismatch for probe " ∷ k ∷ [])),
    not_empty w.limitations (concat ("configuration drift for probe " ∷ k ∷ [])),
  )
  clean-weigh_group k (some p) (o ∷ (o' ∷ rs)) w h =
      ground
        (arith, not_empty w.limitations (concat ("duplicate observations for probe " ∷ k ∷ [])))

  fails-weigh_group :
      (k : String) (declared : Option SemanticProbe) (rs : List SemanticObservation) (w : Weighed)
      → is_empty (weigh_group digest k declared rs w).valid_fails
        ≡ (is_empty w.valid_fails && not (fails digest declared rs))
  unfolding weigh_group
  fails-weigh_group k none rs w = ground arith
  fails-weigh_group k (some p) [] w = ground arith
  fails-weigh_group k (some p) (o ∷ []) w = ground (arith, add-not_empty k w.valid_fails)
  fails-weigh_group k (some p) (o ∷ (o' ∷ rs)) w = ground arith

  get-weigh_group :
      (k j : String) (declared : Option SemanticProbe) (rs : List SemanticObservation) (w : Weighed)
      → get (weigh_group digest k declared rs w).accepted_by_id j ≡ (
          if k == j
          then or_else (answer digest declared rs) (get w.accepted_by_id j)
          else get w.accepted_by_id j)
  unfolding weigh_group
  get-weigh_group k j none rs w = ground arith
  get-weigh_group k j (some p) [] w = ground arith
  get-weigh_group k j (some p) (o ∷ []) w = ground (arith, get-put k j o w.accepted_by_id)
  get-weigh_group k j (some p) (o ∷ (o' ∷ rs)) w = ground arith

  module _ (declared : Dict SemanticProbe) where
    -- Nothing is wrong with the groups.
    abbrev pub all_answered : Dict (List SemanticObservation) → Bool
    all_answered groups =
        every (λ item. is_some (answer digest (get declared item.0) item.1)) groups

    abbrev pub none_fails : Dict (List SemanticObservation) → Bool
    none_fails groups = every (λ item. not (fails digest (get declared item.0) item.1)) groups

    pub clean-weigh_all :
        (groups : Dict (List SemanticObservation)) (w : Weighed)
        → All (λ rs. is_empty rs ≡ false) (values groups)
        → is_clean (weigh_all digest declared groups w) ≡ (is_clean w && all_answered groups)
    unfolding weigh_all every values
    clean-weigh_all [] w f = ground arith
    clean-weigh_all ((k, rs) ∷ groups) w f =
        let w' = weigh_group digest k (get declared k) rs w in
        let step = clean-weigh_group k (get declared k) rs w f.0 in
        let rest = clean-weigh_all groups w' f.1 in
        rest
        ∙ ap (λ b. b && all_answered groups) step
        ∙ and_assoc (is_clean w) (is_some (answer digest (get declared k) rs)) (all_answered groups)

    pub fails-weigh_all :
        (groups : Dict (List SemanticObservation)) (w : Weighed)
        → is_empty (weigh_all digest declared groups w).valid_fails
          ≡ (is_empty w.valid_fails && none_fails groups)
    unfolding weigh_all every
    fails-weigh_all [] w = ground arith
    fails-weigh_all ((k, rs) ∷ groups) w =
        let w' = weigh_group digest k (get declared k) rs w in
        let step = fails-weigh_group k (get declared k) rs w in
        let rest = fails-weigh_all groups w' in
        rest
        ∙ ap (λ b. b && none_fails groups) step
        ∙ and_assoc (is_empty w.valid_fails) (not (fails digest (get declared k) rs))
            (none_fails groups)

    abbrev pub answer_in : Option (List SemanticObservation) → String → Option SemanticObservation
    answer_in none k = none
    answer_in (some rs) k = answer digest (get declared k) rs

    get-weigh_all :
        (groups : Dict (List SemanticObservation)) (w : Weighed) (j : String)
        → IsUnique (keys groups)
        → get (weigh_all digest declared groups w).accepted_by_id j
          ≡ or_else (answer_in (get groups j) j) (get w.accepted_by_id j)
    unfolding weigh_all get keys
    get-weigh_all [] w j u = refl
    get-weigh_all ((k, rs) ∷ groups) w j u =
        let w' = weigh_group digest k (get declared k) rs w in
        let step = get-weigh_group k j (get declared k) rs w in
        let rest = get-weigh_all groups w' j u.1 in
        elim (Bool-cases (k == j)) [
          | inl e ↦
              let same : k ≡ j = (eq_iff k j).0 e in
              let gone : get groups j ≡ none = get_of_not-contains groups j (rw same at u.0) in
              let found = rw gone at rest in found ∙ rw e at step ∙ rw (e, same) refl
          | inr e ↦ rest ∙ ap (or_else (answer_in (get groups j) j)) (rw e at step) ∙ rw e refl
        ]

    pub get-weighed :
        (groups : Dict (List SemanticObservation)) (j : String)
        → IsUnique (keys groups)
        → get (weigh_all digest declared groups unweighed).accepted_by_id j
          ≡ answer_in (get groups j) j
    unfolding get
    get-weighed groups j u =
        get-weigh_all groups unweighed j u ∙ or_else-none (answer_in (get groups j) j)
