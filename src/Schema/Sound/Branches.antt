-- ===== src/Schema/Sound/Branches.antt =====
-- The keywords that apply a schema, or several, to the value or to its items.
use llm_errata.Prelude.{
  ℕ, suc, ◌≤◌, ◌≡◌, refl, sym, subst, ◌∙◌, ◌↔◌, inl, inr, Bool, true, false, not, List, [], ◌∷◌,
  ◌++◌, String, Option, none, some, length, nat_eq, is_empty, is_empty-append, if◌then◌else◌, arith,
  Bool-cases, concat, number_text,
}
use llm_errata.Errors.{ok, >>=-eq-ok, ok-injective}
use llm_errata.Json.{Json, num, str, arr, obj, Items, nil, cons, Fields}
use llm_errata.Schema.Equal.{keyword, duplicates_after, resolve, count}
use llm_errata.Schema.Same.{EachItem, SomeItem, Distinct}
use llm_errata.Schema.Checks.{
  Fault, Call, check_ref, check_bound, less, check_items, check_each, check_array, check_unique,
  is_truthy, branches, passed, joined, combined, check_all_of, check_any_of, check_one_of,
  check_not, too_few, too_many, repeated, none_matched, matched_branches, must_not_match,
}
use llm_errata.Schema.Valid.{Validity, IfPresent, OneItem, OfItems, OfText, Refers, FitsArray}
use llm_errata.Schema.Sound.{
  Reports, IsSound, both, fault_if-Reports, iff_trans, absent-Reports, ok-Reports, nothing-Reports,
}
use llm_errata.Schema.Sound.Scalars.{tested-Reports, AtLeast-Reports, AtMost-Reports}
use llm_errata.Schema.Sound.Equality.{duplicates-Distinct}
use llm_errata.Schema.Sound.Types.{resolve_iff}

-- The results of the branches, each empty exactly when its schema is met.
Met : (Json → Type 0) → Items → List (List Fault) → Type 0
Met P nil [] = Unit
Met P (cons s ss) (r ∷ rs) = Reports r (P s) × Met P ss rs
Met P _ _ = ⊥

passed-le : (rs : List (List Fault)) → passed rs ≤ length rs
unfolding passed
passed-le [] = omega arith
passed-le (r ∷ rs) = ground (arith, passed-le rs)

is_empty-joined : (rs : List (List Fault)) → is_empty (joined rs) ≡ nat_eq (passed rs) (length rs)
unfolding joined passed
is_empty-joined [] = refl
is_empty-joined (r ∷ rs) =
    is_empty-append r (joined rs) ∙ ground (arith, is_empty-joined rs, passed-le rs)

module _ (P : Json → Type 0) where
  all_passed :
      (ss : Items) (rs : List (List Fault))
      → Met P ss rs
      → (nat_eq (passed rs) (length rs) ≡ true) ↔ EachItem P ss
  unfolding Met passed
  all_passed nil [] m = ground arith
  all_passed nil (r ∷ rs) m = elim m [ ]
  all_passed (cons s ss) [] m = elim m [ ]
  all_passed (cons s ss) (r ∷ rs) m =
      let (there, back) = all_passed ss rs m.1 in
      (
        λ h. (m.0.0 (ground (arith, passed-le rs)), there (ground (arith, passed-le rs))),
        λ (p, ps). let e = m.0.1 p in let t = back ps in ground arith,
      )

  some_passed :
      (ss : Items) (rs : List (List Fault))
      → Met P ss rs
      → (nat_eq (passed rs) 0 ≡ false) ↔ SomeItem P ss
  unfolding Met passed
  some_passed nil [] m = ground arith
  some_passed nil (r ∷ rs) m = elim m [ ]
  some_passed (cons s ss) [] m = elim m [ ]
  some_passed (cons s ss) (r ∷ rs) m =
      let (there, back) = some_passed ss rs m.1 in
      (
        λ h. elim (Bool-cases (is_empty r)) [
          | inl e ↦ inl (m.0.0 e)
          | inr e ↦ inr (there (ground arith))
        ],
        λ h. elim h [
          | inl p ↦ let e = m.0.1 p in ground arith
          | inr ps ↦ let t = back ps in ground arith
        ],
      )

  none_passed :
      (ss : Items) (rs : List (List Fault))
      → Met P ss rs
      → (nat_eq (passed rs) 0 ≡ true) ↔ EachItem (λ s. ¬ P s) ss
  unfolding Met passed
  none_passed nil [] m = ground arith
  none_passed nil (r ∷ rs) m = elim m [ ]
  none_passed (cons s ss) [] m = elim m [ ]
  none_passed (cons s ss) (r ∷ rs) m =
      let (there, back) = none_passed ss rs m.1 in
      (
        λ h. (λ p. let e = m.0.1 p in absurd (ground arith), there (ground arith)),
        λ (n, ns). elim (Bool-cases (is_empty r)) [
          | inl e ↦ absurd (n (m.0.0 e))
          | inr e ↦ let t = back ns in ground arith
        ],
      )

  one_passed :
      (ss : Items) (rs : List (List Fault))
      → Met P ss rs
      → (nat_eq (passed rs) 1 ≡ true) ↔ OneItem P ss
  unfolding Met passed
  one_passed nil [] m = ground arith
  one_passed nil (r ∷ rs) m = elim m [ ]
  one_passed (cons s ss) [] m = elim m [ ]
  one_passed (cons s ss) (r ∷ rs) m =
      let (there, back) = one_passed ss rs m.1 in
      let (none_there, none_back) = none_passed ss rs m.1 in
      (
        λ h. elim (Bool-cases (is_empty r)) [
          | inl e ↦ inl (m.0.0 e, none_there (ground arith))
          | inr e ↦ inr (λ p. cc (m.0.1 p), there (ground arith))
        ],
        λ h. elim h [
          | inl (p, ns) ↦ let e = m.0.1 p in let t = none_back ns in ground arith
          | inr (n, o) ↦ elim (Bool-cases (is_empty r)) [
            | inl e ↦ absurd (n (m.0.0 e))
            | inr e ↦ let t = back o in ground arith
          ]
        ],
      )

module _ {call : Call} {V : Validity} (sound : IsSound call V) where
  branches-Met :
      (v : Json) (subs : Items) (path : String) (rs : List (List Fault))
      → branches call v subs path ≡ ok rs
      → Met (V v) subs rs
  unfolding branches Met
  branches-Met v nil path rs h = subst (Met (V v) nil) (ok-injective h) tt
  branches-Met v (cons s ss) path rs h =
      let (r, e, h1) = >>=-eq-ok (call v s path) _ h in
      let (rest, e', h2) = >>=-eq-ok (branches call v ss path) _ h1 in
      subst (Met (V v) (cons s ss)) (ok-injective h2)
        (sound v s path r e, branches-Met v ss path rest e')

  combined-Reports :
      (judge : List (List Fault) → List Fault) (Q : Items → Type 0) (v : Json) (o : Option Json)
      (path : String) (errors : List Fault)
      → ((ss : Items) (rs : List (List Fault)) → Met (V v) ss rs → Reports (judge rs) (Q ss))
      → combined call judge v o path ≡ ok errors
      → Reports errors (IfPresent o (OfItems Q))
  unfolding combined
  combined-Reports judge Q v none path errors q h = absent-Reports h
  combined-Reports judge Q v (some (arr ss)) path errors q h =
      let (rs, e, h1) = >>=-eq-ok (branches call v ss path) _ h in
      ok-Reports (q ss rs (branches-Met v ss path rs e)) h1
  combined-Reports judge Q v (some _) path errors q h = cc

  pub check_all_of-Reports :
      (v : Json) (o : Option Json) (path : String) (errors : List Fault)
      → check_all_of call v o path ≡ ok errors
      → Reports errors (IfPresent o (OfItems (EachItem (V v))))
  unfolding check_all_of
  check_all_of-Reports v o path errors h =
      combined-Reports _ (EachItem (V v)) v o path errors
        (λ ss rs m. iff_trans (all_judged rs) (all_passed (V v) ss rs m)) h
    where
      all_judged :
          (rs : List (List Fault))
          → (is_empty (if nat_eq (passed rs) (length rs) then [] else joined rs) ≡ true)
            ↔ (nat_eq (passed rs) (length rs) ≡ true)
      all_judged rs = ground (arith, is_empty-joined rs)

  pub check_any_of-Reports :
      (v : Json) (o : Option Json) (path : String) (errors : List Fault)
      → check_any_of call v o path ≡ ok errors
      → Reports errors (IfPresent o (OfItems (SomeItem (V v))))
  unfolding check_any_of
  check_any_of-Reports v o path errors h =
      combined-Reports _ (SomeItem (V v)) v o path errors
        (λ ss rs m.
          iff_trans (fault_if-Reports (nat_eq (passed rs) 0) path none_matched)
            (some_passed (V v) ss rs m))
        h

  pub check_one_of-Reports :
      (v : Json) (o : Option Json) (path : String) (errors : List Fault)
      → check_one_of call v o path ≡ ok errors
      → Reports errors (IfPresent o (OfItems (OneItem (V v))))
  unfolding check_one_of
  check_one_of-Reports v o path errors h =
      combined-Reports _ (OneItem (V v)) v o path errors
        (λ ss rs m.
          iff_trans
            (fault_if-Reports (not (nat_eq (passed rs) 1)) path (matched_branches (passed rs)))
            (iff_trans (not_iff (nat_eq (passed rs) 1)) (one_passed (V v) ss rs m)))
        h
    where
      not_iff : (b : Bool) → (not b ≡ false) ↔ (b ≡ true)
      not_iff b = ground arith

  pub check_not-Reports :
      (v : Json) (o : Option Json) (path : String) (errors : List Fault)
      → check_not call v o path ≡ ok errors
      → Reports errors (IfPresent o (λ s. ¬ V v s))
  unfolding check_not
  check_not-Reports v none path errors h = absent-Reports h
  check_not-Reports v (some s) path errors h =
      let (r, e, h1) = >>=-eq-ok (call v s path) _ h in
      let met = sound v s path r e in
      ok-Reports
        (iff_trans (fault_if-Reports (is_empty r) path must_not_match) (
          λ f x. cc (met.1 x, f),
          λ n. elim (Bool-cases (is_empty r)) [ inl t ↦ absurd (n (met.0 t)) | inr f ↦ f ],
        ))
        h1

  pub check_ref-Reports :
      (root : Fields) (v : Json) (o : Option Json) (path : String) (errors : List Fault)
      → check_ref call root v o path ≡ ok errors
      → Reports errors
          (IfPresent o (OfText (λ ref. (fs : Fields) × Refers root ref fs × V v (obj fs))))
  unfolding check_ref
  check_ref-Reports root v none path errors h = absent-Reports h
  check_ref-Reports root v (some (str ref)) path errors h =
      let (fs, e, h1) = >>=-eq-ok (resolve ref root) _ h in
      let met = sound v (obj fs) path errors h1 in
      (
        λ t. (fs, (resolve_iff ref root fs).0 e, met.0 t),
        λ (gs, r, x).
            let e' = (resolve_iff ref root gs).1 r in
            let same : gs ≡ fs = ok-injective (sym e' ∙ e) in
            met.1 (subst (λ y. V v (obj y)) same x),
      )
  check_ref-Reports root v (some _) path errors h = cc

  check_items-Reports :
      (xs : Items) (s : Json) (path : String) (index : ℕ) (errors : List Fault)
      → check_items call xs s path index ≡ ok errors
      → Reports errors (EachItem (λ x. V x s) xs)
  unfolding check_items
  check_items-Reports nil s path index errors h = absent-Reports h
  check_items-Reports (cons x xs) s path index errors h =
      let where_ = concat (path ∷ "[" ∷ number_text index ∷ "]" ∷ []) in
      let (here, e, h1) = >>=-eq-ok (call x s where_) _ h in
      let (there, e', h2) = >>=-eq-ok (check_items call xs s path (suc index)) _ h1 in
      ok-Reports
        (both here there (sound x s where_ here e)
          (check_items-Reports xs s path (suc index) there e'))
        h2

  check_each-Reports :
      (xs : Items) (o : Option Json) (path : String) (errors : List Fault)
      → check_each call xs o path ≡ ok errors
      → Reports errors (IfPresent o (λ s. EachItem (λ x. V x s) xs))
  unfolding check_each
  check_each-Reports xs none path errors h = absent-Reports h
  check_each-Reports xs (some s) path errors h = check_items-Reports xs s path 0 errors h

  check_unique-Reports :
      (fuel : ℕ) (xs : Items) (b : Bool) (path : String) (errors : List Fault)
      → check_unique fuel xs b path ≡ ok errors
      → Reports errors (b ≡ true → Distinct xs)
  unfolding check_unique
  check_unique-Reports fuel xs false path errors h = ok-Reports (nothing-Reports (λ t. cc)) h
  check_unique-Reports fuel xs true path errors h =
      let (there, back) =
        tested-Reports (duplicates_after fuel nil xs) path repeated errors
          (duplicates-Distinct fuel xs) h in
      (λ t _. there t, λ d. back (d refl))

  pub check_array-Reports :
      (fuel : ℕ) (v : Json) (schema : Fields) (path : String) (errors : List Fault)
      → check_array fuel call v schema path ≡ ok errors
      → Reports errors (FitsArray V v schema)
  unfolding check_array
  check_array-Reports fuel (arr xs) schema path errors h =
      let size = num (count xs) in
      let wanted = is_truthy (keyword schema "uniqueItems") in
      let (a, ea, h1) = >>=-eq-ok (check_each call xs (keyword schema "items") path) _ h in
      let (b, eb, h2) =
        >>=-eq-ok (check_bound (λ x. less size x) (keyword schema "minItems") path too_few) _ h1 in
      let (c, ec, h3) =
        >>=-eq-ok (check_bound (λ x. less x size) (keyword schema "maxItems") path too_many) _ h2 in
      let (d, ed, h4) = >>=-eq-ok (check_unique fuel xs wanted path) _ h3 in
      ok-Reports
        (both a (b ++ (c ++ d)) (check_each-Reports xs (keyword schema "items") path a ea) (
          both b (c ++ d) (AtLeast-Reports size (keyword schema "minItems") path too_few b eb) (
            both c d (AtMost-Reports size (keyword schema "maxItems") path too_many c ec)
              (check_unique-Reports fuel xs wanted path d ed))))
        h4
  check_array-Reports fuel _ schema path errors h = absent-Reports h
