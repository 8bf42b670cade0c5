-- ===== src/Schema/Sound/Equality.antt =====
-- What the tests return decides what they are about: equality, repetition, order, types and
-- references.
use llm_errata.Prelude.{
  ℕ, zero, suc, ◌≡◌, refl, sym, subst, ap, ◌∙◌, ◌↔◌, ◌⊎◌, inl, inr, Bool, true, false, not, ◌&&◌,
  Option, none, some, contains, every-contains, subset, nat_eq, eq_iff, if◌then◌else◌, ◌==◌, arith,
}
use llm_errata.Adapters.Verdicts.{every_of}
use llm_errata.Errors.{Result, ok, raise, ◌>>=◌, ok-injective}
use llm_errata.Json.{
  Json, null, bool, num, neg, str, arr, obj, Items, nil, cons, Fields, field, end,
}
use llm_errata.Schema.Equal.{
  keyword, names, equal, equal_items, equal_fields, count, equals_some, snoc, duplicates_after,
}
use llm_errata.Schema.Same.{
  Both, EachItem, SomeItem, SameNames, Same, SameItems, SameFields, Distinct,
}

-- What is returned, if anything, is whether the predicate holds.
abbrev pub Decides : Result Bool → Type 0 → Type 0
Decides r P = (b : Bool) → r ≡ ok b → (b ≡ true) ↔ P

abbrev pub Refutes : Result Bool → Type 0 → Type 0
Refutes r P = (b : Bool) → r ≡ ok b → (b ≡ false) ↔ P

pub ok-Decides : {P : Type 0} (c : Bool) → ((c ≡ true) ↔ P) → Decides (ok c) P
ok-Decides c h b e =
    let same : c ≡ b = ok-injective e in (λ t. h.0 (same ∙ t), λ p. sym same ∙ h.1 p)

pub ok-Refutes : {P : Type 0} (c : Bool) → ((c ≡ false) ↔ P) → Refutes (ok c) P
ok-Refutes c h b e =
    let same : c ≡ b = ok-injective e in (λ t. h.0 (same ∙ t), λ p. sym same ∙ h.1 p)

never : {P : Type 0} → (P → ⊥) → Decides (ok false) P
never refuted = ok-Decides false (λ h. cc, λ p. absurd (refuted p))

pub and-Decides :
    {P Q : Type 0} (r s : Result Bool)
    → Decides r P
    → Decides s Q
    → Decides (r >>= λ b. if b then s else ok false) (Both P Q)
and-Decides (ok true) s p q b e =
    let x = (p true refl).0 refl in (λ t. (x, (q b e).0 t), λ (_, y). (q b e).1 y)
and-Decides (ok false) s p q b e = never (λ (x, _). let t = (p false refl).1 x in cc) b e
and-Decides (raise x) s p q b e = cc

pub or-Decides :
    {P Q : Type 0} (r s : Result Bool)
    → Decides r P
    → Decides s Q
    → Decides (r >>= λ b. if b then ok true else s) (P ⊎ Q)
or-Decides (ok true) s p q b e = ok-Decides true (λ _. inl ((p true refl).0 refl), λ _. refl) b e
or-Decides (ok false) s p q b e = (
  λ t. inr ((q b e).0 t),
  λ h. elim h [ inl x ↦ (let t = (p false refl).1 x in cc) | inr y ↦ (q b e).1 y ],
)
or-Decides (raise x) s p q b e = cc

-- A test that has to hold, and then what is returned.
pub if-Decides :
    {P Q : Type 0} (c : Bool) (s : Result Bool)
    → ((c ≡ true) ↔ P)
    → Decides s Q
    → Decides (if c then s else ok false) (Both P Q)
if-Decides true s p q b e = (λ t. (p.0 refl, (q b e).0 t), λ (_, y). (q b e).1 y)
if-Decides false s p q b e = never (λ (x, _). let t = p.1 x in cc) b e

-- A test that has to hold where the predicate does.
first-Decides :
    {Q : Type 0} (c : Bool) (s : Result Bool)
    → (Q → c ≡ true)
    → (c ≡ true → Decides s Q)
    → Decides (if c then s else ok false) Q
first-Decides true s p q b e = q refl b e
first-Decides false s p q b e = never (λ x. let t = p x in cc) b e

found-Decides :
    {P : Json → Type 0} {Q : Type 0} (o : Option Json) (r : Json → Result Bool) (s : Result Bool)
    → ((w : Json) → Decides (r w) (P w))
    → Decides s Q
    → Decides
        (elim o [ none ↦ ok false | some w ↦ r w >>= λ b. if b then s else ok false ])
        (Both ((w : Json) × (o ≡ some w) × P w) Q)
found-Decides none r s p q b e = never (λ ((w, f, _), _). let t = f in cc) b e
found-Decides {P} (some w) r s p q b e =
    let (there, back) = and-Decides (r w) s (p w) q b e in
    (
      λ t. let (x, y) = there t in ((w, refl, x), y),
      λ ((u, f, x), y).
          let same : w ≡ u = ap (λ o. elim o [ none ↦ w | some j ↦ j ]) f in
          back (subst P (sym same) x, y),
    )

SameNames-iff :
    (fs gs : Fields)
    → ((subset (names fs) (names gs) && subset (names gs) (names fs)) ≡ true) ↔ SameNames fs gs
SameNames-iff fs gs = (
  λ h k. (
    λ m. every-contains (contains (names gs)) (names fs) k (ground arith) m,
    λ m. every-contains (contains (names fs)) (names gs) k (ground arith) m,
  ),
  λ h.
      let there = every_of (contains (names gs)) (names fs) (λ k m. (h k).0 m) in
      let back = every_of (contains (names fs)) (names gs) (λ k m. (h k).1 m) in ground arith,
)

same_length : (xs ys : Items) → SameItems xs ys → nat_eq (count xs) (count ys) ≡ true
unfolding SameItems count
same_length nil nil h = refl
same_length (cons x xs) (cons y ys) h = ground (arith, same_length xs ys h.1)
same_length nil (cons y ys) h = absurd h
same_length (cons x xs) nil h = absurd h

mutual
  unfolding equal Same count

  pub equal-Decides : (fuel : ℕ) (v w : Json) → Decides (equal fuel v w) (Same v w)
  equal-Decides zero v w = λ b e. cc
  equal-Decides (suc fuel) null null = ok-Decides true (λ _. tt, λ _. refl)
  equal-Decides (suc fuel) (bool true) (bool c) = ok-Decides c (λ t. sym t, λ t. sym t)
  equal-Decides (suc fuel) (bool false) (bool c) = ok-Decides (not c) (ground arith)
  equal-Decides (suc fuel) (num m) (num n) = ok-Decides (nat_eq m n) (ground arith)
  equal-Decides (suc fuel) (neg m) (neg n) = ok-Decides (nat_eq m n) (ground arith)
  equal-Decides (suc fuel) (str s) (str t) = ok-Decides (s == t) (eq_iff s t)
  equal-Decides (suc fuel) (arr xs) (arr ys) =
      first-Decides (nat_eq (count xs) (count ys)) (equal_items fuel xs ys) (same_length xs ys)
        (equal_items-Decides fuel xs ys)
  equal-Decides (suc fuel) (obj fs) (obj gs) =
      if-Decides (subset (names fs) (names gs) && subset (names gs) (names fs))
        (equal_fields fuel fs gs) (SameNames-iff fs gs) (equal_fields-Decides fuel fs gs)
  equal-Decides (suc fuel) _ _ = never (λ x. x)

  pub equal_items-Decides :
      (fuel : ℕ) (xs ys : Items)
      → nat_eq (count xs) (count ys) ≡ true
      → Decides (equal_items fuel xs ys) (SameItems xs ys)
  equal_items-Decides fuel nil nil h = ok-Decides true (λ _. tt, λ _. refl)
  equal_items-Decides fuel (cons x xs) (cons y ys) h =
      and-Decides (equal fuel x y) (equal_items fuel xs ys) (equal-Decides fuel x y)
        (equal_items-Decides fuel xs ys (ground (arith, h)))
  equal_items-Decides fuel nil (cons y ys) h = absurd (ground (arith, h))
  equal_items-Decides fuel (cons x xs) nil h = absurd (ground (arith, h))

  pub equal_fields-Decides :
      (fuel : ℕ) (fs gs : Fields) → Decides (equal_fields fuel fs gs) (SameFields fs gs)
  equal_fields-Decides fuel end gs = ok-Decides true (λ _. tt, λ _. refl)
  equal_fields-Decides fuel (field k v fs) gs =
      found-Decides (keyword gs k) (equal fuel v) (equal_fields fuel fs gs)
        (λ w. equal-Decides fuel v w) (equal_fields-Decides fuel fs gs)

pub equals_some-Decides :
    (fuel : ℕ) (v : Json) (xs : Items) → Decides (equals_some fuel v xs) (SomeItem (Same v) xs)
unfolding equals_some
equals_some-Decides fuel v nil = never (λ x. x)
equals_some-Decides fuel v (cons x xs) =
    or-Decides (equal fuel v x) (equals_some fuel v xs) (equal-Decides fuel v x)
      (equals_some-Decides fuel v xs)

none_of : (P : Json → Type 0) (xs : Items) → (¬ SomeItem P xs) ↔ EachItem (λ x. ¬ P x) xs
none_of P nil = (λ _. tt, λ _ x. x)
none_of P (cons x xs) =
    let (there, back) = none_of P xs in
    (
      λ h. (λ p. h (inl p), there (λ m. h (inr m))),
      λ (p, ps) h. elim h [ inl x ↦ p x | inr m ↦ back ps m ],
    )

-- Each item differs from those in front of it, which the first list starts with.
abbrev After : Items → Items → Type 0
After earlier nil = Unit
After earlier (cons x xs) = Both (EachItem (λ y. ¬ Same x y) earlier) (After (snoc earlier x) xs)

or-Refutes :
    {P Q : Type 0} (r s : Result Bool)
    → Decides r P
    → Refutes s Q
    → Refutes (r >>= λ b. if b then ok true else s) (Both (¬ P) Q)
or-Refutes (ok true) s p q b e =
    ok-Refutes true (λ h. cc, λ (n, _). absurd (n ((p true refl).0 refl))) b e
or-Refutes (ok false) s p q b e =
    (λ t. (λ x. (let u = (p false refl).1 x in cc), (q b e).0 t), λ (_, y). (q b e).1 y)
or-Refutes (raise x) s p q b e = cc

duplicates-Refutes :
    (fuel : ℕ) (earlier xs : Items) → Refutes (duplicates_after fuel earlier xs) (After earlier xs)
unfolding duplicates_after
duplicates-Refutes fuel earlier nil = ok-Refutes false (λ _. tt, λ _. refl)
duplicates-Refutes fuel earlier (cons x xs) = λ b e.
    let rest = duplicates-Refutes fuel (snoc earlier x) xs in
    let (there, back) =
      or-Refutes (equals_some fuel x earlier) (duplicates_after fuel (snoc earlier x) xs)
        (equals_some-Decides fuel x earlier) rest b e in
    let (none_, some_) = none_of (Same x) earlier in
    (λ t. let (n, y) = there t in (none_ n, y), λ (n, y). back (some_ n, y))

each-snoc :
    (P : Json → Type 0) (xs : Items) (x : Json)
    → EachItem P (snoc xs x) ↔ Both (EachItem P xs) (P x)
unfolding snoc
each-snoc P nil x = (λ (p, _). (tt, p), λ (_, p). (p, tt))
each-snoc P (cons y ys) x =
    let (there, back) = each-snoc P ys x in
    (λ (p, ps). let (a, b) = there ps in ((p, a), b), λ ((p, a), b). (p, back (a, b)))

each-both :
    (P Q : Json → Type 0) (xs : Items)
    → EachItem (λ x. Both (P x) (Q x)) xs ↔ Both (EachItem P xs) (EachItem Q xs)
each-both P Q nil = (λ _. (tt, tt), λ _. tt)
each-both P Q (cons y ys) =
    let (there, back) = each-both P Q ys in
    (
      λ ((p, q), ps). let (a, b) = there ps in ((p, a), (q, b)),
      λ ((p, a), (q, b)). ((p, q), back (a, b)),
    )

-- No item of the second list is the same as one of the first.
abbrev Apart : Items → Items → Type 0
Apart earlier xs = EachItem (λ o. EachItem (λ y. ¬ Same y o) xs) earlier

Apart-nil : (earlier : Items) → Apart earlier nil
Apart-nil nil = tt
Apart-nil (cons x xs) = (tt, Apart-nil xs)

After-iff : (earlier xs : Items) → After earlier xs ↔ Both (Apart earlier xs) (Distinct xs)
After-iff earlier nil = (λ _. (Apart-nil earlier, tt), λ _. tt)
After-iff earlier (cons x xs) =
    let (there, back) = After-iff (snoc earlier x) xs in
    let (split, join_) = each-snoc (λ o. EachItem (λ y. ¬ Same y o) xs) earlier x in
    let (parts, whole) = each-both (λ o. ¬ Same x o) (λ o. EachItem (λ y. ¬ Same y o) xs) earlier in
    (
      λ (a, r). let (c, d) = there r in let (c', b) = split c in (whole (a, c'), (b, d)),
      λ (w, (b, d)). let (a, c) = parts w in (a, back (join_ (c, b), d)),
    )

pub duplicates-Distinct :
    (fuel : ℕ) (xs : Items) → Refutes (duplicates_after fuel nil xs) (Distinct xs)
duplicates-Distinct fuel xs b e =
    let (there, back) = duplicates-Refutes fuel nil xs b e in
    let (apart, after) = After-iff nil xs in (λ t. (apart (there t)).1, λ d. back (after (tt, d)))
