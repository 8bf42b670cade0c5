-- ===== src/Schema/Ends/Equality.antt =====
-- Equality and the search for duplicates end, where as many nested calls are left as a value is
-- large.
use llm_errata.Prelude.{
  ℕ, zero, suc, ◌<◌, refl, Bool, true, false, String, Option, none, some, ◌&&◌, nat_eq, subset,
  if◌then◌else◌, arith,
}
use llm_errata.Errors.{Result, ok, ◌>>=◌}
use llm_errata.Json.{
  Json, null, bool, num, neg, str, arr, obj, Items, nil, cons, Fields, field, end,
}
use llm_errata.Schema.Equal.{
  keyword, names, count, equal, equal_items, equal_fields, equals_some, snoc, duplicates_after,
}
use llm_errata.Schema.Checks.{check_enum, check_const, check_unique}
use llm_errata.Schema.Ends.{Ends, Ends-bind, weight, weight_of_items, weight_of_fields}

if-Ends : (b : Bool) (r s : Result Bool) → Ends r → Ends s → Ends (if b then r else s)
if-Ends true r s h k = h
if-Ends false r s h k = k

found-Ends :
    (o : Option Json) (r : Json → Result Bool) (s : Result Bool)
    → ((w : Json) → Ends (r w))
    → Ends s
    → Ends (elim o [ none ↦ ok false | some w ↦ r w >>= λ b. if b then s else ok false ])
found-Ends none r s h k = tt
found-Ends (some w) r s h k = Ends-bind (r w) _ (h w) (λ b. if-Ends b s (ok false) k tt)

mutual
  unfolding equal weight

  pub equal-Ends : (fuel : ℕ) (v w : Json) → weight v < fuel → Ends (equal fuel v w)
  equal-Ends zero v w h = absurd (omega (arith, h))
  equal-Ends (suc fuel) null null h = tt
  equal-Ends (suc fuel) (bool a) (bool b) h = tt
  equal-Ends (suc fuel) (num a) (num b) h = tt
  equal-Ends (suc fuel) (neg a) (neg b) h = tt
  equal-Ends (suc fuel) (str a) (str b) h = tt
  equal-Ends (suc fuel) (arr xs) (arr ys) h =
      if-Ends (nat_eq (count xs) (count ys)) (equal_items fuel xs ys) (ok false)
        (equal_items-Ends fuel xs ys (omega (arith, h))) tt
  equal-Ends (suc fuel) (obj fs) (obj gs) h =
      if-Ends (subset (names fs) (names gs) && subset (names gs) (names fs))
        (equal_fields fuel fs gs) (ok false) (equal_fields-Ends fuel fs gs (omega (arith, h))) tt
  equal-Ends (suc fuel) _ _ h = tt

  pub equal_items-Ends :
      (fuel : ℕ) (xs ys : Items) → weight_of_items xs < fuel → Ends (equal_items fuel xs ys)
  equal_items-Ends fuel (cons x xs) (cons y ys) h =
      Ends-bind (equal fuel x y) _ (equal-Ends fuel x y (omega (arith, h))) (λ b.
        if-Ends b (equal_items fuel xs ys) (ok false)
          (equal_items-Ends fuel xs ys (omega (arith, h))) tt)
  equal_items-Ends fuel nil ys h = tt
  equal_items-Ends fuel (cons x xs) nil h = tt

  pub equal_fields-Ends :
      (fuel : ℕ) (fs gs : Fields) → weight_of_fields fs < fuel → Ends (equal_fields fuel fs gs)
  equal_fields-Ends fuel end gs h = tt
  equal_fields-Ends fuel (field k v fs) gs h =
      found-Ends (keyword gs k) (equal fuel v) (equal_fields fuel fs gs)
        (λ w. equal-Ends fuel v w (omega (arith, h)))
        (equal_fields-Ends fuel fs gs (omega (arith, h)))

equals_some-Ends :
    (fuel : ℕ) (v : Json) (xs : Items) → weight v < fuel → Ends (equals_some fuel v xs)
unfolding equals_some
equals_some-Ends fuel v nil h = tt
equals_some-Ends fuel v (cons x xs) h =
    Ends-bind (equal fuel v x) _ (equal-Ends fuel v x h)
      (λ b. if-Ends b (ok true) (equals_some fuel v xs) tt (equals_some-Ends fuel v xs h))

duplicates-Ends :
    (fuel : ℕ) (earlier xs : Items)
    → weight_of_items xs < fuel
    → Ends (duplicates_after fuel earlier xs)
unfolding duplicates_after weight
duplicates-Ends fuel earlier nil h = tt
duplicates-Ends fuel earlier (cons x xs) h =
    Ends-bind (equals_some fuel x earlier) _ (equals_some-Ends fuel x earlier (omega (arith, h)))
      (λ b.
        if-Ends b (ok true) (duplicates_after fuel (snoc earlier x) xs) tt
          (duplicates-Ends fuel (snoc earlier x) xs (omega (arith, h))))

pub check_enum-Ends :
    (fuel : ℕ) (v : Json) (o : Option Json) (path : String)
    → weight v < fuel
    → Ends (check_enum fuel v o path)
unfolding check_enum
check_enum-Ends fuel v none path h = tt
check_enum-Ends fuel v (some (arr os)) path h =
    Ends-bind (equals_some fuel v os) _ (equals_some-Ends fuel v os h) (λ _. tt)
check_enum-Ends fuel v (some _) path h = refl

pub check_const-Ends :
    (fuel : ℕ) (v : Json) (o : Option Json) (path : String)
    → weight v < fuel
    → Ends (check_const fuel v o path)
unfolding check_const
check_const-Ends fuel v none path h = tt
check_const-Ends fuel v (some c) path h =
    Ends-bind (equal fuel v c) _ (equal-Ends fuel v c h) (λ _. tt)

pub check_unique-Ends :
    (fuel : ℕ) (xs : Items) (b : Bool) (path : String)
    → weight_of_items xs < fuel
    → Ends (check_unique fuel xs b path)
unfolding check_unique
check_unique-Ends fuel xs false path h = tt
check_unique-Ends fuel xs true path h =
    Ends-bind (duplicates_after fuel nil xs) _ (duplicates-Ends fuel nil xs h) (λ _. tt)
