-- ===== src/Schema/Sound.antt =====
-- Error lists that are empty exactly when something holds, and how they are put together.
pub mod Equality
pub mod Types
pub mod Scalars
pub mod Branches
pub mod Properties
use llm_errata.Prelude.{
  ℕ, zero, suc, ◌≡◌, refl, sym, ap, subst, ◌∙◌, ◌↔◌, ◌⊎◌, inl, inr, Bool, true, false, not, ◌&&◌,
  ◌||◌, List, [], ◌∷◌, ◌++◌, String, Option, none, some, contains, length, nat_eq, is_empty,
  is_empty-append, concat, number_text, if◌then◌else◌, arith, Bool-cases, Option-cases,
}
use llm_errata.Errors.{Result, ok, raise, ◌>>=◌, >>=-eq-ok, ok-injective}
use llm_errata.Json.{
  Json, null, bool, num, neg, str, arr, obj, Items, nil, cons, Fields, field, end, codes,
}
use llm_errata.Schema.Equal.{keyword, names, equal, equals_some, duplicates_after, resolve}
use llm_errata.Schema.Checks.{
  Fault, Kind, Call, Search, fault_if, check_ref, matches_types, check_enum, check_const, searched,
  check_bound, less, check_pattern, check_string, at_most, number_bounds, check_number, check_items,
  check_each, check_array, is_truthy, branches, passed, joined, combined, check_all_of,
  check_any_of, check_one_of, check_not, is_integer,
}
use llm_errata.Schema.Same.{Both}
use llm_errata.Schema.Valid.{
  Validity, IfPresent, OneItem, OfItems, OfText, Listed, AtLeast, AtMost, Above, Below, FitsText,
  InRange, FitsNumber, FitsArray,
}

abbrev pub Reports : List Fault → Type 0 → Type 0
Reports errors P = (is_empty errors ≡ true) ↔ P

-- What `validate` promises on the level below.
abbrev pub IsSound : Call → Validity → Type 0
IsSound call V =
    (v s : Json) (path : String) (errors : List Fault)
    → call v s path ≡ ok errors
    → Reports errors (V v s)

pub both :
    {P Q : Type 0} (xs ys : List Fault)
    → Reports xs P
    → Reports ys Q
    → Reports (xs ++ ys) (Both P Q)
both xs ys p q = (
  λ h.
      let parts : (is_empty xs && is_empty ys) ≡ true = sym (is_empty-append xs ys) ∙ h in
      (p.0 (ground arith), q.0 (ground arith)),
  λ (a, b). is_empty-append xs ys ∙ ground (arith, p.1 a, q.1 b),
)

pub nothing-Reports : {P : Type 0} → P → Reports [] P
nothing-Reports p = (λ _. p, λ _. refl)

pub fault_if-Reports :
    (b : Bool) (path : String) (kind : Kind) → Reports (fault_if b path kind) (b ≡ false)
fault_if-Reports true path kind = ground arith
fault_if-Reports false path kind = ground arith

-- The errors of a test that may raise.
pub tested :
    (r : Result Bool) (f : Bool → Bool) (path : String) (kind : Kind) (errors : List Fault)
    → (r >>= λ b. ok (fault_if (f b) path kind)) ≡ ok errors
    → (b : Bool) × (r ≡ ok b) × Reports errors (f b ≡ false)
tested (ok b) f path kind errors h = (
  b,
  refl,
  subst (λ x. Reports x (f b ≡ false)) (ok-injective h) (fault_if-Reports (f b) path kind),
)
tested (raise x) f path kind errors h = cc

pub ok_iff : {r : Result Bool} {b : Bool} (c : Bool) → r ≡ ok b → (b ≡ c) ↔ (r ≡ ok c)
ok_iff c e = (λ same. e ∙ ap ok same, λ h. ok-injective (sym e ∙ h))

pub iff_trans : {P Q R : Type 0} → P ↔ Q → Q ↔ R → P ↔ R
iff_trans p q = (λ x. q.0 (p.0 x), λ x. p.1 (q.1 x))

pub absent-Reports : {errors : List Fault} → ok [] ≡ ok errors → Reports errors Unit
absent-Reports h = subst (λ x. Reports x Unit) (ok-injective h) (nothing-Reports tt)

pub ok-Reports :
    {P : Type 0} {xs errors : List Fault} → Reports xs P → ok xs ≡ ok errors → Reports errors P
ok-Reports {P} r h = subst (λ x. Reports x P) (ok-injective h) r
