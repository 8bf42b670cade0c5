-- ===== src/Schema/Sound/Scalars.antt =====
-- The keywords on texts, numbers and constants: no errors exactly when the assertion holds.
use llm_errata.Prelude.{
  ℕ, ◌≡◌, ◌↔◌, inl, inr, Bool, true, false, not, List, ◌++◌, String, Option, none, some, length,
  arith, Option-cases,
}
use llm_errata.Errors.{Result, ok, ◌>>=◌, >>=-eq-ok}
use llm_errata.Json.{Json, num, neg, str, arr, Fields, codes}
use llm_errata.Schema.Equal.{keyword, equal, equals_some}
use llm_errata.Schema.Checks.{
  Fault, fault_if, Kind, Search, check_enum, check_const, searched, check_bound, less,
  check_pattern, check_string, at_most, number_bounds, check_number,
}
use llm_errata.Schema.Same.{Same, IsLess}
use llm_errata.Schema.Valid.{
  IfPresent, OfText, Listed, AtLeast, AtMost, FitsText, InRange, FitsNumber,
}
use llm_errata.Schema.Sound.Equality.{Decides, Refutes, equal-Decides, equals_some-Decides}
use llm_errata.Schema.Sound.Types.{less-Decides, at_most-Refutes, Decides-Refutes}
use llm_errata.Schema.Checks.{
  not_listed, not_constant, no_match, too_short, too_long, below_minimum, above_maximum, not_above,
  not_below,
}
use llm_errata.Schema.Sound.{Reports, both, tested, iff_trans, absent-Reports, ok-Reports}

pub tested-Reports :
    {P : Type 0} (r : Result Bool) (path : String) (kind : Kind) (errors : List Fault)
    → Refutes r P
    → (r >>= λ b. ok (fault_if b path kind)) ≡ ok errors
    → Reports errors P
tested-Reports r path kind errors p h =
    let (b, e, t) = tested r (λ x. x) path kind errors h in iff_trans t (p b e)

untested-Reports :
    {P : Type 0} (r : Result Bool) (path : String) (kind : Kind) (errors : List Fault)
    → Decides r P
    → (r >>= λ b. ok (fault_if (not b) path kind)) ≡ ok errors
    → Reports errors P
untested-Reports r path kind errors p h =
    let (b, e, t) = tested r not path kind errors h in
    iff_trans t (iff_trans (ground arith) (p b e))

pub check_bound-Reports :
    (broken : Json → Result Bool) (P : Json → Type 0) (bound : Option Json) (path : String)
    (kind : Kind) (errors : List Fault)
    → ((b : Json) → Refutes (broken b) (P b))
    → check_bound broken bound path kind ≡ ok errors
    → Reports errors (IfPresent bound P)
unfolding check_bound
check_bound-Reports broken P none path kind errors p h = absent-Reports h
check_bound-Reports broken P (some bound) path kind errors p h =
    tested-Reports (broken bound) path kind errors (p bound) h

pub AtLeast-Reports :
    (size : Json) (bound : Option Json) (path : String) (kind : Kind) (errors : List Fault)
    → check_bound (λ b. less size b) bound path kind ≡ ok errors
    → Reports errors (AtLeast size bound)
AtLeast-Reports size bound path kind errors =
    check_bound-Reports (λ b. less size b) (λ b. ¬ IsLess size b) bound path kind errors
      (λ b. Decides-Refutes (less size b) (less-Decides size b))

pub AtMost-Reports :
    (size : Json) (bound : Option Json) (path : String) (kind : Kind) (errors : List Fault)
    → check_bound (λ b. less b size) bound path kind ≡ ok errors
    → Reports errors (AtMost size bound)
AtMost-Reports size bound path kind errors =
    check_bound-Reports (λ b. less b size) (λ b. ¬ IsLess b size) bound path kind errors
      (λ b. Decides-Refutes (less b size) (less-Decides b size))

pub check_enum-Reports :
    (fuel : ℕ) (v : Json) (options : Option Json) (path : String) (errors : List Fault)
    → check_enum fuel v options path ≡ ok errors
    → Reports errors (IfPresent options (Listed v))
unfolding check_enum
check_enum-Reports fuel v none path errors h = absent-Reports h
check_enum-Reports fuel v (some (arr os)) path errors h =
    untested-Reports (equals_some fuel v os) path not_listed errors (equals_some-Decides fuel v os)
      h
check_enum-Reports fuel v (some _) path errors h = cc

pub check_const-Reports :
    (fuel : ℕ) (v : Json) (constant : Option Json) (path : String) (errors : List Fault)
    → check_const fuel v constant path ≡ ok errors
    → Reports errors (IfPresent constant (Same v))
unfolding check_const
check_const-Reports fuel v none path errors h = absent-Reports h
check_const-Reports fuel v (some c) path errors h =
    untested-Reports (equal fuel v c) path not_constant errors (equal-Decides fuel v c) h

searched_iff :
    (search_ : Search) (t s : String) {b : Bool}
    → searched search_ t s ≡ ok b
    → (not b ≡ false) ↔ (search_ t s ≡ some true)
unfolding searched
searched_iff search_ t s e = elim (Option-cases (search_ t s)) [
  | inl none_ ↦ absurd (ground arith)
  | inr (found, f) ↦ ground arith
]

check_pattern-Reports :
    (search_ : Search) (s : String) (pattern : Option Json) (path : String) (errors : List Fault)
    → check_pattern search_ s pattern path ≡ ok errors
    → Reports errors (IfPresent pattern (OfText (λ t. search_ t s ≡ some true)))
unfolding check_pattern
check_pattern-Reports search_ s none path errors h = absent-Reports h
check_pattern-Reports search_ s (some (str t)) path errors h =
    let (b, e, r) = tested (searched search_ t s) not path no_match errors h in
    iff_trans r (searched_iff search_ t s e)
check_pattern-Reports search_ s (some _) path errors h = cc

pub check_string-Reports :
    (search_ : Search) (v : Json) (schema : Fields) (path : String) (errors : List Fault)
    → check_string search_ v schema path ≡ ok errors
    → Reports errors (FitsText search_ v schema)
unfolding check_string
check_string-Reports search_ (str s) schema path errors h =
    let size = num (length (codes s)) in
    let (a, ea, h1) = >>=-eq-ok (check_pattern search_ s (keyword schema "pattern") path) _ h in
    let (b, eb, h2) =
      >>=-eq-ok (check_bound (λ x. less size x) (keyword schema "minLength") path too_short) _ h1 in
    let (c, ec, h3) =
      >>=-eq-ok (check_bound (λ x. less x size) (keyword schema "maxLength") path too_long) _ h2 in
    ok-Reports
      (both a (b ++ c) (check_pattern-Reports search_ s (keyword schema "pattern") path a ea) (
        both b c (AtLeast-Reports size (keyword schema "minLength") path too_short b eb)
          (AtMost-Reports size (keyword schema "maxLength") path too_long c ec)))
      h3
check_string-Reports search_ _ schema path errors h = absent-Reports h

InRange-Reports :
    (v : Json) (schema : Fields) (path : String) (errors : List Fault)
    → number_bounds v schema path ≡ ok errors
    → Reports errors (InRange v schema)
unfolding number_bounds
InRange-Reports v schema path errors h =
    let (a, ea, h1) =
      >>=-eq-ok (check_bound (λ x. less v x) (keyword schema "minimum") path below_minimum) _ h in
    let (b, eb, h2) =
      >>=-eq-ok (check_bound (λ x. less x v) (keyword schema "maximum") path above_maximum) _ h1 in
    let (c, ec, h3) =
      >>=-eq-ok (check_bound (λ x. at_most v x) (keyword schema "exclusiveMinimum") path not_above)
        _ h2 in
    let (d, ed, h4) =
      >>=-eq-ok (check_bound (λ x. at_most x v) (keyword schema "exclusiveMaximum") path not_below)
        _ h3 in
    ok-Reports
      (both a (b ++ (c ++ d)) (AtLeast-Reports v (keyword schema "minimum") path below_minimum a ea)
        (both b (c ++ d) (AtMost-Reports v (keyword schema "maximum") path above_maximum b eb) (
          both c d
            (check_bound-Reports (λ x. at_most v x) (λ x. IsLess x v)
              (keyword schema "exclusiveMinimum") path not_above c (λ x. at_most-Refutes v x) ec)
            (check_bound-Reports (λ x. at_most x v) (λ x. IsLess v x)
              (keyword schema "exclusiveMaximum") path not_below d (λ x. at_most-Refutes x v) ed))))
      h4

pub check_number-Reports :
    (v : Json) (schema : Fields) (path : String) (errors : List Fault)
    → check_number v schema path ≡ ok errors
    → Reports errors (FitsNumber v schema)
unfolding check_number
check_number-Reports (num n) schema path errors h = InRange-Reports (num n) schema path errors h
check_number-Reports (neg n) schema path errors h = InRange-Reports (neg n) schema path errors h
check_number-Reports _ schema path errors h = absent-Reports h
