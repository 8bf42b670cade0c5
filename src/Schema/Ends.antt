-- ===== src/Schema/Ends.antt =====
-- What a schema without references is, how large it is, and that the keywords which call nothing
-- come to an end.
pub mod Equality
pub mod Keywords
use llm_errata.Prelude.{
  ℕ, suc, ◌+◌, ◌<◌, ◌≡◌, refl, Bool, true, false, not, ◌&&◌, String, Option, none, some, length,
  if◌then◌else◌, ◌==◌, arith, Bool-cases, inl, inr,
}
use mathlib.Core.Bool.{and-eq-true_iff}
use llm_errata.Errors.{Result, ok, raise, Exception, recursion_error, ◌>>=◌, schema_error}
use llm_errata.Json.{Json, num, neg, str, arr, obj, Items, nil, cons, Fields, field, end, codes}
use llm_errata.Schema.Equal.{keyword}
use llm_errata.Schema.Checks.{
  Kind, Search, matches_name, matches_any, matches_types, searched, check_pattern, check_bound,
  less, check_string, at_most, number_bounds, check_number, matches_type, too_short, too_long,
  below_minimum, above_maximum, not_above, not_below,
}

-- Not the error of a recursion that is too deep.
abbrev is_recursion : Exception → Bool
is_recursion recursion_error = true
is_recursion _ = false

abbrev pub Ends {ℓ} : {A : Type ℓ} → Result A → Type 0
Ends (ok a) = Unit {0}
Ends (raise e) = is_recursion e ≡ false

pub Ends-bind {ℓ κ} :
    {A : Type ℓ} {B : Type κ} (m : Result A) (f : A → Result B)
    → Ends m
    → ((a : A) → Ends (f a))
    → Ends (m >>= f)
Ends-bind (ok a) f m k = k a
Ends-bind (raise e) f m k = m

-- The same where what follows rests on what the first part returned.
pub Ends-bind_eq {ℓ κ} :
    {A : Type ℓ} {B : Type κ} (m : Result A) (f : A → Result B)
    → Ends m
    → ((a : A) → m ≡ ok a → Ends (f a))
    → Ends (m >>= f)
Ends-bind_eq (ok a) f m k = k a refl
Ends-bind_eq (raise e) f m k = m

-- How many arrays and objects a value is made of, itself included.
unfoldable mutual
  pub weight_of_fields : Fields → ℕ
  weight_of_fields end = 0
  weight_of_fields (field name value rest) = weight value + weight_of_fields rest

  pub weight_of_items : Items → ℕ
  weight_of_items nil = 0
  weight_of_items (cons item rest) = weight item + weight_of_items rest

  pub weight : Json → ℕ
  weight (obj members) = suc (weight_of_fields members)
  weight (arr items) = suc (weight_of_items items)
  weight _ = 0

-- No object in the value has a "$ref".
unfoldable mutual
  pub no_ref : Json → Bool
  no_ref (arr xs) = no_ref_items xs
  no_ref (obj fs) = no_ref_fields fs
  no_ref _ = true

  pub no_ref_items : Items → Bool
  no_ref_items nil = true
  no_ref_items (cons x xs) = no_ref x && no_ref_items xs

  pub no_ref_fields : Fields → Bool
  no_ref_fields end = true
  no_ref_fields (field k v fs) = not (k == "$ref") && (no_ref v && no_ref_fields fs)

-- A reference-free value that is smaller than a bound.
abbrev pub Small : ℕ → Json → Type 0
Small n s = (no_ref s ≡ true) × (weight s < n)

abbrev pub SmallFields : ℕ → Fields → Type 0
SmallFields n fs = (no_ref_fields fs ≡ true) × (weight_of_fields fs < n)

abbrev pub SmallItems : ℕ → Items → Type 0
SmallItems n xs = (no_ref_items xs ≡ true) × (weight_of_items xs < n)

abbrev pub SmallOption : ℕ → Option Json → Type 0
SmallOption n none = Unit {0}
SmallOption n (some s) = Small n s

-- What a keyword holds is smaller than its schema.
pub keyword-Small :
    (n : ℕ) (fs : Fields) (k : String) → SmallFields n fs → SmallOption n (keyword fs k)
unfolding keyword weight no_ref
keyword-Small n end k h = tt
keyword-Small n (field j v fs) k h =
    let (_, both) = (and-eq-true_iff (not (j == "$ref")) (no_ref v && no_ref_fields fs)).0 h.0 in
    let (here, there) = (and-eq-true_iff (no_ref v) (no_ref_fields fs)).0 both in
    let rest = keyword-Small n fs k (there, omega (arith, h.1)) in
    elim (Bool-cases (j == k)) [ inl e ↦ rw e (here, omega (arith, h.1)) | inr e ↦ rw e rest ]

pub keyword-no_ref : (fs : Fields) → no_ref_fields fs ≡ true → keyword fs "$ref" ≡ none
unfolding keyword no_ref
keyword-no_ref end h = refl
keyword-no_ref (field j v fs) h =
    let (other, both) = (and-eq-true_iff (not (j == "$ref")) (no_ref v && no_ref_fields fs)).0 h in
    let (_, there) = (and-eq-true_iff (no_ref v) (no_ref_fields fs)).0 both in
    elim (Bool-cases (j == "$ref")) [ inl e ↦ cc | inr e ↦ rw e (keyword-no_ref fs there) ]

matches_name-Ends : (v : Json) (name : String) → Ends (matches_name v name)
unfolding matches_name
matches_name-Ends v name = ground arith

matches_type-Ends : (v : Json) (t : Json) → Ends (matches_type v t)
matches_type-Ends v (str name) = matches_name-Ends v name
matches_type-Ends v _ = refl

matches_any-Ends : (v : Json) (ts : Items) → Ends (matches_any v ts)
unfolding matches_any
matches_any-Ends v nil = tt
matches_any-Ends v (cons t ts) =
    Ends-bind (matches_type v t) _ (matches_type-Ends v t)
      (λ b. or_rest b (matches_any v ts) (matches_any-Ends v ts))
  where
    or_rest : (b : Bool) (r : Result Bool) → Ends r → Ends (if b then ok true else r)
    or_rest true r h = tt
    or_rest false r h = h

pub matches_types-Ends : (v : Json) (o : Option Json) → Ends (matches_types v o)
unfolding matches_types
matches_types-Ends v none = tt
matches_types-Ends v (some (arr ts)) = matches_any-Ends v ts
matches_types-Ends v (some (str name)) = matches_name-Ends v name
matches_types-Ends v (some _) = refl

pub searched-Ends : (search_ : Search) (t s : String) → Ends (searched search_ t s)
unfolding searched
searched-Ends search_ t s = found-Ends (search_ t s)
  where
    found-Ends :
        (o : Option Bool) → Ends (elim o [ none ↦ raise schema_error | some found ↦ ok found ])
    found-Ends none = refl
    found-Ends (some b) = tt

less-Ends : (a b : Json) → Ends (less a b)
unfolding less
less-Ends (num m) (num n) = tt
less-Ends (num m) (neg n) = tt
less-Ends (neg m) (num n) = tt
less-Ends (neg m) (neg n) = tt
less-Ends _ _ = refl

pub check_bound-Ends :
    (broken : Json → Result Bool) (o : Option Json) (path : String) (kind : Kind)
    → ((b : Json) → Ends (broken b))
    → Ends (check_bound broken o path kind)
unfolding check_bound
check_bound-Ends broken none path kind h = tt
check_bound-Ends broken (some b) path kind h = Ends-bind (broken b) _ (h b) (λ _. tt)

at_most-Ends : (a b : Json) → Ends (at_most a b)
unfolding at_most
at_most-Ends a b = Ends-bind (less b a) _ (less-Ends b a) (λ _. tt)

check_pattern-Ends :
    (search_ : Search) (s : String) (o : Option Json) (path : String)
    → Ends (check_pattern search_ s o path)
unfolding check_pattern
check_pattern-Ends search_ s none path = tt
check_pattern-Ends search_ s (some (str t)) path =
    Ends-bind (searched search_ t s) _ (searched-Ends search_ t s) (λ _. tt)
check_pattern-Ends search_ s (some _) path = refl

pub bound_below-Ends :
    (v : Json) (o : Option Json) (path : String) (kind : Kind)
    → Ends (check_bound (λ b. less v b) o path kind)
bound_below-Ends v o path kind = check_bound-Ends (λ b. less v b) o path kind (less-Ends v)

pub bound_above-Ends :
    (v : Json) (o : Option Json) (path : String) (kind : Kind)
    → Ends (check_bound (λ b. less b v) o path kind)
bound_above-Ends v o path kind = check_bound-Ends (λ b. less b v) o path kind (λ b. less-Ends b v)

pub check_string-Ends :
    (search_ : Search) (v : Json) (schema : Fields) (path : String)
    → Ends (check_string search_ v schema path)
unfolding check_string
check_string-Ends search_ (str s) schema path =
    let size_ = num (length (codes s)) in
    Ends-bind (check_pattern search_ s (keyword schema "pattern") path) _
      (check_pattern-Ends search_ s (keyword schema "pattern") path)
      (λ _.
        Ends-bind (check_bound (λ b. less size_ b) (keyword schema "minLength") path too_short) _
          (bound_below-Ends size_ (keyword schema "minLength") path too_short)
          (λ _.
            Ends-bind (check_bound (λ b. less b size_) (keyword schema "maxLength") path too_long) _
              (bound_above-Ends size_ (keyword schema "maxLength") path too_long) (λ _. tt)))
check_string-Ends search_ _ schema path = tt

bounds-Ends : (v : Json) (schema : Fields) (path : String) → Ends (number_bounds v schema path)
unfolding number_bounds
bounds-Ends v schema path =
    let k = keyword schema in
    Ends-bind (check_bound (λ b. less v b) (k "minimum") path below_minimum) _
      (bound_below-Ends v (k "minimum") path below_minimum)
      (λ _.
        Ends-bind (check_bound (λ b. less b v) (k "maximum") path above_maximum) _
          (bound_above-Ends v (k "maximum") path above_maximum)
          (λ _.
            Ends-bind (check_bound (λ b. at_most v b) (k "exclusiveMinimum") path not_above) _
              (check_bound-Ends (λ b. at_most v b) (k "exclusiveMinimum") path not_above
                (at_most-Ends v))
              (λ _.
                Ends-bind (check_bound (λ b. at_most b v) (k "exclusiveMaximum") path not_below) _
                  (check_bound-Ends (λ b. at_most b v) (k "exclusiveMaximum") path not_below
                    (λ b. at_most-Ends b v))
                  (λ _. tt))))

pub check_number-Ends :
    (v : Json) (schema : Fields) (path : String) → Ends (check_number v schema path)
unfolding check_number
check_number-Ends (num n) schema path = bounds-Ends (num n) schema path
check_number-Ends (neg n) schema path = bounds-Ends (neg n) schema path
check_number-Ends _ schema path = tt
