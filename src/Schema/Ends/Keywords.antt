-- ===== src/Schema/Ends/Keywords.antt =====
-- The checks of one keyword end, if the calls inside them do.
use mathlib.Core.Bool.{and-eq-true_iff}
use llm_errata.Prelude.{
  ℕ, suc, ◌<◌, ◌≤◌, ◌≡◌, refl, subst, Bool, true, false, List, [], ◌∷◌, String, Option, none, some,
  arith, concat, number_text,
}
use llm_errata.Errors.{ok, schema_error, require, ok-injective}
use llm_errata.Json.{Json, bool, num, str, arr, obj, Items, nil, cons, Fields, end}
use llm_errata.Schema.Equal.{keyword, count}
use llm_errata.Schema.Ends.Equality.{check_unique-Ends}
use llm_errata.Schema.Checks.{
  Fault, Call, check_bound, less, check_items, check_each, check_array, check_unique, is_truthy,
  branches, combined, check_not, too_few, too_many,
}
use llm_errata.Schema.Objects.{
  object_of, missing_names, check_required, check_property, check_additional, check_name,
}
use llm_errata.Schema.Ends.{
  Ends, Ends-bind, weight, weight_of_items, no_ref, no_ref_items, Small, SmallFields, SmallItems,
  SmallOption, bound_below-Ends, bound_above-Ends,
}

pub missing_names-Ends :
    (fs : Fields) (required : Items) (path : String) → Ends (missing_names fs required path)
unfolding missing_names
missing_names-Ends fs nil path = tt
missing_names-Ends fs (cons (str name) rest) path =
    Ends-bind (missing_names fs rest path) _ (missing_names-Ends fs rest path) (λ _. tt)
missing_names-Ends fs (cons _ rest) path = refl

pub check_required-Ends :
    (fs : Fields) (o : Option Json) (path : String) → Ends (check_required fs o path)
unfolding check_required
check_required-Ends fs none path = tt
check_required-Ends fs (some (arr required)) path = missing_names-Ends fs required path
check_required-Ends fs (some _) path = refl

pub object_of-Ends : (o : Option Json) → Ends (object_of o)
object_of-Ends none = tt
object_of-Ends (some (obj fs)) = tt
object_of-Ends (some _) = refl

pub object_of-Small :
    (n : ℕ) (o : Option Json) (fs : Fields)
    → 0 < n
    → SmallOption n o
    → object_of o ≡ ok fs
    → SmallFields n fs
unfolding weight no_ref
object_of-Small n none fs p h e =
    let same : end ≡ fs = ok-injective e in subst (SmallFields n) same (refl, p)
object_of-Small n (some (obj gs)) fs p h e =
    let same : gs ≡ fs = ok-injective e in subst (SmallFields n) same (h.0, omega (arith, h.1))
object_of-Small n (some _) fs p h e = cc

pub require-Ends : (b : Bool) → Ends (require b schema_error)
require-Ends true = tt
require-Ends false = refl

module _ (call : Call) (n m : ℕ)
    (ends : (v s : Json) (path : String) → weight v ≤ m → Small n s → Ends (call v s path)) where
  pub branches-Ends :
      (v : Json) (subs : Items) (path : String)
      → weight v ≤ m
      → SmallItems n subs
      → Ends (branches call v subs path)
  unfolding branches no_ref weight
  branches-Ends v nil path g h = tt
  branches-Ends v (cons s ss) path g h =
      let (here, there) = (and-eq-true_iff (no_ref s) (no_ref_items ss)).0 h.0 in
      Ends-bind (call v s path) _ (ends v s path g (here, omega (arith, h.1))) (λ _.
        Ends-bind (branches call v ss path) _
          (branches-Ends v ss path g (there, omega (arith, h.1))) (λ _. tt))

  pub combined-Ends :
      (judge : List (List Fault) → List Fault) (v : Json) (o : Option Json) (path : String)
      → weight v ≤ m
      → SmallOption n o
      → Ends (combined call judge v o path)
  unfolding combined no_ref weight
  combined-Ends judge v none path g h = tt
  combined-Ends judge v (some (arr ss)) path g h =
      Ends-bind (branches call v ss path) _ (branches-Ends v ss path g (h.0, omega (arith, h.1)))
        (λ _. tt)
  combined-Ends judge v (some _) path g h = refl

  pub check_not-Ends :
      (v : Json) (o : Option Json) (path : String)
      → weight v ≤ m
      → SmallOption n o
      → Ends (check_not call v o path)
  unfolding check_not
  check_not-Ends v none path g h = tt
  check_not-Ends v (some s) path g h = Ends-bind (call v s path) _ (ends v s path g h) (λ _. tt)

  pub check_items-Ends :
      (xs : Items) (s : Json) (path : String) (index : ℕ)
      → weight_of_items xs ≤ m
      → Small n s
      → Ends (check_items call xs s path index)
  unfolding check_items weight
  check_items-Ends nil s path index g h = tt
  check_items-Ends (cons x xs) s path index g h =
      Ends-bind (call x s (concat (path ∷ "[" ∷ number_text index ∷ "]" ∷ []))) _
        (ends x s (concat (path ∷ "[" ∷ number_text index ∷ "]" ∷ [])) (omega (arith, g)) h)
        (λ _.
          Ends-bind (check_items call xs s path (suc index)) _
            (check_items-Ends xs s path (suc index) (omega (arith, g)) h) (λ _. tt))

  pub check_each-Ends :
      (xs : Items) (o : Option Json) (path : String)
      → weight_of_items xs ≤ m
      → SmallOption n o
      → Ends (check_each call xs o path)
  unfolding check_each
  check_each-Ends xs none path g h = tt
  check_each-Ends xs (some s) path g h = check_items-Ends xs s path 0 g h

  pub check_array-Ends :
      (fuel : ℕ) (v : Json) (schema : Fields) (path : String)
      → weight v ≤ m
      → m < fuel
      → SmallOption n (keyword schema "items")
      → Ends (check_array fuel call v schema path)
  unfolding check_array weight
  check_array-Ends fuel (arr xs) schema path g k h =
      Ends-bind (check_each call xs (keyword schema "items") path) _
        (check_each-Ends xs (keyword schema "items") path (omega (arith, g)) h)
        (λ _.
          Ends-bind
            (check_bound (λ b. less (num (count xs)) b) (keyword schema "minItems") path too_few) _
            (bound_below-Ends (num (count xs)) (keyword schema "minItems") path too_few)
            (λ _.
              Ends-bind
                (check_bound (λ b. less b (num (count xs))) (keyword schema "maxItems") path
                  too_many)
                _ (bound_above-Ends (num (count xs)) (keyword schema "maxItems") path too_many)
                (λ _.
                  Ends-bind (check_unique fuel xs (is_truthy (keyword schema "uniqueItems")) path) _
                    (check_unique-Ends fuel xs (is_truthy (keyword schema "uniqueItems")) path
                      (omega (arith, g, k)))
                    (λ _. tt))))
  check_array-Ends fuel _ schema path g k h = tt

  pub check_property-Ends :
      (value : Json) (o : Option Json) (at : String)
      → weight value ≤ m
      → SmallOption n o
      → Ends (check_property call value o at)
  unfolding check_property
  check_property-Ends value none at g h = tt
  check_property-Ends value (some s) at g h =
      Ends-bind (call value s at) _ (ends value s at g h) (λ _. tt)

  pub check_additional-Ends :
      (name : String) (value : Json) (matched : Bool) (o : Option Json) (path at : String)
      → weight value ≤ m
      → SmallOption n o
      → Ends (check_additional call name value matched o path at)
  unfolding check_additional
  check_additional-Ends name value matched none path at g h = tt
  check_additional-Ends name value true (some s) path at g h = tt
  check_additional-Ends name value false (some (bool false)) path at g h = tt
  check_additional-Ends name value false (some s) path at g h = ends value s at g h

  pub check_name-Ends :
      (name : String) (o : Option Json) (at : String)
      → SmallOption n o
      → Ends (check_name call name o at)
  unfolding check_name weight
  check_name-Ends name none at h = tt
  check_name-Ends name (some s) at h = ends (str name) s at (omega arith) h
