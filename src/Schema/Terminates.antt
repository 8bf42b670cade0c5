-- ===== src/Schema/Terminates.antt =====
-- On a schema without references, as many nested calls as the schema and the instance are large are
-- enough.
use mathlib.Core.Bool.{and-eq-true_iff}
use llm_errata.Prelude.{
  ℕ, zero, suc, ◌+◌, ◌<◌, ◌≤◌, ◌≡◌, ◌≢◌, refl, sym, subst, Bool, true, false, not, ◌&&◌, ◌||◌, List,
  [], ◌∷◌, ◌++◌, String, Option, some, if◌then◌else◌, ◌==◌, arith, concat, every, contains,
}
use llm_errata.Errors.{Result, ok, raise, recursion_error, schema_error, ◌>>=◌, require}
use llm_errata.Json.{Json, bool, obj, Fields, field, end}
use llm_errata.Schema.{validate, check_keywords, check_rest, or_root, supported}
use llm_errata.Schema.Equal.{keyword, names}
use llm_errata.Schema.Checks.{
  Fault, Call, Search, wrong_type, check_ref, matches_types, check_enum, check_const, check_string,
  check_number, check_array, check_all_of, check_any_of, check_one_of, check_not, searched,
}
use llm_errata.Schema.Objects.{
  object_of, check_required, Matched, check_property, check_patterns, check_additional, check_name,
  check_field, check_fields, check_object,
}
use llm_errata.Schema.Ends.{
  Ends, Ends-bind, Ends-bind_eq, weight, weight_of_fields, no_ref, no_ref_fields, Small,
  SmallFields, keyword-Small, keyword-no_ref, matches_types-Ends, searched-Ends, check_string-Ends,
  check_number-Ends,
}
use llm_errata.Schema.Ends.Equality.{check_enum-Ends, check_const-Ends}
use llm_errata.Schema.Ends.Keywords.{
  check_required-Ends, object_of-Ends, object_of-Small, require-Ends, combined-Ends, check_not-Ends,
  check_array-Ends, check_property-Ends, check_additional-Ends, check_name-Ends,
}

module _ (call : Call) (n m : ℕ)
    (ends : (v s : Json) (path : String) → weight v ≤ m → Small n s → Ends (call v s path)) where
  module _ (search_ : Search) where
    found_step :
        (value s : Json) (at : String) (more : Result Matched) (found : Bool)
        → weight value ≤ m
        → Small n s
        → Ends more
        → Ends (
            if found
            then call value s at >>= (λ here. more >>= λ m. ok (here ++ m.0, true))
            else more)
    found_step value s at more true g h k =
        Ends-bind (call value s at) _ (ends value s at g h) (λ _. Ends-bind more _ k (λ _. tt))
    found_step value s at more false g h k = k

    check_patterns-Ends :
        (name : String) (value : Json) (patterns : Fields) (at : String)
        → weight value ≤ m
        → SmallFields n patterns
        → Ends (check_patterns search_ call name value patterns at)
    unfolding check_patterns no_ref weight
    check_patterns-Ends name value end at g h = tt
    check_patterns-Ends name value (field pattern s rest) at g h =
        let (_, both) =
          (and-eq-true_iff (not (pattern == "$ref")) (no_ref s && no_ref_fields rest)).0 h.0 in
        let (here, there) = (and-eq-true_iff (no_ref s) (no_ref_fields rest)).0 both in
        Ends-bind (searched search_ pattern name) _ (searched-Ends search_ pattern name) (λ found.
          found_step value s at (check_patterns search_ call name value rest at) found g
            (here, omega (arith, h.1))
            (check_patterns-Ends name value rest at g (there, omega (arith, h.1))))

    module _ (schema properties patterns : Fields) (path : String) (s : SmallFields n schema)
        (p : SmallFields n properties) (q : SmallFields n patterns) where
      check_field-Ends :
          (name : String) (value : Json)
          → weight value ≤ m
          → Ends (check_field search_ call schema properties patterns path name value)
      unfolding check_field
      check_field-Ends name value g =
          let at = concat (path ∷ "." ∷ name ∷ []) in
          Ends-bind (check_property call value (keyword properties name) at) _
            (check_property-Ends call n m ends value (keyword properties name) at g
              (keyword-Small n properties name p))
            (λ a.
              Ends-bind (check_patterns search_ call name value patterns at) _
                (check_patterns-Ends name value patterns at g q)
                (λ b.
                  Ends-bind
                    (check_additional call name value (a.1 || b.1)
                      (keyword schema "additionalProperties") path at)
                    _
                    (check_additional-Ends call n m ends name value (a.1 || b.1)
                      (keyword schema "additionalProperties") path at g
                      (keyword-Small n schema "additionalProperties" s))
                    (λ _.
                      Ends-bind (check_name call name (keyword schema "propertyNames") at) _
                        (check_name-Ends call n m ends name (keyword schema "propertyNames") at
                          (keyword-Small n schema "propertyNames" s))
                        (λ _. tt))))

      check_fields-Ends :
          (fs : Fields)
          → weight_of_fields fs ≤ m
          → Ends (check_fields search_ call schema properties patterns path fs)
      unfolding check_fields weight
      check_fields-Ends end g = tt
      check_fields-Ends (field name value rest) g =
          Ends-bind (check_field search_ call schema properties patterns path name value) _
            (check_field-Ends name value (omega (arith, g)))
            (λ _.
              Ends-bind (check_fields search_ call schema properties patterns path rest) _
                (check_fields-Ends rest (omega (arith, g))) (λ _. tt))

    check_object-Ends :
        (v : Json) (schema : Fields) (path : String)
        → weight v ≤ m
        → SmallFields n schema
        → Ends (check_object search_ call v schema path)
    unfolding check_object weight
    check_object-Ends (obj end) schema path g s =
        check_required-Ends end (keyword schema "required") path
    check_object-Ends (obj fs) schema path g s =
        let k = keyword schema in
        let positive : 0 < n = omega (arith, s.1) in
        Ends-bind_eq (object_of (k "properties")) _ (object_of-Ends (k "properties"))
          (λ properties e.
            Ends-bind (check_required fs (k "required") path) _
              (check_required-Ends fs (k "required") path)
              (λ _.
                Ends-bind_eq (object_of (k "patternProperties")) _
                  (object_of-Ends (k "patternProperties"))
                  (λ patterns e'.
                    Ends-bind (check_fields search_ call schema properties patterns path fs) _
                      (check_fields-Ends schema properties patterns path s
                        (object_of-Small n (k "properties") properties positive
                          (keyword-Small n schema "properties" s) e)
                        (object_of-Small n (k "patternProperties") patterns positive
                          (keyword-Small n schema "patternProperties" s) e')
                        fs (omega (arith, g)))
                      (λ _. tt))))
    check_object-Ends _ schema path g s = tt

    check_rest-Ends :
        (fuel : ℕ) (v : Json) (schema : Fields) (path : String)
        → weight v ≤ m
        → m < fuel
        → SmallFields n schema
        → Ends (check_rest search_ fuel call v schema path)
    unfolding check_rest check_all_of check_any_of check_one_of
    check_rest-Ends fuel v schema path g l s =
        let k = keyword schema in
        let small = λ (name : String). keyword-Small n schema name s in
        Ends-bind (check_enum fuel v (k "enum") path) _
          (check_enum-Ends fuel v (k "enum") path (omega (arith, g, l)))
          (λ _.
            Ends-bind (check_const fuel v (k "const") path) _
              (check_const-Ends fuel v (k "const") path (omega (arith, g, l)))
              (λ _.
                Ends-bind (check_string search_ v schema path) _
                  (check_string-Ends search_ v schema path)
                  (λ _.
                    Ends-bind (check_number v schema path) _ (check_number-Ends v schema path) (λ _.
                      Ends-bind (check_array fuel call v schema path) _
                        (check_array-Ends call n m ends fuel v schema path g l (small "items"))
                        (λ _.
                          Ends-bind (check_object search_ call v schema path) _
                            (check_object-Ends v schema path g s)
                            (λ _.
                              Ends-bind (check_all_of call v (k "allOf") path) _
                                (combined-Ends call n m ends _ v (k "allOf") path g (small "allOf"))
                                (λ _.
                                  Ends-bind (check_any_of call v (k "anyOf") path) _
                                    (combined-Ends call n m ends _ v (k "anyOf") path g
                                      (small "anyOf"))
                                    (λ _.
                                      Ends-bind (check_one_of call v (k "oneOf") path) _
                                        (combined-Ends call n m ends _ v (k "oneOf") path g
                                          (small "oneOf"))
                                        (λ _.
                                          Ends-bind (check_not call v (k "not") path) _
                                            (check_not-Ends call n m ends v (k "not") path g
                                              (small "not"))
                                            (λ _. tt))))))))))

    typed_step :
        (fuel : ℕ) (v : Json) (schema : Fields) (path : String) (referred : List Fault)
        (typed : Bool)
        → weight v ≤ m
        → m < fuel
        → SmallFields n schema
        → Ends (
            if typed
            then check_rest search_ fuel call v schema path >>= (λ rest. ok (referred ++ rest))
            else ok (referred ++ (path, wrong_type) ∷ []))
    typed_step fuel v schema path referred true g l s =
        Ends-bind (check_rest search_ fuel call v schema path) _
          (check_rest-Ends fuel v schema path g l s) (λ _. tt)
    typed_step fuel v schema path referred false g l s = tt

    check_keywords-Ends :
        (fuel : ℕ) (root : Fields) (v : Json) (schema : Fields) (path : String)
        → weight v ≤ m
        → m < fuel
        → SmallFields n schema
        → Ends (check_keywords search_ fuel call root v schema path)
    unfolding check_keywords check_ref
    check_keywords-Ends fuel root v schema path g l s =
        Ends-bind (require (every (contains supported) (names schema)) schema_error) _
          (require-Ends (every (contains supported) (names schema)))
          (λ _.
            Ends-bind (check_ref call root v (keyword schema "$ref") path) _
              (subst (λ o. Ends (check_ref call root v o path)) (sym (keyword-no_ref schema s.0))
                tt)
              (λ referred.
                Ends-bind (matches_types v (keyword schema "type")) _
                  (matches_types-Ends v (keyword schema "type"))
                  (λ typed. typed_step fuel v schema path referred typed g l s)))

validate-Ends :
    (search_ : Search) (fuel m : ℕ) (root : Option Fields) (v schema : Json) (path : String)
    → no_ref schema ≡ true
    → weight v ≤ m
    → weight schema + m < fuel
    → Ends (validate search_ fuel root v schema path)
unfolding validate weight no_ref
validate-Ends search_ zero m root v schema path free g s = absurd (omega (arith, s))
validate-Ends search_ (suc fuel) m root v (bool true) path free g s = tt
validate-Ends search_ (suc fuel) m root v (bool false) path free g s = tt
validate-Ends search_ (suc fuel) m root v (obj fs) path free g s =
    let base = or_root root fs in
    let n = suc (weight_of_fields fs) in
    check_keywords-Ends (validate search_ fuel (some base)) n m
      (λ w t p l h. validate-Ends search_ fuel m (some base) w t p h.0 l (omega (arith, h.1, s)))
      search_ fuel base v fs path g (omega (arith, s)) (free, omega arith)
validate-Ends search_ (suc fuel) m root v _ path free g s = refl

-- On a schema with no reference in it, the nesting of the calls of `validate` and of `_json_equal`
-- is bounded by the number of arrays and objects in the schema and in the instance together: with
-- more calls than that, `validate` returns or refuses the schema, and never runs into the limit of
-- the recursion.
pub validate-terminates :
    (search_ : Search) (fuel : ℕ) (root : Option Fields) (v schema : Json) (path : String)
    → no_ref schema ≡ true
    → weight schema + weight v < fuel
    → validate search_ fuel root v schema path ≢ raise recursion_error
validate-terminates search_ fuel root v schema path free enough h =
    let bad =
      subst Ends h
        (validate-Ends search_ fuel (weight v) root v schema path free (omega arith) enough) in
    cc
