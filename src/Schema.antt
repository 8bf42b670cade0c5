-- ===== src/Schema.antt =====
-- prototype/schema.py: the validator for JSON Schema. An error is its path and the keyword that it
-- is about. Numbers are whole, and `re.search` is the parameter `search`, which gives `none` where
-- a pattern does not compile.
pub mod Equal
pub mod Checks
pub mod Objects
pub mod Same
pub mod Valid
pub mod Sound
pub mod Correct
pub mod Ends
pub mod Terminates
pub mod Tests
use llm_errata.Prelude.{
  ℕ, zero, suc, Bool, true, false, not, ◌&&◌, List, [], ◌∷◌, ◌++◌, String, Option, none, some,
  contains, every, if◌then◌else◌, ◌==◌,
}
use llm_errata.Errors.{Result, ok, raise, ◌>>=◌, ◌>>◌, require, schema_error, recursion_error}
use llm_errata.Json.{
  Json, null, bool, num, neg, str, arr, obj, Items, nil, cons, Fields, field, end,
}
use llm_errata.Schema.Equal.{keyword, names}
use llm_errata.Schema.Checks.{
  Fault, Kind, false_schema, wrong_type, Call, Search, check_ref, matches_types, check_enum,
  check_const, check_string, check_number, check_array, check_all_of, check_any_of, check_one_of,
  check_not,
}
use llm_errata.Schema.Objects.{check_object}

-- SUPPORTED_KEYWORDS
abbrev pub supported : List String
supported =
    "$defs" ∷ "$id" ∷ "$ref" ∷ "$schema" ∷ "additionalProperties" ∷ "allOf" ∷ "anyOf" ∷ "const"
    ∷ "description" ∷ "enum" ∷ "examples" ∷ "exclusiveMaximum" ∷ "exclusiveMinimum" ∷ "items"
    ∷ "maxItems" ∷ "maxLength" ∷ "maximum" ∷ "minItems" ∷ "minLength" ∷ "minimum" ∷ "not" ∷ "oneOf"
    ∷ "pattern" ∷ "patternProperties" ∷ "properties" ∷ "propertyNames" ∷ "required" ∷ "title"
    ∷ "type" ∷ "uniqueItems" ∷ []

abbrev or_root : Option Fields → Fields → Fields
or_root none schema = schema
or_root (some root) schema = root

module _ (search : Search) where
  -- What follows the test of the type.
  unfoldable pub check_rest : ℕ → Call → Json → Fields → String → Result (List Fault)
  unfolding check_enum check_const check_string check_number check_array check_object check_all_of
      check_any_of check_one_of check_not
  check_rest fuel call instance_ schema path = do
    listed ← check_enum fuel instance_ (keyword schema "enum") path
    constant ← check_const fuel instance_ (keyword schema "const") path
    text ← check_string search instance_ schema path
    number ← check_number instance_ schema path
    array ← check_array fuel call instance_ schema path
    object ← check_object search call instance_ schema path
    all ← check_all_of call instance_ (keyword schema "allOf") path
    some_of_them ← check_any_of call instance_ (keyword schema "anyOf") path
    one ← check_one_of call instance_ (keyword schema "oneOf") path
    negated ← check_not call instance_ (keyword schema "not") path
    ok (
        listed
        ++ (constant
            ++ (text
                ++ (number ++ (array ++ (object ++ (all ++ (some_of_them ++ (one ++ negated)))))))))

  -- `validate` on a schema that is an object.
  unfoldable pub check_keywords : ℕ → Call → Fields → Json → Fields → String → Result (List Fault)
  unfolding check_rest check_ref matches_types names
  check_keywords fuel call root instance_ schema path = do
    require (every (contains supported) (names schema)) schema_error
    referred ← check_ref call root instance_ (keyword schema "$ref") path
    typed ← matches_types instance_ (keyword schema "type")
    if typed
        then (check_rest fuel call instance_ schema path >>= λ rest. ok (referred ++ rest))
        else ok (referred ++ (path, wrong_type) ∷ [])

  -- validate(instance, schema, root=root, path=path), with the number of nested calls of it and of
  -- `_json_equal` that are left before RecursionError.
  unfoldable pub validate : ℕ → Option Fields → Json → Json → String → Result (List Fault)
  unfolding check_keywords
  validate zero root instance_ schema path = raise recursion_error
  validate (suc fuel) root instance_ (bool true) path = ok []
  validate (suc fuel) root instance_ (bool false) path = ok ((path, false_schema) ∷ [])
  validate (suc fuel) root instance_ (obj schema) path =
      let base = or_root root schema in
      check_keywords fuel (validate fuel (some base)) base instance_ schema path
  validate (suc fuel) root instance_ _ path = raise schema_error
