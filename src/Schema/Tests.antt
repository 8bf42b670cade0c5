-- ===== src/Schema/Tests.antt =====
-- Runs of the validator, and its theorems at concrete schemas.
use llm_errata.Prelude.{
  ℕ, zero, suc, ◌+◌, ◌≡◌, ◌≢◌, refl, ◌↔◌, true, false, List, [], ◌∷◌, String, none, some, contains,
  every, concat, number_text, arith, if◌then◌else◌, ◌==◌,
}
use llm_errata.Errors.{ok, raise, schema_error, recursion_error}
use llm_errata.Json.{Json, null, bool, num, str, arr, obj, nil, cons, field, end, strings}
use llm_errata.Schema.{validate}
use llm_errata.Schema.Checks.{
  Fault, Search, not_listed, below_minimum, missing_property, additional_property, repeated,
}
use llm_errata.Schema.Valid.{Valid}
use llm_errata.Schema.Correct.{validate_iff}
use llm_errata.Schema.Ends.{no_ref, weight}
use llm_errata.Schema.Terminates.{validate-terminates}

-- A pattern is found in itself only, and "[" does not compile.
abbrev literal : Search
literal pattern text = if pattern == "[" then none else some (pattern == text)

abbrev texts : List String → Json
texts ss = arr (strings ss)

-- An event with a sequence from 1, an operation out of three, and two facts that differ.
abbrev event_schema : Json
event_schema = obj (
    field "type" (str "object") (
      field "required" (texts ("sequence" ∷ "operation" ∷ [])) (
        field "additionalProperties" (bool false) (
          field "properties"
            (obj (
              field "sequence" (obj (field "type" (str "integer") (field "minimum" (num 1) end))) (
                field "operation" (obj (field "enum" (texts ("correct" ∷ "erase" ∷ [])) end)) (
                  field "facts"
                    (obj (
                      field "items" (obj (field "type" (str "string") end))
                        (field "uniqueItems" (bool true) end)))
                    end))))
            end))))

abbrev event : Json
event = obj (
    field "sequence" (num 2)
      (field "operation" (str "erase") (field "facts" (texts ("a" ∷ "b" ∷ [])) end)))

abbrev bad_event : Json
bad_event =
    obj (
      field "sequence" (num 0)
        (field "note" (str "x") (field "facts" (texts ("a" ∷ "a" ∷ [])) end)))

accepts_event : validate literal 20 none event event_schema "$" ≡ ok []
unfolding validate strings contains every concat number_text
accepts_event = refl

reports_each :
    validate literal 20 none bad_event event_schema "$"
    ≡ ok (
        ("$", missing_property "operation")
        ∷ ("$.sequence", below_minimum)
        ∷ ("$", additional_property "note")
        ∷ ("$.facts", repeated)
        ∷ [])
unfolding validate strings contains every concat number_text
reports_each = refl

-- An unknown keyword is refused, and so is a pattern that does not compile.
refuses_keyword :
    validate literal 20 none event (obj (field "format" (str "date") end)) "$" ≡ raise schema_error
unfolding validate strings contains every
refuses_keyword = refl

refuses_pattern :
    validate literal 20 none (str "a") (obj (field "pattern" (str "[") end)) "$"
    ≡ raise schema_error
unfolding validate strings contains every
refuses_pattern = refl

-- A definition that refers to itself has no end.
abbrev loop_schema : Json
loop_schema = obj (
    field "$ref" (str "#/$defs/a")
      (field "$defs" (obj (field "a" (obj (field "$ref" (str "#/$defs/a") end)) end)) end))

loops : validate literal 20 none null loop_schema "$" ≡ raise recursion_error
unfolding validate strings contains every
loops = refl

-- A reference and its siblings both count.
sibling :
    validate literal 20 none
      (num 0)
      (obj (
        field "$ref" (str "#/$defs/a~1b") (
          field "minimum"
            (num 1)
            (field "$defs" (obj (field "a/b" (obj (field "type" (str "integer") end)) end)) end))))
      "$"
    ≡ ok (("$", below_minimum) ∷ [])
unfolding validate strings contains every
sibling = refl

no_boolean_number :
    validate literal 20 none (num 0) (obj (field "enum" (arr (cons (bool false) nil)) end)) "$"
    ≡ ok (("$", not_listed) ∷ [])
unfolding validate strings contains every
no_boolean_number = refl

validate_iff_example : (◌≡◌ {A = List Fault} [] []) ↔ Valid literal 20 none event event_schema
validate_iff_example = validate_iff literal 20 none event event_schema "$" [] accepts_event

reference_free : no_ref event_schema ≡ true
unfolding no_ref strings
reference_free = refl

small_enough : weight event_schema + weight bad_event ≡ 10
unfolding weight strings
small_enough = refl

-- A list of equal, deeply nested items runs into the limit by `_json_equal` alone.
nested : ℕ → Json
nested zero = arr nil
nested (suc n) = arr (cons (nested n) nil)

deep_items :
    validate literal 20 none
      (arr (cons (nested 30) (cons (nested 30) nil)))
      (obj (field "uniqueItems" (bool true) end))
      "$"
    ≡ raise recursion_error
unfolding validate strings contains every nested
deep_items = refl

-- Without items, what "properties" holds is not looked at.
empty_instance :
    validate literal 20 none (obj end) (obj (field "properties" (num 1) end)) "$" ≡ ok []
unfolding validate strings contains every
empty_instance = refl

validate-terminates_example :
    validate literal 20 none bad_event event_schema "$" ≢ raise recursion_error
validate-terminates_example =
    validate-terminates literal 20 none bad_event event_schema "$" reference_free
      (omega (arith, small_enough))
