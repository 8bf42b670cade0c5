-- ===== src/Schema/Valid.antt =====
-- When a value is valid against a schema: a conjunction of assertions, in no order. `V` is validity
-- itself, at one level less of nesting. Equality, order, types and references are those of
-- Schema.Same. What a pattern finds, what counts as true, and how a reference is split into tokens
-- are read as the code reads them.
use llm_errata.Prelude.{
  ℕ, zero, suc, ◌≡◌, ◌⊎◌, true, false, List, String, Option, none, some, contains, length,
}
use llm_errata.Json.{
  Json, bool, num, neg, str, arr, obj, Items, nil, cons, Fields, field, end, codes,
}
use llm_errata.Schema.{or_root}
use llm_errata.Schema.Equal.{keyword, names, tokens, count}
use llm_errata.Schema.Checks.{Search, is_truthy}
use llm_errata.Schema.Same.{Both, EachItem, SomeItem, Same, Distinct, IsLess, IsTyped, PointsTo}

abbrev pub Validity : Type 1
Validity = Json → Json → Type 0

-- A predicate on the value of a keyword, where the schema has it.
abbrev pub IfPresent : Option Json → (Json → Type 0) → Type 0
IfPresent none P = Unit
IfPresent (some j) P = P j

abbrev pub OneItem : (Json → Type 0) → Items → Type 0
OneItem P nil = ⊥
OneItem P (cons x xs) = Both (P x) (EachItem (λ y. ¬ P y) xs) ⊎ Both (¬ P x) (OneItem P xs)

-- A keyword that holds a list of schemas.
abbrev pub OfItems : (Items → Type 0) → Json → Type 0
OfItems P (arr xs) = P xs
OfItems P _ = ⊥

abbrev pub OfText : (String → Type 0) → Json → Type 0
OfText P (str t) = P t
OfText P _ = ⊥

abbrev pub Listed : Json → Json → Type 0
Listed v options = OfItems (SomeItem (Same v)) options

-- The bounds of a size or of a number.
abbrev pub AtLeast : Json → Option Json → Type 0
AtLeast size bound = IfPresent bound (λ b. ¬ IsLess size b)

abbrev pub AtMost : Json → Option Json → Type 0
AtMost size bound = IfPresent bound (λ b. ¬ IsLess b size)

abbrev pub Above : Json → Option Json → Type 0
Above v bound = IfPresent bound (λ b. IsLess b v)

abbrev pub Below : Json → Option Json → Type 0
Below v bound = IfPresent bound (λ b. IsLess v b)

abbrev pub FitsText : Search → Json → Fields → Type 0
FitsText search (str s) schema =
    Both (IfPresent (keyword schema "pattern") (OfText (λ t. search t s ≡ some true))) (
      Both (AtLeast (num (length (codes s))) (keyword schema "minLength"))
        (AtMost (num (length (codes s))) (keyword schema "maxLength")))
FitsText search _ schema = Unit

abbrev pub InRange : Json → Fields → Type 0
InRange v schema = Both (AtLeast v (keyword schema "minimum")) (
    Both (AtMost v (keyword schema "maximum")) (
      Both (Above v (keyword schema "exclusiveMinimum"))
        (Below v (keyword schema "exclusiveMaximum"))))

abbrev pub FitsNumber : Json → Fields → Type 0
FitsNumber (num n) schema = InRange (num n) schema
FitsNumber (neg n) schema = InRange (neg n) schema
FitsNumber _ schema = Unit

abbrev pub FitsArray : Validity → Json → Fields → Type 0
FitsArray V (arr xs) schema =
    Both (IfPresent (keyword schema "items") (λ sub. EachItem (λ x. V x sub) xs)) (
      Both (AtLeast (num (count xs)) (keyword schema "minItems")) (
        Both (AtMost (num (count xs)) (keyword schema "maxItems"))
          (is_truthy (keyword schema "uniqueItems") ≡ true → Distinct xs)))
FitsArray V _ schema = Unit

-- Every pattern that is found in the name says what the value has to be.
abbrev pub Patterned : Search → Validity → String → Json → Fields → Type 0
Patterned search V name value end = Unit
Patterned search V name value (field pattern sub rest) =
    Both (search pattern name ≡ some true → V value sub) (Patterned search V name value rest)

-- No pattern is found in the name.
abbrev pub Unmatched : Search → String → Fields → Type 0
Unmatched search name end = Unit
Unmatched search name (field pattern sub rest) =
    Both (search pattern name ≡ some false) (Unmatched search name rest)

abbrev pub FitsField : Search → Validity → Fields → Fields → Fields → String → Json → Type 0
FitsField search V schema properties patterns name value =
    Both (IfPresent (keyword properties name) (λ sub. V value sub)) (
      Both (Patterned search V name value patterns) (
        Both
          (IfPresent (keyword schema "additionalProperties")
            (λ sub. keyword properties name ≡ none → Unmatched search name patterns → V value sub))
          (IfPresent (keyword schema "propertyNames") (λ sub. V (str name) sub))))

abbrev pub FitsFields : Search → Validity → Fields → Fields → Fields → Fields → Type 0
FitsFields search V schema properties patterns end = Unit
FitsFields search V schema properties patterns (field name value rest) =
    Both (FitsField search V schema properties patterns name value)
      (FitsFields search V schema properties patterns rest)

-- The object that a keyword holds, or none.
abbrev pub as_fields : Option Json → Fields
as_fields (some (obj fs)) = fs
as_fields _ = end

abbrev pub FitsObject : Search → Validity → Json → Fields → Type 0
FitsObject search V (obj fs) schema =
    Both
      (IfPresent (keyword schema "required")
        (OfItems (EachItem (OfText (λ name. contains (names fs) name ≡ true)))))
      (FitsFields search V schema (as_fields (keyword schema "properties"))
        (as_fields (keyword schema "patternProperties")) fs)
FitsObject search V _ schema = Unit

-- The tokens of the reference lead from the root to the schema.
abbrev pub Refers : Fields → String → Fields → Type 0
Refers root ref fs = (ts : List String) × (tokens ref ≡ some ts) × PointsTo (obj root) ts (obj fs)

abbrev pub Rest : Search → Validity → Json → Fields → Type 0
Rest search V v schema = Both (IfPresent (keyword schema "enum") (Listed v)) (
    Both (IfPresent (keyword schema "const") (Same v)) (
      Both (FitsText search v schema) (
        Both (FitsNumber v schema) (
          Both (FitsArray V v schema) (
            Both (FitsObject search V v schema) (
              Both (IfPresent (keyword schema "allOf") (OfItems (EachItem (V v)))) (
                Both (IfPresent (keyword schema "anyOf") (OfItems (SomeItem (V v)))) (
                  Both (IfPresent (keyword schema "oneOf") (OfItems (OneItem (V v))))
                    (IfPresent (keyword schema "not") (λ sub. ¬ V v sub))))))))))

abbrev pub Assertions : Search → Validity → Fields → Json → Fields → Type 0
Assertions search V root v schema =
    Both
      (IfPresent (keyword schema "$ref")
        (OfText (λ ref. (fs : Fields) × Refers root ref fs × V v (obj fs))))
      (Both (IsTyped v (keyword schema "type")) (Rest search V v schema))

-- Validity, with as many levels of nesting as `validate` has.
unfoldable pub Valid : Search → ℕ → Option Fields → Json → Json → Type 0
Valid search zero root v schema = ⊥
Valid search (suc fuel) root v (bool true) = Unit
Valid search (suc fuel) root v (obj schema) =
    let base = or_root root schema in
    Assertions search (Valid search fuel (some base)) base v schema
Valid search (suc fuel) root v _ = ⊥
