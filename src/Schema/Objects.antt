-- ===== src/Schema/Objects.antt =====
-- `_validate_object`: the properties of an object.
use llm_errata.Prelude.{
  Bool, true, false, not, ◌||◌, List, [], ◌∷◌, ◌++◌, String, Option, none, some, contains, concat,
  if◌then◌else◌,
}
use llm_errata.Errors.{Result, ok, raise, ◌>>=◌, malformed_schema}
use llm_errata.Json.{Json, bool, str, arr, obj, Items, nil, cons, Fields, field, end}
use llm_errata.Schema.Equal.{keyword, names}
use llm_errata.Schema.Checks.{
  Fault, Call, Search, searched, fault_if, missing_property, additional_property,
}

-- schema.get(name, {}), where it is an object
abbrev pub object_of : Option Json → Result Fields
object_of none = ok end
object_of (some (obj fs)) = ok fs
object_of (some _) = raise malformed_schema

unfoldable pub missing_names : Fields → Items → String → Result (List Fault)
unfolding names
missing_names fs nil path = ok []
missing_names fs (cons (str name) rest) path = missing_names fs rest path >>= λ more.
    ok (fault_if (not (contains (names fs) name)) path (missing_property name) ++ more)
missing_names fs (cons _ rest) path = raise malformed_schema

-- for name in schema.get("required", [])
unfoldable pub check_required : Fields → Option Json → String → Result (List Fault)
unfolding missing_names
check_required fs none path = ok []
check_required fs (some (arr required)) path = missing_names fs required path
check_required fs (some _) path = raise malformed_schema

-- The errors of one value, and whether a property or a pattern matched its name.
abbrev pub Matched : Type 0
Matched = List Fault × Bool

unfoldable pub check_property : Call → Json → Option Json → String → Result Matched
check_property call value none where_ = ok ([], false)
check_property call value (some sub) where_ = call value sub where_ >>= λ e. ok (e, true)

unfoldable pub check_patterns : Search → Call → String → Json → Fields → String → Result Matched
unfolding searched
check_patterns search call name value end where_ = ok ([], false)
check_patterns search call name value (field pattern sub rest) where_ =
    let more = check_patterns search call name value rest where_ in
    searched search pattern name >>= λ found.
    if found then (call value sub where_ >>= λ here. more >>= λ m. ok (here ++ m.0, true)) else more

unfoldable pub check_additional :
    Call → String → Json → Bool → Option Json → String → String → Result (List Fault)
check_additional call name value matched none path where_ = ok []
check_additional call name value true (some allowed) path where_ = ok []
check_additional call name value false (some (bool false)) path where_ =
    ok ((path, additional_property name) ∷ [])
check_additional call name value false (some allowed) path where_ = call value allowed where_

unfoldable pub check_name : Call → String → Option Json → String → Result (List Fault)
check_name call name none where_ = ok []
check_name call name (some sub) where_ = call (str name) sub where_

-- One round of the loop over `instance.items()`.
unfoldable pub check_field :
    Search → Call → Fields → Fields → Fields → String → String → Json → Result (List Fault)
unfolding check_property check_patterns check_additional check_name
check_field search call schema properties patterns path name value = do
  let where_ = concat (path ∷ "." ∷ name ∷ [])
  property ← check_property call value (keyword properties name) where_
  pattern ← check_patterns search call name value patterns where_
  additional ←
      check_additional call name value (property.1 || pattern.1)
        (keyword schema "additionalProperties") path where_
  named ← check_name call name (keyword schema "propertyNames") where_
  ok (property.0 ++ (pattern.0 ++ (additional ++ named)))

unfoldable pub check_fields :
    Search → Call → Fields → Fields → Fields → String → Fields → Result (List Fault)
unfolding check_field
check_fields search call schema properties patterns path end = ok []
check_fields search call schema properties patterns path (field name value rest) =
    let more = check_fields search call schema properties patterns path rest in
    check_field search call schema properties patterns path name value >>= λ here.
    more >>= λ there. ok (here ++ there)

-- _validate_object, where the instance is an object
unfoldable pub check_object : Search → Call → Json → Fields → String → Result (List Fault)
unfolding check_required check_fields
check_object search call (obj end) schema path = check_required end (keyword schema "required") path
check_object search call (obj fs) schema path = do
  properties ← object_of (keyword schema "properties")
  required ← check_required fs (keyword schema "required") path
  patterns ← object_of (keyword schema "patternProperties")
  each ← check_fields search call schema properties patterns path fs
  ok (required ++ each)
check_object search call _ schema path = ok []
