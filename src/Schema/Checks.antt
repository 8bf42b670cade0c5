-- ===== src/Schema/Checks.antt =====
-- The keywords of `validate`, one function for each group. `call` is `validate` itself, with its
-- root: on an instance, a schema and a path.
use llm_errata.Prelude.{
  ℕ, suc, Bool, true, false, not, ◌||◌, List, [], ◌∷◌, ◌++◌, String, Option, none, some, ltb,
  nat_eq, is_empty, length, concat, number_text, if◌then◌else◌, ◌==◌,
}
use llm_errata.Errors.{Result, ok, raise, ◌>>=◌, schema_error, malformed_schema}
use llm_errata.Json.{
  Json, null, bool, num, neg, str, arr, obj, Items, nil, cons, Fields, field, end, codes,
}
use llm_errata.Schema.Equal.{keyword, equal, equals_some, count, duplicates_after, resolve}

-- The message of an error, without the values that it quotes.
pub data Kind : Type 0 where
  false_schema wrong_type not_listed not_constant no_match too_short too_long : Kind
  below_minimum above_maximum not_above not_below too_few too_many repeated : Kind
  none_matched must_not_match : Kind
  missing_property additional_property : String → Kind
  matched_branches : ℕ → Kind

abbrev pub Fault : Type 0
Fault = String × Kind

abbrev pub Call : Type 0
Call = Json → Json → String → Result (List Fault)

-- `re.search` on a pattern and a text: none for a pattern that does not compile.
abbrev pub Search : Type 0
Search = String → String → Option Bool

abbrev pub fault_if : Bool → String → Kind → List Fault
fault_if true path kind = (path, kind) ∷ []
fault_if false path kind = []

-- "$ref" in schema
unfoldable pub check_ref : Call → Fields → Json → Option Json → String → Result (List Fault)
unfolding resolve
check_ref call root instance_ none path = ok []
check_ref call root instance_ (some (str ref)) path =
    resolve ref root >>= λ schema. call instance_ (obj schema) path
check_ref call root instance_ (some _) path = raise malformed_schema

abbrev pub is_object : Json → Bool
is_object (obj fs) = true
is_object _ = false

abbrev pub is_array : Json → Bool
is_array (arr xs) = true
is_array _ = false

abbrev pub is_string : Json → Bool
is_string (str s) = true
is_string _ = false

abbrev pub is_integer : Json → Bool
is_integer (num n) = true
is_integer (neg n) = true
is_integer _ = false

abbrev pub is_bool : Json → Bool
is_bool (bool b) = true
is_bool _ = false

abbrev pub is_null : Json → Bool
is_null null = true
is_null _ = false

-- _matches_type, for a text
unfoldable pub matches_name : Json → String → Result Bool
matches_name v name =
    if name == "object"
    then ok (is_object v)
    else if name == "array"
    then ok (is_array v)
    else if name == "string"
    then ok (is_string v)
    else if (name == "number") || (name == "integer")
    then ok (is_integer v)
    else if name == "boolean"
    then ok (is_bool v)
    else if name == "null"
    then ok (is_null v)
    else raise schema_error

-- A list or an object is not hashable, and Python cannot look it up.
abbrev pub matches_type : Json → Json → Result Bool
matches_type v (str name) = matches_name v name
matches_type v (arr xs) = raise malformed_schema
matches_type v (obj fs) = raise malformed_schema
matches_type v _ = raise schema_error

unfoldable pub matches_any : Json → Items → Result Bool
unfolding matches_name
matches_any v nil = ok false
matches_any v (cons t ts) =
    let rest = matches_any v ts in matches_type v t >>= λ b. if b then ok true else rest

-- "type" in schema
unfoldable pub matches_types : Json → Option Json → Result Bool
unfolding matches_any matches_name
matches_types v none = ok true
matches_types v (some (arr ts)) = matches_any v ts
matches_types v (some t) = matches_type v t

-- "enum" in schema
unfoldable pub check_enum : ℕ → Json → Option Json → String → Result (List Fault)
unfolding equals_some
check_enum fuel v none path = ok []
check_enum fuel v (some (arr options)) path =
    equals_some fuel v options >>= λ b. ok (fault_if (not b) path not_listed)
check_enum fuel v (some _) path = raise malformed_schema

-- "const" in schema
unfoldable pub check_const : ℕ → Json → Option Json → String → Result (List Fault)
unfolding equal
check_const fuel v none path = ok []
check_const fuel v (some c) path = equal fuel v c >>= λ b. ok (fault_if (not b) path not_constant)

-- _search
unfoldable pub searched : Search → String → String → Result Bool
searched search pattern value = elim (search pattern value) [
  | none ↦ raise schema_error
  | some found ↦ ok found
]

unfoldable pub check_pattern : Search → String → Option Json → String → Result (List Fault)
unfolding searched
check_pattern search s none path = ok []
check_pattern search s (some (str pattern)) path =
    searched search pattern s >>= λ found. ok (fault_if (not found) path no_match)
check_pattern search s (some _) path = raise malformed_schema

-- left < right, for the numbers of a schema
unfoldable pub less : Json → Json → Result Bool
less (num m) (num n) = ok (ltb m n)
less (num m) (neg n) = ok false
less (neg m) (num n) = ok true
less (neg m) (neg n) = ok (ltb n m)
less _ _ = raise malformed_schema

-- A bound that is absent, or is tested against a value.
unfoldable pub check_bound :
    (Json → Result Bool) → Option Json → String → Kind → Result (List Fault)
check_bound broken none path kind = ok []
check_bound broken (some bound) path kind = broken bound >>= λ b. ok (fault_if b path kind)

-- isinstance(instance, str)
unfoldable pub check_string : Search → Json → Fields → String → Result (List Fault)
unfolding check_pattern check_bound less
check_string search (str s) schema path = do
  let size = num (length (codes s))
  pattern ← check_pattern search s (keyword schema "pattern") path
  short ← check_bound (λ b. less size b) (keyword schema "minLength") path too_short
  long ← check_bound (λ b. less b size) (keyword schema "maxLength") path too_long
  ok (pattern ++ (short ++ long))
check_string search _ schema path = ok []

unfoldable pub at_most : Json → Json → Result Bool
unfolding less
at_most a b = less b a >>= λ below. ok (not below)

unfoldable pub number_bounds : Json → Fields → String → Result (List Fault)
unfolding check_bound less at_most
number_bounds v schema path = do
  low ← check_bound (λ b. less v b) (keyword schema "minimum") path below_minimum
  high ← check_bound (λ b. less b v) (keyword schema "maximum") path above_maximum
  above ← check_bound (λ b. at_most v b) (keyword schema "exclusiveMinimum") path not_above
  below ← check_bound (λ b. at_most b v) (keyword schema "exclusiveMaximum") path not_below
  ok (low ++ (high ++ (above ++ below)))

-- isinstance(instance, int) and not a bool
unfoldable pub check_number : Json → Fields → String → Result (List Fault)
unfolding number_bounds
check_number v schema path = if is_integer v then number_bounds v schema path else ok []

-- The calls on the items, each at its index.
unfoldable pub check_items : Call → Items → Json → String → ℕ → Result (List Fault)
check_items call nil sub path index = ok []
check_items call (cons x xs) sub path index =
    let rest = check_items call xs sub path (suc index) in
    call x sub (concat (path ∷ "[" ∷ number_text index ∷ "]" ∷ [])) >>= λ here.
    rest >>= λ there. ok (here ++ there)

unfoldable pub check_each : Call → Items → Option Json → String → Result (List Fault)
unfolding check_items
check_each call xs none path = ok []
check_each call xs (some sub) path = check_items call xs sub path 0

-- bool(value)
unfoldable pub is_truthy : Option Json → Bool
is_truthy none = false
is_truthy (some null) = false
is_truthy (some (bool b)) = b
is_truthy (some (num n)) = not (nat_eq n 0)
is_truthy (some (neg n)) = true
is_truthy (some (str s)) = not (s == "")
is_truthy (some (arr nil)) = false
is_truthy (some (arr (cons x xs))) = true
is_truthy (some (obj end)) = false
is_truthy (some (obj (field k v fs))) = true

-- The items are compared only where they have to differ.
unfoldable pub check_unique : ℕ → Items → Bool → String → Result (List Fault)
unfolding duplicates_after
check_unique fuel xs false path = ok []
check_unique fuel xs true path =
    duplicates_after fuel nil xs >>= λ twice. ok (fault_if twice path repeated)

-- isinstance(instance, list)
unfoldable pub check_array : ℕ → Call → Json → Fields → String → Result (List Fault)
unfolding check_each check_bound less count is_truthy check_unique
check_array fuel call (arr xs) schema path = do
  let size = num (count xs)
  each ← check_each call xs (keyword schema "items") path
  few ← check_bound (λ b. less size b) (keyword schema "minItems") path too_few
  many ← check_bound (λ b. less b size) (keyword schema "maxItems") path too_many
  unique ← check_unique fuel xs (is_truthy (keyword schema "uniqueItems")) path
  ok (each ++ (few ++ (many ++ unique)))
check_array fuel call _ schema path = ok []

-- [validate(instance, sub, …) for sub in schema[keyword]]
unfoldable pub branches : Call → Json → Items → String → Result (List (List Fault))
branches call v nil path = ok []
branches call v (cons sub subs) path =
    let rest = branches call v subs path in
    call v sub path >>= λ here. rest >>= λ there. ok (here ∷ there)

-- sum(1 for r in results if not r)
unfoldable pub passed : List (List Fault) → ℕ
passed [] = 0
passed (r ∷ rs) = let rest = passed rs in if is_empty r then suc rest else rest

unfoldable pub joined : List (List Fault) → List Fault
joined [] = []
joined (r ∷ rs) = r ++ joined rs

-- The errors of a keyword that holds a list of schemas.
unfoldable pub combined :
    Call → (List (List Fault) → List Fault) → Json → Option Json → String → Result (List Fault)
unfolding branches
combined call judge v none path = ok []
combined call judge v (some (arr subs)) path = branches call v subs path >>= λ rs. ok (judge rs)
combined call judge v (some _) path = raise malformed_schema

unfoldable pub check_all_of : Call → Json → Option Json → String → Result (List Fault)
unfolding combined passed joined
check_all_of call v subs path =
    combined call (λ rs. if nat_eq (passed rs) (length rs) then [] else joined rs) v subs path

unfoldable pub check_any_of : Call → Json → Option Json → String → Result (List Fault)
unfolding combined passed
check_any_of call v subs path =
    combined call (λ rs. fault_if (nat_eq (passed rs) 0) path none_matched) v subs path

unfoldable pub check_one_of : Call → Json → Option Json → String → Result (List Fault)
unfolding combined passed
check_one_of call v subs path =
    combined call (λ rs. fault_if (not (nat_eq (passed rs) 1)) path (matched_branches (passed rs)))
      v subs path

-- "not" in schema
unfoldable pub check_not : Call → Json → Option Json → String → Result (List Fault)
check_not call v none path = ok []
check_not call v (some sub) path =
    call v sub path >>= λ errors. ok (fault_if (is_empty errors) path must_not_match)
