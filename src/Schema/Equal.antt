-- ===== src/Schema/Equal.antt =====
-- `_json_equal`, `_has_duplicates` and `_resolve`: equality of JSON values, and references.
use Prim.Native.Char.{Char, code}
use llm_errata.Prelude.{
  ℕ, zero, suc, Bool, true, false, not, ◌&&◌, List, [], ◌∷◌, String, Option, none, some, subset,
  nat_eq, if◌then◌else◌, ◌==◌, map,
}
use llm_errata.Errors.{Result, ok, raise, ◌>>=◌, schema_error, recursion_error}
use llm_errata.Json.{
  Json, null, bool, num, neg, str, arr, obj, Items, nil, cons, Fields, field, end,
}

-- schema.get(name)
unfoldable pub keyword : Fields → String → Option Json
keyword end name = none
keyword (field k v fs) name = if k == name then some v else keyword fs name

unfoldable pub names : Fields → List String
names end = []
names (field k v fs) = k ∷ names fs

abbrev same_bool : Bool → Bool → Bool
same_bool true b = b
same_bool false b = not b

unfoldable pub count : Items → ℕ
count nil = 0
count (cons x xs) = suc (count xs)

unfoldable mutual
  unfolding keyword names count

  -- _json_equal, with the number of nested calls that are left before RecursionError
  pub equal : ℕ → Json → Json → Result Bool
  equal zero left right = raise recursion_error
  equal (suc fuel) null null = ok true
  equal (suc fuel) (bool a) (bool b) = ok (same_bool a b)
  equal (suc fuel) (num m) (num n) = ok (nat_eq m n)
  equal (suc fuel) (neg m) (neg n) = ok (nat_eq m n)
  equal (suc fuel) (str s) (str t) = ok (s == t)
  equal (suc fuel) (arr xs) (arr ys) =
      let rest = equal_items fuel xs ys in if nat_eq (count xs) (count ys) then rest else ok false
  equal (suc fuel) (obj fs) (obj gs) =
      let rest = equal_fields fuel fs gs in
      if subset (names fs) (names gs) && subset (names gs) (names fs) then rest else ok false
  equal (suc fuel) _ _ = ok false

  -- all(_json_equal(a, b) for a, b in zip(left, right))
  pub equal_items : ℕ → Items → Items → Result Bool
  equal_items fuel (cons x xs) (cons y ys) =
      let rest = equal_items fuel xs ys in equal fuel x y >>= λ b. if b then rest else ok false
  equal_items fuel _ _ = ok true

  -- all(_json_equal(left[k], right[k]) for k in left), where `right` has every k
  pub equal_fields : ℕ → Fields → Fields → Result Bool
  equal_fields fuel end gs = ok true
  equal_fields fuel (field k v fs) gs =
      let rest = equal_fields fuel fs gs in
      elim (keyword gs k) [
        | none ↦ ok false
        | some w ↦ equal fuel v w >>= λ b. if b then rest else ok false
      ]

-- any(_json_equal(item, other) for other in items)
unfoldable pub equals_some : ℕ → Json → Items → Result Bool
unfolding equal
equals_some fuel x nil = ok false
equals_some fuel x (cons y ys) =
    let rest = equals_some fuel x ys in equal fuel x y >>= λ b. if b then ok true else rest

unfoldable pub snoc : Items → Json → Items
snoc nil x = cons x nil
snoc (cons y ys) x = cons y (snoc ys x)

-- _has_duplicates, with the items in front of the rest
unfoldable pub duplicates_after : ℕ → Items → Items → Result Bool
unfolding equals_some snoc
duplicates_after fuel earlier nil = ok false
duplicates_after fuel earlier (cons x xs) =
    let rest = duplicates_after fuel (snoc earlier x) xs in
    equals_some fuel x earlier >>= λ b. if b then ok true else rest

-- text.split("/")
onto_first : Char → List String → List String
onto_first c [] = []
onto_first c (t ∷ ts) = String.◌∷◌ c t ∷ ts

split_slash : String → List String
unfolding onto_first
split_slash String.[] = "" ∷ []
split_slash (String.◌∷◌ c s) =
    let rest = split_slash s in if nat_eq (code c) b'/' then "" ∷ rest else onto_first c rest

-- text.replace("~" + digit, by)
replace_tilde : ℕ → Char → String → String
replace_tilde digit by String.[] = ""
replace_tilde digit by (String.◌∷◌ c String.[]) = String.◌∷◌ c ""
replace_tilde digit by (String.◌∷◌ c (String.◌∷◌ d s)) =
    elim (nat_eq (code c) b'~' && nat_eq (code d) digit) [
      | true ↦ String.◌∷◌ by (replace_tilde digit by s)
      | false ↦ String.◌∷◌ c (replace_tilde digit by (String.◌∷◌ d s))
    ]

-- The tokens of a reference, after its "#/".
unfoldable pub tokens : String → Option (List String)
unfolding split_slash replace_tilde
tokens (String.◌∷◌ c (String.◌∷◌ d s)) =
    if nat_eq (code c) b'#' && nat_eq (code d) b'/'
    then some (map (λ t. replace_tilde b'0' "~" (replace_tilde b'1' "/" t)) (split_slash s))
    else none
tokens _ = none

abbrev pub descend : Json → List String → Result Json
descend node [] = ok node
descend (obj fs) (t ∷ ts) = elim (keyword fs t) [
  | none ↦ raise schema_error
  | some v ↦ descend v ts
]
descend _ (t ∷ ts) = raise schema_error

abbrev pub as_schema : Json → Result Fields
as_schema (obj fs) = ok fs
as_schema _ = raise schema_error

-- _resolve
unfoldable pub resolve : String → Fields → Result Fields
unfolding tokens
resolve ref root = elim (tokens ref) [
  | none ↦ raise schema_error
  | some ts ↦ descend (obj root) ts >>= as_schema
]
