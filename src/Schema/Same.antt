-- ===== src/Schema/Same.antt =====
-- What it means for two JSON values to be the same, for the items of a list to differ, for a number
-- to be less than another, and for a value to have a type: by the values, and not by the tests.
use llm_errata.Prelude.{
  ◌≡◌, ◌↔◌, ◌⊎◌, ◌<◌, true, List, [], ◌∷◌, String, Option, none, some, contains,
}
use llm_errata.Json.{
  Json, null, bool, num, neg, str, arr, obj, Items, nil, cons, Fields, field, end,
}
use llm_errata.Schema.Equal.{keyword, names}

abbrev pub Both : Type 0 → Type 0 → Type 0
Both P Q = P × Q

abbrev pub EachItem : (Json → Type 0) → Items → Type 0
EachItem P nil = Unit
EachItem P (cons x xs) = Both (P x) (EachItem P xs)

abbrev pub SomeItem : (Json → Type 0) → Items → Type 0
SomeItem P nil = ⊥
SomeItem P (cons x xs) = P x ⊎ SomeItem P xs

-- The same names, in any order.
abbrev pub SameNames : Fields → Fields → Type 0
SameNames fs gs = (k : String) → (contains (names fs) k ≡ true) ↔ (contains (names gs) k ≡ true)

unfoldable mutual
  pub Same : Json → Json → Type 0
  Same null null = Unit
  Same (bool a) (bool b) = a ≡ b
  Same (num m) (num n) = m ≡ n
  Same (neg m) (neg n) = m ≡ n
  Same (str s) (str t) = s ≡ t
  Same (arr xs) (arr ys) = SameItems xs ys
  Same (obj fs) (obj gs) = Both (SameNames fs gs) (SameFields fs gs)
  Same _ _ = ⊥

  pub SameItems : Items → Items → Type 0
  SameItems nil nil = Unit
  SameItems (cons x xs) (cons y ys) = Both (Same x y) (SameItems xs ys)
  SameItems _ _ = ⊥

  pub SameFields : Fields → Fields → Type 0
  SameFields end gs = Unit
  SameFields (field k v fs) gs =
      Both ((w : Json) × (keyword gs k ≡ some w) × Same v w) (SameFields fs gs)

-- No item is the same as one in front of it.
abbrev pub Distinct : Items → Type 0
Distinct nil = Unit
Distinct (cons x xs) = Both (EachItem (λ y. ¬ Same y x) xs) (Distinct xs)

abbrev pub IsLess : Json → Json → Type 0
IsLess (num m) (num n) = m < n
IsLess (neg m) (num n) = Unit
IsLess (neg m) (neg n) = n < m
IsLess _ _ = ⊥

-- A number is whole here, and so it has both names.
abbrev pub HasType : Json → String → Type 0
HasType null name = name ≡ "null"
HasType (bool b) name = name ≡ "boolean"
HasType (num n) name = (name ≡ "number") ⊎ (name ≡ "integer")
HasType (neg n) name = (name ≡ "number") ⊎ (name ≡ "integer")
HasType (str s) name = name ≡ "string"
HasType (arr xs) name = name ≡ "array"
HasType (obj fs) name = name ≡ "object"

-- The name of a type, as a schema has it.
abbrev pub NamesType : Json → Json → Type 0
NamesType v (str name) = HasType v name
NamesType v _ = ⊥

-- The keyword "type": absent, a name, or a list of names, one of which fits.
abbrev pub IsTyped : Json → Option Json → Type 0
IsTyped v none = Unit
IsTyped v (some (arr ts)) = SomeItem (NamesType v) ts
IsTyped v (some t) = NamesType v t

-- The value that the tokens lead to, from the value at hand.
abbrev pub PointsTo : Json → List String → Json → Type 0
PointsTo node [] target = node ≡ target
PointsTo (obj fs) (t ∷ ts) target = (v : Json) × (keyword fs t ≡ some v) × PointsTo v ts target
PointsTo _ (t ∷ ts) target = ⊥
