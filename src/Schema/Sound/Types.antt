-- ===== src/Schema/Sound/Types.antt =====
-- What the order of numbers, the names of types and the references decide.
use llm_errata.Prelude.{
  ◌≡◌, refl, sym, subst, ap, ◌∙◌, ◌↔◌, ◌⊎◌, inl, inr, Bool, true, false, not, List, [], ◌∷◌, String,
  Option, none, some, ltb, ◌||◌, eq_iff, if◌then◌else◌, ◌==◌, arith, Bool-cases,
}
use llm_errata.Errors.{Result, ok, raise, ◌>>=◌, >>=-eq-ok, ok-injective, schema_error}
use llm_errata.Json.{Json, null, bool, num, neg, str, arr, obj, Items, nil, cons, Fields}
use llm_errata.Schema.Equal.{keyword, tokens, descend, as_schema, resolve}
use llm_errata.Schema.Checks.{
  less, at_most, matches_name, matches_any, matches_types, matches_type, is_object, is_array,
  is_string, is_integer, is_bool, is_null,
}
use llm_errata.Schema.Same.{IsLess, HasType, NamesType, IsTyped, PointsTo, SomeItem}
use llm_errata.Schema.Sound.Equality.{Decides, Refutes, ok-Decides, or-Decides}

pub less-Decides : (a b : Json) → Decides (less a b) (IsLess a b)
unfolding less
less-Decides (num m) (num n) = ok-Decides (ltb m n) (ground arith)
less-Decides (num m) (neg n) = ok-Decides false (λ h. cc, λ x. absurd x)
less-Decides (neg m) (num n) = ok-Decides true (λ _. tt, λ _. refl)
less-Decides (neg m) (neg n) = ok-Decides (ltb n m) (ground arith)
less-Decides _ _ = λ b e. cc

negated : {P : Type 0} (r : Result Bool) → Decides r P → Refutes (r >>= λ b. ok (not b)) P
negated (ok true) p b e = (λ _. (p true refl).0 refl, λ _. sym (ok-injective e))
negated (ok false) p b e =
    let t : true ≡ b = ok-injective e in (λ f. cc, λ x. let u = (p false refl).1 x in cc)
negated (raise x) p b e = cc

pub at_most-Refutes : (a b : Json) → Refutes (at_most a b) (IsLess b a)
unfolding at_most
at_most-Refutes a b = negated (less b a) (less-Decides b a)

pub Decides-Refutes : {P : Type 0} (r : Result Bool) → Decides r P → Refutes r (¬ P)
Decides-Refutes r p true e = (λ h. cc, λ n. absurd (n ((p true e).0 refl)))
Decides-Refutes r p false e = (λ _ x. (let t = (p false e).1 x in cc), λ _. refl)

apart : (s t : String) → (s == t) ≡ false → (false ≡ true) ↔ (s ≡ t)
apart s t h = (λ e. cc, λ e. let t_ = (eq_iff s t).1 e in cc)

apart_both :
    (s t u : String) → (s == t) ≡ false → (s == u) ≡ false → (false ≡ true) ↔ ((s ≡ t) ⊎ (s ≡ u))
apart_both s t u h k =
    (λ e. cc, λ e. elim e [ inl x ↦ (apart s t h).1 x | inr x ↦ (apart s u k).1 x ])

object_iff : (v : Json) → (is_object v ≡ true) ↔ HasType v "object"
object_iff (obj fs) = (λ _. refl, λ _. refl)
object_iff (num n) = apart_both "object" "number" "integer" refl refl
object_iff (neg n) = apart_both "object" "number" "integer" refl refl
object_iff _ = apart "object" _ refl

array_iff : (v : Json) → (is_array v ≡ true) ↔ HasType v "array"
array_iff (arr xs) = (λ _. refl, λ _. refl)
array_iff (num n) = apart_both "array" "number" "integer" refl refl
array_iff (neg n) = apart_both "array" "number" "integer" refl refl
array_iff _ = apart "array" _ refl

string_iff : (v : Json) → (is_string v ≡ true) ↔ HasType v "string"
string_iff (str s) = (λ _. refl, λ _. refl)
string_iff (num n) = apart_both "string" "number" "integer" refl refl
string_iff (neg n) = apart_both "string" "number" "integer" refl refl
string_iff _ = apart "string" _ refl

bool_iff : (v : Json) → (is_bool v ≡ true) ↔ HasType v "boolean"
bool_iff (bool c) = (λ _. refl, λ _. refl)
bool_iff (num n) = apart_both "boolean" "number" "integer" refl refl
bool_iff (neg n) = apart_both "boolean" "number" "integer" refl refl
bool_iff _ = apart "boolean" _ refl

null_iff : (v : Json) → (is_null v ≡ true) ↔ HasType v "null"
null_iff null = (λ _. refl, λ _. refl)
null_iff (num n) = apart_both "null" "number" "integer" refl refl
null_iff (neg n) = apart_both "null" "number" "integer" refl refl
null_iff _ = apart "null" _ refl

number_iff : (v : Json) → (is_integer v ≡ true) ↔ HasType v "number"
number_iff (num n) = (λ _. inl refl, λ _. refl)
number_iff (neg n) = (λ _. inl refl, λ _. refl)
number_iff _ = apart "number" _ refl

integer_iff : (v : Json) → (is_integer v ≡ true) ↔ HasType v "integer"
integer_iff (num n) = (λ _. inr refl, λ _. refl)
integer_iff (neg n) = (λ _. inr refl, λ _. refl)
integer_iff _ = apart "integer" _ refl

-- A name that is tested, and what it decides.
named-Decides :
    (v : Json) (name c : String) (b : Bool) (r : Result Bool)
    → ((b ≡ true) ↔ HasType v c)
    → Decides r (HasType v name)
    → Decides (if name == c then ok b else r) (HasType v name)
named-Decides v name c b r here rest = elim (Bool-cases (name == c)) [
  | inl t ↦
      let same : c ≡ name = sym ((eq_iff name c).0 t) in
      rw t (ok-Decides b (subst (λ n. (b ≡ true) ↔ HasType v n) same here))
  | inr f ↦ rw f rest
]

either_named :
    (v : Json) (name : String) (r : Result Bool)
    → Decides r (HasType v name)
    → Decides
        (if (name == "number") || (name == "integer") then ok (is_integer v) else r)
        (HasType v name)
either_named v name r rest = elim (Bool-cases (name == "number")) [
  | inl t ↦
      let same : "number" ≡ name = sym ((eq_iff name "number").0 t) in
      rw t (
        ok-Decides (is_integer v)
          (subst (λ n. (is_integer v ≡ true) ↔ HasType v n) same (number_iff v)))
  | inr f ↦ rw f (named-Decides v name "integer" (is_integer v) r (integer_iff v) rest)
]

matches_name-Decides : (v : Json) (name : String) → Decides (matches_name v name) (HasType v name)
unfolding matches_name
matches_name-Decides v name = named-Decides v name "object" (is_object v) _ (object_iff v) (
    named-Decides v name "array" (is_array v) _ (array_iff v) (
      named-Decides v name "string" (is_string v) _ (string_iff v) (
        either_named v name _ (
          named-Decides v name "boolean" (is_bool v) _ (bool_iff v)
            (named-Decides v name "null" (is_null v) _ (null_iff v) (λ b e. cc))))))

matches_type-Decides : (v t : Json) → Decides (matches_type v t) (NamesType v t)
matches_type-Decides v (str name) = matches_name-Decides v name
matches_type-Decides v _ = λ b e. cc

matches_any-Decides :
    (v : Json) (ts : Items) → Decides (matches_any v ts) (SomeItem (NamesType v) ts)
unfolding matches_any
matches_any-Decides v nil = ok-Decides false (λ h. cc, λ x. absurd x)
matches_any-Decides v (cons t ts) =
    or-Decides (matches_type v t) (matches_any v ts) (matches_type-Decides v t)
      (matches_any-Decides v ts)

pub matches_types-Decides : (v : Json) (o : Option Json) → Decides (matches_types v o) (IsTyped v o)
unfolding matches_types
matches_types-Decides v none = ok-Decides true (λ _. tt, λ _. refl)
matches_types-Decides v (some (arr ts)) = matches_any-Decides v ts
matches_types-Decides v (some (str name)) = matches_name-Decides v name
matches_types-Decides v (some _) = λ b e. cc

descend-PointsTo :
    (node : Json) (ts : List String) (target : Json)
    → (descend node ts ≡ ok target) ↔ PointsTo node ts target
descend-PointsTo node [] target = (λ h. ok-injective h, λ h. ap ok h)
descend-PointsTo (obj fs) (t ∷ ts) target =
    found-PointsTo (λ v. descend-PointsTo v ts target) (keyword fs t)
  where
    found-PointsTo :
        ((v : Json) → (descend v ts ≡ ok target) ↔ PointsTo v ts target)
        → (o : Option Json)
        → (elim o [ none ↦ raise schema_error | some v ↦ descend v ts ] ≡ ok target)
          ↔ ((v : Json) × (o ≡ some v) × PointsTo v ts target)
    found-PointsTo met none = (λ h. cc, λ (v, e, _). cc)
    found-PointsTo met (some v) = (
      λ h. (v, refl, (met v).0 h),
      λ (w, e, p).
          let same : w ≡ v = ap (λ o. elim o [ none ↦ v | some j ↦ j ]) (sym e) in
          (met v).1 (subst (λ x. PointsTo x ts target) same p),
    )
descend-PointsTo _ (t ∷ ts) target = (λ h. cc, λ x. absurd x)

as_schema_iff : (v : Json) (fs : Fields) → (as_schema v ≡ ok fs) ↔ (v ≡ obj fs)
as_schema_iff (obj gs) fs = (λ h. ap obj (ok-injective h), λ h. ap as_schema h)
as_schema_iff v fs = (λ h. cc, λ h. ap as_schema h)

-- A reference leads to a schema exactly when its tokens do, from the root.
pub resolve_iff :
    (ref : String) (root fs : Fields)
    → (resolve ref root ≡ ok fs)
      ↔ ((ts : List String) × (tokens ref ≡ some ts) × PointsTo (obj root) ts (obj fs))
unfolding resolve
resolve_iff ref root fs = tokens-PointsTo (tokens ref)
  where
    tokens-PointsTo :
        (o : Option (List String))
        → (elim o [ none ↦ raise schema_error | some ts ↦ descend (obj root) ts >>= as_schema ]
            ≡ ok fs)
          ↔ ((ts : List String) × (o ≡ some ts) × PointsTo (obj root) ts (obj fs))
    tokens-PointsTo none = (λ h. cc, λ (ts, e, _). cc)
    tokens-PointsTo (some ts) = (
      λ h.
          let (v, e, k) = >>=-eq-ok (descend (obj root) ts) as_schema h in
          let same : v ≡ obj fs = (as_schema_iff v fs).0 k in
          (ts, refl, (descend-PointsTo (obj root) ts (obj fs)).0 (e ∙ ap ok same)),
      λ (us, e, p).
          let same : us ≡ ts = ap (λ o. elim o [ none ↦ ts | some j ↦ j ]) (sym e) in
          let there =
            (descend-PointsTo (obj root) ts (obj fs)).1
              (subst (λ x. PointsTo (obj root) x (obj fs)) same p) in
          ap (λ r. r >>= as_schema) there,
    )
