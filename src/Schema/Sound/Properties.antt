-- ===== src/Schema/Sound/Properties.antt =====
-- The keywords on objects: no errors exactly when every property is as they say.
use llm_errata.Prelude.{
  ◌≡◌, refl, sym, subst, ◌↔◌, inl, inr, Bool, true, false, not, ◌||◌, List, [], ◌∷◌, ◌++◌, String,
  Option, none, some, contains, if◌then◌else◌, arith, Option-cases, concat,
}
use llm_errata.Errors.{Result, ok, ◌>>=◌, >>=-eq-ok, ok-injective}
use llm_errata.Json.{Json, bool, str, arr, obj, Items, nil, cons, Fields, field, end}
use llm_errata.Schema.Equal.{keyword, names}
use llm_errata.Schema.Checks.{Fault, Call, Search, searched, fault_if, missing_property}
use llm_errata.Schema.Objects.{
  object_of, missing_names, check_required, Matched, check_property, check_patterns,
  check_additional, check_name, check_field, check_fields, check_object,
}
use llm_errata.Schema.Same.{EachItem}
use llm_errata.Schema.Valid.{
  Validity, IfPresent, OfItems, OfText, Patterned, Unmatched, FitsField, FitsFields, FitsObject,
  as_fields,
}
use llm_errata.Schema.Sound.{
  Reports, IsSound, both, nothing-Reports, fault_if-Reports, iff_trans, absent-Reports, ok-Reports,
}

missing_names-Reports :
    (fs : Fields) (required : Items) (path : String) (errors : List Fault)
    → missing_names fs required path ≡ ok errors
    → Reports errors (EachItem (OfText (λ name. contains (names fs) name ≡ true)) required)
unfolding missing_names
missing_names-Reports fs nil path errors h = absent-Reports h
missing_names-Reports fs (cons (str name) rest) path errors h =
    let (more, e, h1) = >>=-eq-ok (missing_names fs rest path) _ h in
    ok-Reports
      (both (fault_if (not (contains (names fs) name)) path (missing_property name)) more
        (iff_trans (fault_if-Reports (not (contains (names fs) name)) path (missing_property name))
          (ground arith))
        (missing_names-Reports fs rest path more e))
      h1
missing_names-Reports fs (cons _ rest) path errors h = cc

check_required-Reports :
    (fs : Fields) (o : Option Json) (path : String) (errors : List Fault)
    → check_required fs o path ≡ ok errors
    → Reports errors
        (IfPresent o (OfItems (EachItem (OfText (λ name. contains (names fs) name ≡ true)))))
unfolding check_required
check_required-Reports fs none path errors h = absent-Reports h
check_required-Reports fs (some (arr required)) path errors h =
    missing_names-Reports fs required path errors h
check_required-Reports fs (some _) path errors h = cc

object_of-eq-ok : (o : Option Json) (fs : Fields) → object_of o ≡ ok fs → fs ≡ as_fields o
object_of-eq-ok none fs h = ok-injective (sym h)
object_of-eq-ok (some (obj gs)) fs h = ok-injective (sym h)
object_of-eq-ok (some _) fs h = cc

searched-eq-ok :
    (search_ : Search) (t s : String) {b : Bool}
    → searched search_ t s ≡ ok b
    → search_ t s ≡ some b
unfolding searched
searched-eq-ok search_ t s h = elim (Option-cases (search_ t s)) [
  | inl e ↦ absurd (ground arith)
  | inr (b, e) ↦ ground arith
]

module _ {call : Call} {V : Validity} (sound : IsSound call V)
    (refuses : (v : Json) → V v (bool false) → ⊥) where
  check_property-Reports :
      (value : Json) (o : Option Json) (at : String) (m : Matched)
      → check_property call value o at ≡ ok m
      → Reports m.0 (IfPresent o (λ s. V value s)) × ((m.1 ≡ false) ↔ (o ≡ none))
  unfolding check_property
  check_property-Reports value none at m h =
      subst (λ x. Reports x.0 Unit × ((x.1 ≡ false) ↔ (◌≡◌ {A = Option Json} none none)))
        (ok-injective h) (nothing-Reports tt, (λ _. refl, λ _. refl))
  check_property-Reports value (some s) at m h =
      let (e, found, h1) = >>=-eq-ok (call value s at) _ h in
      subst (λ x. Reports x.0 (V value s) × ((x.1 ≡ false) ↔ (some s ≡ none))) (ok-injective h1)
        (sound value s at e found, (λ f. cc, λ f. cc))

  module _ (search_ : Search) where
    -- What is promised of a list of patterns.
    abbrev IsMatched : String → Json → Fields → Matched → Type 0
    IsMatched name value patterns m =
        Reports m.0 (Patterned search_ V name value patterns)
        × ((m.1 ≡ false) ↔ Unmatched search_ name patterns)

    pattern_step :
        (name : String) (value : Json) (pattern : String) (s : Json) (rest : Fields) (at : String)
        (found : Bool) (more : Result Matched) (m : Matched)
        → ((x : Matched) → more ≡ ok x → IsMatched name value rest x)
        → search_ pattern name ≡ some found
        → (if found
            then call value s at >>= (λ here. more >>= λ x. ok (here ++ x.0, true))
            else more)
          ≡ ok m
        → IsMatched name value (field pattern s rest) m
    pattern_step name value pattern s rest at true more m ih is h =
        let (here, e, h1) = >>=-eq-ok (call value s at) _ h in
        let (x, e', h2) = >>=-eq-ok more _ h1 in
        let met = sound value s at here e in
        subst (IsMatched name value (field pattern s rest)) (ok-injective h2)
          (both here x.0 (λ t _. met.0 t, λ f. met.1 (f is)) (ih x e').0, (λ f. cc, λ (f, _). cc))
    pattern_step name value pattern s rest at false more m ih is h =
        let (reports, unmatched) = ih m h in
        (
          (λ t. (λ q. cc, reports.0 t), λ (_, p). reports.1 p),
          (λ f. (is, unmatched.0 f), λ (_, u). unmatched.1 u),
        )

    check_patterns-Reports :
        (name : String) (value : Json) (patterns : Fields) (at : String) (m : Matched)
        → check_patterns search_ call name value patterns at ≡ ok m
        → IsMatched name value patterns m
    unfolding check_patterns
    check_patterns-Reports name value end at m h =
        subst (IsMatched name value end) (ok-injective h) (nothing-Reports tt, (λ _. tt, λ _. refl))
    check_patterns-Reports name value (field pattern s rest) at m h =
        let (found, e, h1) = >>=-eq-ok (searched search_ pattern name) _ h in
        pattern_step name value pattern s rest at found
          (check_patterns search_ call name value rest at) m
          (check_patterns-Reports name value rest at) (searched-eq-ok search_ pattern name e) h1

  check_additional-Reports :
      (name : String) (value : Json) (matched : Bool) (o : Option Json) (path at : String)
      (errors : List Fault)
      → check_additional call name value matched o path at ≡ ok errors
      → Reports errors (IfPresent o (λ s. matched ≡ false → V value s))
  unfolding check_additional
  check_additional-Reports name value matched none path at errors h = absent-Reports h
  check_additional-Reports name value true (some s) path at errors h =
      ok-Reports (nothing-Reports (λ f. cc)) h
  check_additional-Reports name value false (some (bool false)) path at errors h =
      ok-Reports (λ t. cc, λ f. absurd (refuses value (f refl))) h
  check_additional-Reports name value false (some s) path at errors h =
      let met = sound value s at errors h in (λ t _. met.0 t, λ f. met.1 (f refl))

  check_name-Reports :
      (name : String) (o : Option Json) (at : String) (errors : List Fault)
      → check_name call name o at ≡ ok errors
      → Reports errors (IfPresent o (λ s. V (str name) s))
  unfolding check_name
  check_name-Reports name none at errors h = absent-Reports h
  check_name-Reports name (some s) at errors h = sound (str name) s at errors h

  both_false :
      (a b : Bool) {P Q : Type 0} → (a ≡ false) ↔ P → (b ≡ false) ↔ Q → ((a || b) ≡ false) ↔ (P × Q)
  both_false a b p q = (
    λ h. (p.0 (ground arith), q.0 (ground arith)),
    λ (x, y). let e = p.1 x in let f = q.1 y in ground arith,
  )

  additional_iff :
      (o : Option Json) {matched : Bool} {P Q : Type 0} (R : Json → Type 0)
      → (matched ≡ false) ↔ (P × Q)
      → IfPresent o (λ s. matched ≡ false → R s) ↔ IfPresent o (λ s. P → Q → R s)
  additional_iff none R h = (λ x. x, λ x. x)
  additional_iff (some s) R h = (λ f p q. f (h.1 (p, q)), λ f e. let (p, q) = h.0 e in f p q)

  module _ (search_ : Search) (schema properties patterns : Fields) (path : String) where
    check_field-Reports :
        (name : String) (value : Json) (errors : List Fault)
        → check_field search_ call schema properties patterns path name value ≡ ok errors
        → Reports errors (FitsField search_ V schema properties patterns name value)
    unfolding check_field
    check_field-Reports name value errors h =
        let at = concat (path ∷ "." ∷ name ∷ []) in
        let (a, ea, h1) = >>=-eq-ok (check_property call value (keyword properties name) at) _ h in
        let (b, eb, h2) = >>=-eq-ok (check_patterns search_ call name value patterns at) _ h1 in
        let additional = keyword schema "additionalProperties" in
        let (c, ec, h3) =
          >>=-eq-ok (check_additional call name value (a.1 || b.1) additional path at) _ h2 in
        let (d, ed, h4) =
          >>=-eq-ok (check_name call name (keyword schema "propertyNames") at) _ h3 in
        let (property, absent) = check_property-Reports value (keyword properties name) at a ea in
        let (patterned, unmatched) = check_patterns-Reports search_ name value patterns at b eb in
        ok-Reports
          (both a.0 (b.0 ++ (c ++ d)) property (
            both b.0 (c ++ d) patterned (
              both c d
                (iff_trans
                  (check_additional-Reports name value (a.1 || b.1) additional path at c ec)
                  (additional_iff additional (V value) (both_false a.1 b.1 absent unmatched)))
                (check_name-Reports name (keyword schema "propertyNames") at d ed))))
          h4

    check_fields-Reports :
        (fs : Fields) (errors : List Fault)
        → check_fields search_ call schema properties patterns path fs ≡ ok errors
        → Reports errors (FitsFields search_ V schema properties patterns fs)
    unfolding check_fields
    check_fields-Reports end errors h = absent-Reports h
    check_fields-Reports (field name value rest) errors h =
        let (here, e, h1) =
          >>=-eq-ok (check_field search_ call schema properties patterns path name value) _ h in
        let (there, e', h2) =
          >>=-eq-ok (check_fields search_ call schema properties patterns path rest) _ h1 in
        ok-Reports
          (both here there (check_field-Reports name value here e)
            (check_fields-Reports rest there e'))
          h2

  pub check_object-Reports :
      (search_ : Search) (v : Json) (schema : Fields) (path : String) (errors : List Fault)
      → check_object search_ call v schema path ≡ ok errors
      → Reports errors (FitsObject search_ V v schema)
  unfolding check_object
  check_object-Reports search_ (obj end) schema path errors h =
      let (there, back) = check_required-Reports end (keyword schema "required") path errors h in
      (λ t. (there t, tt), λ (r, _). back r)
  check_object-Reports search_ (obj fs) schema path errors h =
      let (properties, e, h1) = >>=-eq-ok (object_of (keyword schema "properties")) _ h in
      let (a, ea, h2) = >>=-eq-ok (check_required fs (keyword schema "required") path) _ h1 in
      let (patterns, e', h3) = >>=-eq-ok (object_of (keyword schema "patternProperties")) _ h2 in
      let (b, eb, h4) =
        >>=-eq-ok (check_fields search_ call schema properties patterns path fs) _ h3 in
      let fields = check_fields-Reports search_ schema properties patterns path fs b eb in
      let there = object_of-eq-ok (keyword schema "properties") properties e in
      let there' = object_of-eq-ok (keyword schema "patternProperties") patterns e' in
      ok-Reports
        (both a b (check_required-Reports fs (keyword schema "required") path a ea) (
          subst
            (λ x.
              Reports b
                (FitsFields search_ V schema x (as_fields (keyword schema "patternProperties")) fs))
            there
            (subst (λ x. Reports b (FitsFields search_ V schema properties x fs)) there' fields)))
        h4
  check_object-Reports search_ _ schema path errors h = absent-Reports h
