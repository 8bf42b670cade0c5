-- ===== src/Schema/Correct.antt =====
-- `validate` returns no error exactly when the value is valid.
use llm_errata.Prelude.{
  ℕ, zero, suc, ◌≡◌, refl, ◌↔◌, Bool, true, false, List, [], ◌∷◌, ◌++◌, String, Option, some,
  is_empty, every, contains, if◌then◌else◌,
}
use llm_errata.Errors.{ok, ◌>>=◌, require, >>=-eq-ok, schema_error}
use llm_errata.Json.{Json, bool, obj, Fields}
use llm_errata.Schema.{validate, check_keywords, check_rest, or_root, supported}
use llm_errata.Schema.Equal.{keyword, names}
use llm_errata.Schema.Checks.{
  Fault, Call, Search, wrong_type, check_ref, matches_types, check_enum, check_const, check_string,
  check_number, check_array, check_all_of, check_any_of, check_one_of, check_not,
}
use llm_errata.Schema.Objects.{check_object}
use llm_errata.Schema.Valid.{Validity, IfPresent, OfText, Refers, Rest, Assertions, Valid}
use llm_errata.Schema.Sound.{Reports, IsSound, both, nothing-Reports, ok-Reports}
use llm_errata.Schema.Sound.Scalars.{
  check_enum-Reports, check_const-Reports, check_string-Reports, check_number-Reports,
}
use llm_errata.Schema.Sound.Branches.{
  check_all_of-Reports, check_any_of-Reports, check_one_of-Reports, check_not-Reports,
  check_ref-Reports, check_array-Reports,
}
use llm_errata.Schema.Sound.Types.{matches_types-Decides}
use llm_errata.Schema.Sound.Properties.{check_object-Reports}

module _ (search_ : Search) {call : Call} {V : Validity} (sound : IsSound call V)
    (refuses : (v : Json) → V v (bool false) → ⊥) where
  check_rest-Reports :
      (fuel : ℕ) (v : Json) (schema : Fields) (path : String) (errors : List Fault)
      → check_rest search_ fuel call v schema path ≡ ok errors
      → Reports errors (Rest search_ V v schema)
  unfolding check_rest
  check_rest-Reports fuel v schema path errors h =
      let k = keyword schema in
      let (a, ea, h1) = >>=-eq-ok (check_enum fuel v (k "enum") path) _ h in
      let (b, eb, h1') = >>=-eq-ok (check_const fuel v (k "const") path) _ h1 in
      let (c, ec, h2) = >>=-eq-ok (check_string search_ v schema path) _ h1' in
      let (d, ed, h3) = >>=-eq-ok (check_number v schema path) _ h2 in
      let (e, ee, h4) = >>=-eq-ok (check_array fuel call v schema path) _ h3 in
      let (f, ef, h5) = >>=-eq-ok (check_object search_ call v schema path) _ h4 in
      let (g, eg, h6) = >>=-eq-ok (check_all_of call v (k "allOf") path) _ h5 in
      let (x, ex, h7) = >>=-eq-ok (check_any_of call v (k "anyOf") path) _ h6 in
      let (y, ey, h8) = >>=-eq-ok (check_one_of call v (k "oneOf") path) _ h7 in
      let (z, ez, h9) = >>=-eq-ok (check_not call v (k "not") path) _ h8 in
      let r9 =
        both y z (check_one_of-Reports sound v (k "oneOf") path y ey)
          (check_not-Reports sound v (k "not") path z ez) in
      let r8 = both x (y ++ z) (check_any_of-Reports sound v (k "anyOf") path x ex) r9 in
      let r7 = both g (x ++ (y ++ z)) (check_all_of-Reports sound v (k "allOf") path g eg) r8 in
      let r6 =
        both f (g ++ (x ++ (y ++ z)))
          (check_object-Reports sound refuses search_ v schema path f ef) r7 in
      let r5 =
        both e (f ++ (g ++ (x ++ (y ++ z)))) (check_array-Reports sound fuel v schema path e ee)
          r6 in
      let r4 =
        both d (e ++ (f ++ (g ++ (x ++ (y ++ z))))) (check_number-Reports v schema path d ed) r5 in
      let r3 =
        both c (d ++ (e ++ (f ++ (g ++ (x ++ (y ++ z))))))
          (check_string-Reports search_ v schema path c ec) r4 in
      let r2 =
        both b (c ++ (d ++ (e ++ (f ++ (g ++ (x ++ (y ++ z)))))))
          (check_const-Reports fuel v (k "const") path b eb) r3 in
      ok-Reports
        (both a (b ++ (c ++ (d ++ (e ++ (f ++ (g ++ (x ++ (y ++ z))))))))
          (check_enum-Reports fuel v (k "enum") path a ea) r2)
        h9

  typed_step :
      (fuel : ℕ) (root : Fields) (v : Json) (schema : Fields) (path : String)
      (referred errors : List Fault) (typed : Bool)
      → Reports referred (
          IfPresent
            (keyword schema "$ref")
            (OfText (λ ref. (fs : Fields) × Refers root ref fs × V v (obj fs))))
      → matches_types v (keyword schema "type") ≡ ok typed
      → (if typed
          then check_rest search_ fuel call v schema path >>= (λ rest. ok (referred ++ rest))
          else ok (referred ++ (path, wrong_type) ∷ []))
        ≡ ok errors
      → Reports errors (Assertions search_ V root v schema)
  typed_step fuel root v schema path referred errors true r t h =
      let typed_ = matches_types-Decides v (keyword schema "type") true t in
      let (rest, e, h1) = >>=-eq-ok (check_rest search_ fuel call v schema path) _ h in
      let met = check_rest-Reports fuel v schema path rest e in
      ok-Reports (both referred rest r ((λ q. (typed_.0 refl, met.0 q)), λ (_, q). met.1 q)) h1
  typed_step fuel root v schema path referred errors false r t h =
      let typed_ = matches_types-Decides v (keyword schema "type") false t in
      ok-Reports
        (both referred ((path, wrong_type) ∷ []) r
          ((λ q. cc), λ (q, _). let both_ = typed_.1 q in cc))
        h

  check_keywords-Reports :
      (fuel : ℕ) (root : Fields) (v : Json) (schema : Fields) (path : String) (errors : List Fault)
      → check_keywords search_ fuel call root v schema path ≡ ok errors
      → Reports errors (Assertions search_ V root v schema)
  unfolding check_keywords
  check_keywords-Reports fuel root v schema path errors h =
      let (_, known, h1) =
        >>=-eq-ok (require (every (contains supported) (names schema)) schema_error) _ h in
      let (referred, e, h2) = >>=-eq-ok (check_ref call root v (keyword schema "$ref") path) _ h1 in
      let (typed, t, h3) = >>=-eq-ok (matches_types v (keyword schema "type")) _ h2 in
      typed_step fuel root v schema path referred errors typed
        (check_ref-Reports sound root v (keyword schema "$ref") path referred e) t h3

Valid-refuses :
    (search_ : Search) (fuel : ℕ) (root : Option Fields) (v : Json)
    → Valid search_ fuel root v (bool false)
    → ⊥
unfolding Valid
Valid-refuses search_ zero root v x = x
Valid-refuses search_ (suc fuel) root v x = x

validate-IsSound :
    (search_ : Search) (fuel : ℕ) (root : Option Fields)
    → IsSound (validate search_ fuel root) (Valid search_ fuel root)
unfolding validate Valid
validate-IsSound search_ zero root v s path errors h = cc
validate-IsSound search_ (suc fuel) root v (bool true) path errors h =
    ok-Reports (nothing-Reports tt) h
validate-IsSound search_ (suc fuel) root v (bool false) path errors h =
    ok-Reports (λ t. cc, λ x. absurd x) h
validate-IsSound search_ (suc fuel) root v (obj schema) path errors h =
    let base = or_root root schema in
    check_keywords-Reports search_ (validate-IsSound search_ fuel (some base))
      (Valid-refuses search_ fuel (some base)) fuel base v schema path errors h
validate-IsSound search_ (suc fuel) root v _ path errors h = cc

is_empty_iff {ℓ} : {A : Type ℓ} (xs : List A) → (is_empty xs ≡ true) ↔ (xs ≡ [])
is_empty_iff [] = (λ _. refl, λ _. refl)
is_empty_iff (x ∷ xs) = (λ h. cc, λ h. cc)

-- Where `validate` returns a list of errors, the list is empty exactly when the value is valid:
-- when it satisfies every keyword of the schema. Values are the same, numbers are ordered, items
-- differ, and a value has a type, by the definitions of Schema.Same, which use none of the tests.
-- What `search` finds for a pattern, which values of "uniqueItems" count as true, and the tokens of
-- a reference are those of the code. Neither the errors that are collected on the way, nor the
-- early return at a wrong type, nor the order of the keywords changes the answer.
pub validate_iff :
    (search_ : Search) (fuel : ℕ) (root : Option Fields) (v schema : Json) (path : String)
    (errors : List Fault)
    → validate search_ fuel root v schema path ≡ ok errors
    → (errors ≡ []) ↔ Valid search_ fuel root v schema
validate_iff search_ fuel root v schema path errors h =
    let (there, back) = validate-IsSound search_ fuel root v schema path errors h in
    (λ none_. there ((is_empty_iff errors).1 none_), λ valid. (is_empty_iff errors).0 (back valid))
