-- ===== src/Errata/Shape.antt =====
-- `_check_shape`: the errata that carry what their operation needs, and no more.
use llm_errata.Prelude.{
  ◌≡◌, refl, ◌↔◌, true, false, not, Option, none, some, String, keys, contains, is_empty-sort,
  is_empty, minus, select, arith, if◌then◌else◌, ◌==◌,
}
use llm_errata.Errors.{ok}
use llm_errata.Errata.{
  Operation, correct, supersede, erase, Erratum, RootRegistry, accepts, missing, check_shape,
  is_erase, required_postconditions, has_text, is_some,
}

-- An erasure has no replacement; a correction and a supersession have one that is not empty.
abbrev pub IsReplaced : Operation → Option String → Type 0
IsReplaced erase r = r ≡ none
IsReplaced _ r = (s : String) × (r ≡ some s) × ((s == "") ≡ false)

abbrev pub Stated : Erratum → String → Type 0
Stated e name = contains (keys e.postconditions) name ≡ true

pub record IsWellShaped (roots : RootRegistry) (e : Erratum) : Type 0 where
  pub known : accepts roots e.target_root ≡ true
  pub replaced : IsReplaced e.operation e.replacement
  pub negative : Stated e "negative"
  pub preserve : Stated e "preserve"
  pub positive : is_erase e.operation ≡ false → Stated e "positive"

-- Nothing is missing exactly when every required postcondition is stated.
missing_none :
    (e : Erratum)
    → (is_empty (missing e) ≡ true) ↔ (
        Stated e "negative"
        × Stated e "preserve"
        × (is_erase e.operation ≡ false → Stated e "positive"))
unfolding missing select
missing_none e =
    ground
      (arith, is_empty-sort (minus (required_postconditions e.operation) (keys e.postconditions)))

IsReplaced-iff :
    (o : Operation) (r : Option String)
    → ((if is_erase o then not (is_some r) else has_text r) ≡ true) ↔ IsReplaced o r
IsReplaced-iff erase none = ground arith
IsReplaced-iff erase (some s) = ground arith
IsReplaced-iff correct none = (λ h. cc, λ h. cc h.1)
IsReplaced-iff correct (some s) = (λ h. (s, refl, ground arith), λ h. ground (arith, h.1, h.2))
IsReplaced-iff supersede none = (λ h. cc, λ h. cc h.1)
IsReplaced-iff supersede (some s) = (λ h. (s, refl, ground arith), λ h. ground (arith, h.1, h.2))

-- An erratum passes `_check_shape` exactly when its root is known, an erasure has no replacement
-- and any other operation a non-empty one, and the postconditions hold "negative", "preserve"
-- and, unless it is an erasure, "positive".
pub check_shape_iff :
    (roots : RootRegistry) (e : Erratum) → (check_shape e roots ≡ ok tt) ↔ IsWellShaped roots e
unfolding check_shape
check_shape_iff roots e = (
  λ h. record {
    known = ground arith;
    replaced = (IsReplaced-iff e.operation e.replacement).0 (ground arith);
    negative = ground (arith, missing_none e);
    preserve = ground (arith, missing_none e);
    positive = λ o. ground (arith, missing_none e);
  },
  λ w. ground (
    arith,
    w.known,
    (IsReplaced-iff e.operation e.replacement).1 w.replaced,
    (missing_none e).1 (w.negative, w.preserve, w.positive),
  ),
)
