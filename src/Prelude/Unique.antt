-- ===== src/Prelude/Unique.antt =====
-- When `len(set(xs)) == len(xs)`.
use Prim.Native.Nat.{◌+◌, ◌≤◌}
use Prim.Native.String.{String}
use mathlib.Core.Path.{◌≡◌, refl}
use mathlib.Core.Bool.{true, false}
use mathlib.Core.Logic.{◌↔◌, inl, inr}
use mathlib.Core.List.{List, [], ◌∷◌}
use native.Mathlib.Omega.{arith}
use llm_errata.Prelude.Tests.{Bool-cases, All, length, nat_eq}
use llm_errata.Prelude.Text.{eq_comm}
use llm_errata.Prelude.Sets.{contains, add, update, IsUnique}

length-update-le : (ks xs : List String) → length (update ks xs) ≤ length ks + length xs
unfolding update add
length-update-le [] xs = omega arith
length-update-le (k ∷ ks) xs = ground (arith, length-update-le ks (add k xs))

abbrev Disjoint : List String → List String → Type 0
Disjoint ks xs = All (λ k. contains xs k ≡ false) ks

Disjoint-cons :
    (ks xs : List String) (k : String)
    → Disjoint ks (k ∷ xs) ↔ ((contains ks k ≡ false) × Disjoint ks xs)
unfolding contains
Disjoint-cons [] xs k = (λ _. (refl, tt), λ _. tt)
Disjoint-cons (j ∷ ks) xs k = ground (arith, Disjoint-cons ks xs k, eq_comm j k)

-- Building a set of `ks` loses nothing exactly when `ks` holds no text twice.
IsUnique-iff :
    (ks xs : List String)
    → (length (update ks xs) ≡ length ks + length xs) ↔ (IsUnique ks × Disjoint ks xs)
unfolding update add
IsUnique-iff [] xs = (λ _. (tt, tt), λ _. omega arith)
IsUnique-iff (k ∷ ks) xs = elim (Bool-cases (contains xs k)) [
  | inl old ↦ rw old (λ e. absurd (omega (arith, length-update-le ks xs)), λ h. cc)
  | inr new ↦
      let ih = IsUnique-iff ks (k ∷ xs) in
      let split = Disjoint-cons ks xs k in
      rw new (
        λ e. ground (arith, ih.0 (omega arith), split),
        λ h. omega (arith, ih.1 (h.0.1, split.1 (h.0.0, h.1.1))),
      )
]

pub IsUnique-ids_iff :
    (ks : List String) → (nat_eq (length ks) (length (update ks [])) ≡ true) ↔ IsUnique ks
IsUnique-ids_iff ks = (
  λ h. ((IsUnique-iff ks []).0 (ground arith)).0,
  λ u. ground (arith, (IsUnique-iff ks []).1 (u, nothing ks)),
)
  where
    nothing : (js : List String) → Disjoint js []
    nothing [] = tt
    nothing (j ∷ js) = (unfold contains in refl, nothing js)
