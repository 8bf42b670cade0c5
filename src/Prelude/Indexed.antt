-- ===== src/Prelude/Indexed.antt =====
-- Python's `dict` with numbers as keys.
use mathlib.Core.Path.{◌≡◌, refl}
use mathlib.Core.List.{List, [], ◌∷◌}
use mathlib.Core.Option.{Option, none, some}
use native.Mathlib.Omega.{arith}
use Prim.Native.Nat.{ℕ}
use llm_errata.Prelude.Tests.{nat_eq, if◌then◌else◌}

module _ {ℓ} {V : Type ℓ} where
  unfoldable pub get_at : List (ℕ × V) → ℕ → Option V
  get_at [] k = none
  get_at ((j, v) ∷ d) k = if nat_eq j k then some v else get_at d k

  unfoldable pub put_at : ℕ → V → List (ℕ × V) → List (ℕ × V)
  put_at k v [] = (k, v) ∷ []
  put_at k v ((j, w) ∷ d) =
      let rest = put_at k v d in if nat_eq j k then (j, v) ∷ d else (j, w) ∷ rest

  pub get_at-put_at :
      (k j : ℕ) (v : V) (d : List (ℕ × V))
      → get_at (put_at k v d) j ≡ (if nat_eq k j then some v else get_at d j)
  unfolding get_at put_at
  get_at-put_at k j v [] = refl
  get_at-put_at k j v ((i, w) ∷ d) = ground (arith, get_at-put_at k j v d)
