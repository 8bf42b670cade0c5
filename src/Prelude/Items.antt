-- ===== src/Prelude/Items.antt =====
-- Tests on all items of a dict with unique keys, by what `get` finds.
use mathlib.Core.Path.{◌≡◌, refl}
use mathlib.Core.Bool.{Bool, true, false}
use mathlib.Core.Logic.{inl, inr}
use mathlib.Core.List.{[], ◌∷◌}
use mathlib.Core.Option.{some}
use native.Mathlib.Omega.{arith}
use Prim.Native.String.{String}
use llm_errata.Prelude.Tests.{Bool-cases}
use llm_errata.Prelude.Text.{◌==◌, eq_iff, eq_refl}
use llm_errata.Prelude.Sets.{contains, every, IsUnique}
use llm_errata.Prelude.Dicts.{Dict, get, keys, contains-keys}

module _ {ℓ} {V : Type ℓ} (test : String × V → Bool) where
  pub every-get :
      (d : Dict V) (k : String) (v : V)
      → every test d ≡ true
      → get d k ≡ some v
      → test (k, v) ≡ true
  unfolding every get
  every-get [] k v h e = cc
  every-get ((j, w) ∷ d) k v h e = elim (Bool-cases (j == k)) [
    | inl same ↦ ground (arith, (eq_iff j k).0 same, rw same at e)
    | inr other ↦ every-get d k v (ground arith) (rw other at e)
  ]

  get-cons_tail :
      (j k : String) (w v : V) (d : Dict V)
      → contains (keys d) j ≡ false
      → get d k ≡ some v
      → get ((j, w) ∷ d) k ≡ some v
  unfolding get
  get-cons_tail j k w v d new e = ground (arith, eq_iff j k, contains-keys d k v)

  pub every_of_get :
      (d : Dict V)
      → IsUnique (keys d)
      → ((k : String) (v : V) → get d k ≡ some v → test (k, v) ≡ true)
      → every test d ≡ true
  unfolding every get keys
  every_of_get [] u h = refl
  every_of_get ((j, w) ∷ d) u h = ground (
    arith,
    h j w (rw (eq_refl j)),
    every_of_get d u.1 (λ k v e. h k v (get-cons_tail j k w v d u.0 e)),
  )

  -- A test that fails somewhere fails at a key.
  pub not-every-get :
      (d : Dict V)
      → IsUnique (keys d)
      → every test d ≡ false
      → (k : String) × (v : V) × (get d k ≡ some v) × (test (k, v) ≡ false)
  unfolding every get keys
  not-every-get [] u h = cc
  not-every-get ((j, w) ∷ d) u h = elim (Bool-cases (test (j, w))) [
    | inl good ↦
        let (k, v, e, bad) = not-every-get d u.1 (rw good at h) in
        (k, v, get-cons_tail j k w v d u.0 e, bad)
    | inr bad ↦ (j, w, rw (eq_refl j), bad)
  ]
