-- ===== src/Prelude/Dicts.antt =====
-- Python's `dict` with text keys, in insertion order: a write to a key that is there keeps its
-- place.
use mathlib.Core.Path.{◌≡◌, refl, subst}
use mathlib.Core.Bool.{true, false, ◌||◌}
use mathlib.Core.Logic.{inl, inr}
use mathlib.Core.List.{List, [], ◌∷◌}
use mathlib.Core.Option.{Option, none, some}
use native.Mathlib.Omega.{arith}
use Prim.Native.String.{String}
use llm_errata.Prelude.Tests.{if◌then◌else◌, Bool-cases, All}
use llm_errata.Prelude.Text.{◌==◌, eq_iff, eq_refl}
use llm_errata.Prelude.Sets.{contains, IsUnique}

abbrev pub Dict {ℓ} : Type ℓ → Type ℓ
Dict V = List (String × V)

module _ {ℓ} {V : Type ℓ} where
  -- d.get(k)
  unfoldable pub get : Dict V → String → Option V
  get [] k = none
  get ((j, v) ∷ d) k = if j == k then some v else get d k

  -- d[k] = v
  unfoldable pub put : String → V → Dict V → Dict V
  put k v [] = (k, v) ∷ []
  put k v ((j, w) ∷ d) = let rest = put k v d in if j == k then (j, v) ∷ d else (j, w) ∷ rest

  -- d.pop(k, None)
  unfoldable pub pop : String → Dict V → Dict V
  pop k [] = []
  pop k ((j, w) ∷ d) = let rest = pop k d in if j == k then rest else (j, w) ∷ rest

  -- d.keys(), d.values()
  unfoldable pub keys : Dict V → List String
  keys [] = []
  keys ((k, v) ∷ d) = k ∷ keys d

  unfoldable pub values : Dict V → List V
  values [] = []
  values ((k, v) ∷ d) = v ∷ values d

  pub get-put :
      (k j : String) (v : V) (d : Dict V) → get (put k v d) j ≡ (if k == j then some v else get d j)
  unfolding get put
  get-put k j v [] = refl
  get-put k j v ((i, w) ∷ d) = ground (arith, eq_iff k j, eq_iff i k, eq_iff i j, get-put k j v d)

  pub get-pop : (k j : String) (d : Dict V) → get (pop k d) j ≡ (if k == j then none else get d j)
  unfolding get pop
  get-pop k j [] = ground arith
  get-pop k j ((i, w) ∷ d) = ground (arith, eq_iff k j, eq_iff i k, eq_iff i j, get-pop k j d)

  pub keys-put :
      (k j : String) (v : V) (d : Dict V)
      → contains (keys (put k v d)) j ≡ ((k == j) || contains (keys d) j)
  unfolding put keys contains
  keys-put k j v [] = refl
  keys-put k j v ((i, w) ∷ d) = ground (arith, eq_iff i k, eq_iff k j, keys-put k j v d)

  pub put-IsUnique :
      (k : String) (v : V) (d : Dict V) → IsUnique (keys d) → IsUnique (keys (put k v d))
  unfolding put keys contains
  put-IsUnique k v [] h = (refl, tt)
  put-IsUnique k v ((i, w) ∷ d) h = elim (Bool-cases (i == k)) [
    | inl e ↦ rw e h
    | inr e ↦
        rw e (ground (arith, eq_iff i k, eq_iff k i, keys-put k i v d), put-IsUnique k v d h.1)
  ]

  -- A key is there exactly when `get` finds it.
  pub contains-keys :
      (d : Dict V) (k : String) (v : V) → get d k ≡ some v → contains (keys d) k ≡ true
  unfolding get keys contains
  contains-keys [] k v h = cc
  contains-keys ((j, w) ∷ d) k v h = ground (arith, contains-keys d k v)

  pub get_of_not-contains : (d : Dict V) (k : String) → contains (keys d) k ≡ false → get d k ≡ none
  unfolding get keys contains
  get_of_not-contains [] k h = refl
  get_of_not-contains ((j, w) ∷ d) k h = ground (arith, get_of_not-contains d k)

  pub get_of_contains :
      (d : Dict V) (k : String) → contains (keys d) k ≡ true → (v : V) × (get d k ≡ some v)
  unfolding get keys contains
  get_of_contains [] k h = cc
  get_of_contains ((j, w) ∷ d) k h = elim (Bool-cases (j == k)) [
    | inl e ↦ (w, rw e)
    | inr e ↦ let (v, found) = get_of_contains d k (rw e at h) in (v, rw e found)
  ]

-- In a dict with unique keys, the values are what `get` finds.
pub All-values {ℓ κ} :
    {V : Type ℓ} (P : V → Type κ) (d : Dict V)
    → IsUnique (keys d)
    → ((k : String) (v : V) → get d k ≡ some v → P v)
    → All P (values d)
unfolding get keys values
All-values P [] u h = tt
All-values {V = V} P ((j, w) ∷ d) u h = (
  h j w (rw (eq_refl j)),
  All-values P d u.1 (λ k v e. h k v (ground (arith, eq_iff j k, contains-keys d k v))),
)

pub All-get {ℓ κ} :
    {V : Type ℓ} (P : V → Type κ) (d : Dict V) (k : String) (v : V)
    → All P (values d)
    → get d k ≡ some v
    → P v
unfolding get values
All-get P [] k v h e = cc
All-get P ((j, w) ∷ d) k v h e = elim (Bool-cases (j == k)) [
  | inl hit ↦ subst P (ground arith) h.0
  | inr miss ↦ All-get P d k v h.1 (rw (miss, get) at e)
]
