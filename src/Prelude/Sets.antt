-- ===== src/Prelude/Sets.antt =====
-- Python's sets of texts, as lists that hold no text twice. Nothing reads the order of a set
-- that it was not sorted for, so the order is free.
use mathlib.Core.Path.{◌≡◌, refl}
use mathlib.Core.Bool.{Bool, true, false, not, ◌&&◌, ◌||◌}
use mathlib.Core.Logic.{inl, inr}
use mathlib.Core.List.{List, [], ◌∷◌, ◌++◌}
use native.Mathlib.Omega.{arith}
use Prim.Native.String.{String}
use llm_errata.Prelude.Tests.{if◌then◌else◌, Bool-cases}
use llm_errata.Prelude.Text.{◌==◌, eq_iff, eq_refl}

-- k in xs
unfoldable pub contains : List String → String → Bool
contains [] k = false
contains (x ∷ xs) k = (x == k) || contains xs k

-- xs.add(k)
unfoldable pub add : String → List String → List String
unfolding contains
add k xs = if contains xs k then xs else k ∷ xs

-- xs.update(ks)
unfoldable pub update : List String → List String → List String
update [] xs = xs
update (k ∷ ks) xs = update ks (add k xs)

-- xs.discard(k)
unfoldable pub discard : String → List String → List String
discard k [] = []
discard k (x ∷ xs) = let rest = discard k xs in if x == k then rest else x ∷ rest

-- all(test(x) for x in xs), any(test(x) for x in xs) and the filtered comprehension
unfoldable pub every {ℓ} : {A : Type ℓ} → (A → Bool) → List A → Bool
every p [] = true
every p (x ∷ xs) = p x && every p xs

unfoldable pub some_of {ℓ} : {A : Type ℓ} → (A → Bool) → List A → Bool
some_of p [] = false
some_of p (x ∷ xs) = p x || some_of p xs

unfoldable pub select {ℓ} : {A : Type ℓ} → (A → Bool) → List A → List A
select p [] = []
select p (x ∷ xs) = let rest = select p xs in if p x then x ∷ rest else rest

-- xs.issubset(ys)
abbrev pub subset : List String → List String → Bool
subset xs ys = every (contains ys) xs

-- bool(xs & ys)
abbrev pub intersects : List String → List String → Bool
intersects xs ys = some_of (contains ys) xs

-- xs - ys
abbrev pub minus : List String → List String → List String
minus xs ys = select (λ x. not (contains ys x)) xs

abbrev pub is_empty {ℓ} : {A : Type ℓ} → List A → Bool
is_empty [] = true
is_empty (x ∷ xs) = false

pub contains-add :
    (k j : String) (xs : List String) → contains (add k xs) j ≡ ((k == j) || contains xs j)
unfolding add
contains-add k j xs = ground (arith, eq_iff k j)

pub contains-update :
    (ks xs : List String) (j : String)
    → contains (update ks xs) j ≡ (contains ks j || contains xs j)
unfolding update contains
contains-update [] xs j = refl
contains-update (k ∷ ks) xs j = ground (arith, contains-update ks (add k xs) j, contains-add k j xs)

pub contains-discard :
    (k j : String) (xs : List String) → contains (discard k xs) j ≡ (not (k == j) && contains xs j)
unfolding discard contains
contains-discard k j [] = ground arith
contains-discard k j (x ∷ xs) =
    ground (arith, contains-discard k j xs, eq_iff x k, eq_iff x j, eq_iff k j)

pub contains-append :
    (xs ys : List String) (j : String) → contains (xs ++ ys) j ≡ (contains xs j || contains ys j)
unfolding contains
contains-append [] ys j = refl
contains-append (x ∷ xs) ys j = ground (arith, contains-append xs ys j)

pub contains-select :
    (p : String → Bool) (xs : List String) (j : String)
    → contains (select p xs) j ≡ (p j && contains xs j)
unfolding select contains
contains-select p [] j = ground arith
contains-select p (x ∷ xs) j = ground (arith, contains-select p xs j, eq_iff x j)

pub every-contains :
    (p : String → Bool) (xs : List String) (j : String)
    → every p xs ≡ true
    → contains xs j ≡ true
    → p j ≡ true
unfolding every contains
every-contains p [] j h m = cc
every-contains p (x ∷ xs) j h m = ground (arith, every-contains p xs j, eq_iff x j)

pub some_of-witness :
    (p : String → Bool) (xs : List String)
    → some_of p xs ≡ true
    → (x : String) × (contains xs x ≡ true) × (p x ≡ true)
unfolding some_of contains
some_of-witness p [] h = cc
some_of-witness p (x ∷ xs) h = elim (Bool-cases (p x)) [
  | inl e ↦ (x, ground (arith, eq_refl x), e)
  | inr e ↦ let (y, m, q) = some_of-witness p xs (rw (e, some_of) at h) in (y, ground arith, q)
]

pub some_of-contains :
    (p : String → Bool) (xs : List String) (x : String)
    → contains xs x ≡ true
    → p x ≡ true
    → some_of p xs ≡ true
unfolding some_of contains
some_of-contains p [] x m h = cc
some_of-contains p (y ∷ xs) x m h = ground (arith, some_of-contains p xs x, eq_iff y x)

-- A set holds no text twice.
abbrev pub IsUnique : List String → Type 0
IsUnique [] = Unit
IsUnique (x ∷ xs) = (contains xs x ≡ false) × IsUnique xs

pub add-IsUnique : (k : String) (xs : List String) → IsUnique xs → IsUnique (add k xs)
unfolding add
add-IsUnique k xs h = ground arith

pub update-IsUnique : (ks xs : List String) → IsUnique xs → IsUnique (update ks xs)
unfolding update
update-IsUnique [] xs h = h
update-IsUnique (k ∷ ks) xs h = update-IsUnique ks (add k xs) (add-IsUnique k xs h)

pub select-IsUnique : (p : String → Bool) (xs : List String) → IsUnique xs → IsUnique (select p xs)
unfolding select
select-IsUnique p [] h = h
select-IsUnique p (x ∷ xs) h = ground (arith, select-IsUnique p xs h.1, contains-select p xs x)
