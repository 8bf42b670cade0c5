-- ===== src/Prelude/Sort.antt =====
-- Python's `sorted` on texts: stable, ascending by code points.
use mathlib.Core.Path.{◌≡◌, refl, ap₂}
use mathlib.Core.Bool.{true, false, ◌&&◌, ◌||◌}
use mathlib.Core.Logic.{inl, inr}
use mathlib.Core.List.{List, [], ◌∷◌}
use native.Mathlib.Omega.{arith}
use Prim.Native.String.{String}
use llm_errata.Prelude.Tests.{if◌then◌else◌, Bool-cases}
use llm_errata.Prelude.Text.{
  ◌==◌, eq_iff, eq_refl, eq_comm, str_lt, str_lt_trans, str_lt_total, str_lt_asym, ne_of_str_lt,
}
use llm_errata.Prelude.Sets.{contains, every, IsUnique, is_empty}

module _ {ℓ} {A : Type ℓ} (key : A → String) where
  insert_by : A → List A → List A
  insert_by x [] = x ∷ []
  insert_by x (y ∷ ys) = if str_lt (key y) (key x) then y ∷ insert_by x ys else x ∷ y ∷ ys

  -- sorted(xs, key=key)
  unfoldable pub sort_by : List A → List A
  unfolding insert_by
  sort_by [] = []
  sort_by (x ∷ xs) = insert_by x (sort_by xs)

-- sorted(xs)
abbrev pub sort : List String → List String
sort = sort_by (λ x. x)

abbrev same : String → String
same x = x

contains-insert :
    (x k : String) (ys : List String)
    → contains (insert_by same x ys) k ≡ ((x == k) || contains ys k)
unfolding insert_by contains
contains-insert x k [] = refl
contains-insert x k (y ∷ ys) = ground (arith, contains-insert x k ys)

pub contains-sort : (xs : List String) (k : String) → contains (sort xs) k ≡ contains xs k
unfolding sort_by contains
contains-sort [] k = refl
contains-sort (x ∷ xs) k = ground (arith, contains-insert x k (sort xs), contains-sort xs k)

-- Strictly ascending: in order, and no text twice.
abbrev pub IsAscending : List String → Type 0
IsAscending [] = Unit
IsAscending (x ∷ xs) = (every (str_lt x) xs ≡ true) × IsAscending xs

every-insert :
    (z x : String) (ys : List String)
    → every (str_lt z) (insert_by same x ys) ≡ (str_lt z x && every (str_lt z) ys)
unfolding insert_by every
every-insert z x [] = refl
every-insert z x (y ∷ ys) = ground (arith, every-insert z x ys)

-- What is above `y` is above all below `y`.
every_trans :
    (x y : String) (ys : List String)
    → str_lt x y ≡ true
    → every (str_lt y) ys ≡ true
    → every (str_lt x) ys ≡ true
unfolding every
every_trans x y [] h k = refl
every_trans x y (z ∷ ys) h k = ground (arith, every_trans x y ys, str_lt_trans x y z)

insert-IsAscending :
    (x : String) (ys : List String)
    → contains ys x ≡ false
    → IsAscending ys
    → IsAscending (insert_by same x ys)
unfolding insert_by every contains
insert-IsAscending x [] h k = (refl, tt)
insert-IsAscending x (y ∷ ys) h k = elim (Bool-cases (str_lt y x)) [
  | inl up ↦ rw up (ground (arith, every-insert y x ys), insert-IsAscending x ys (ground arith) k.1)
  | inr down ↦ rw down (
    ground (arith, str_lt_total y x, every_trans x y ys (str_lt_total y x down (ground arith)) k.0),
    k,
  )
]

-- Sorting a set gives a strictly ascending list.
pub sort-IsAscending : (xs : List String) → IsUnique xs → IsAscending (sort xs)
unfolding sort_by
sort-IsAscending [] h = tt
sort-IsAscending (x ∷ xs) h =
    insert-IsAscending x (sort xs) (ground (arith, contains-sort xs x)) (sort-IsAscending xs h.1)

insert_least :
    (x : String) (ys : List String) → every (str_lt x) ys ≡ true → insert_by same x ys ≡ x ∷ ys
unfolding insert_by every
insert_least x [] h = refl
insert_least x (y ∷ ys) h = ground (arith, str_lt_asym x y)

-- A strictly ascending list is sorted already.
pub sort_of_IsAscending : (xs : List String) → IsAscending xs → sort xs ≡ xs
unfolding sort_by
sort_of_IsAscending [] h = refl
sort_of_IsAscending (x ∷ xs) h = rw (sort_of_IsAscending xs h.1) (insert_least x xs h.0)

not-contains-above :
    (x : String) (xs : List String) → every (str_lt x) xs ≡ true → contains xs x ≡ false
unfolding every contains
not-contains-above x [] h = refl
not-contains-above x (y ∷ xs) h =
    ground (arith, not-contains-above x xs, ne_of_str_lt x y, eq_comm x y)

pub IsAscending-IsUnique : (xs : List String) → IsAscending xs → IsUnique xs
IsAscending-IsUnique [] h = tt
IsAscending-IsUnique (x ∷ xs) h = (not-contains-above x xs h.0, IsAscending-IsUnique xs h.1)

module _ (x y : String) (xs ys : List String) (a : IsAscending (x ∷ xs))
    (b : IsAscending (y ∷ ys)) where
  ascending_head : ((k : String) → contains (x ∷ xs) k ≡ contains (y ∷ ys) k) → x ≡ y
  unfolding contains every
  ascending_head h = ground (
    arith,
    h x,
    h y,
    eq_iff x y,
    eq_comm x y,
    eq_refl x,
    eq_refl y,
    str_lt_total x y,
    every_trans x y ys,
    every_trans y x xs,
    not-contains-above x ys,
    not-contains-above y xs,
  )

  ascending_tail :
      x ≡ y
      → ((k : String) → contains (x ∷ xs) k ≡ contains (y ∷ ys) k)
      → (k : String) → contains xs k ≡ contains ys k
  unfolding contains
  ascending_tail e h k =
      ground (
        arith,
        h k,
        eq_iff x k,
        eq_iff y k,
        not-contains-above x xs a.0,
        not-contains-above y ys b.0,
      )

-- Two strictly ascending lists with the same members are equal, so a sorted set is a canonical form.
pub IsAscending-ext :
    (xs ys : List String)
    → IsAscending xs
    → IsAscending ys
    → ((k : String) → contains xs k ≡ contains ys k)
    → xs ≡ ys
IsAscending-ext [] [] a b h = refl
IsAscending-ext [] (y ∷ ys) a b h = absurd (unfold contains in ground (arith, h y, eq_refl y))
IsAscending-ext (x ∷ xs) [] a b h = absurd (unfold contains in ground (arith, h x, eq_refl x))
IsAscending-ext (x ∷ xs) (y ∷ ys) a b h =
    let e = ascending_head x y xs ys a b h in
    ap₂ ◌∷◌ e (IsAscending-ext xs ys a.1 b.1 (ascending_tail x y xs ys a b e h))

is_empty-insert : (x : String) (ys : List String) → is_empty (insert_by same x ys) ≡ false
unfolding insert_by
is_empty-insert x [] = refl
is_empty-insert x (y ∷ ys) = ground arith

pub is_empty-sort : (xs : List String) → is_empty (sort xs) ≡ is_empty xs
unfolding sort_by
is_empty-sort [] = refl
is_empty-sort (x ∷ xs) = is_empty-insert x (sort xs)
