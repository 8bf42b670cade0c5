-- ===== src/Prelude/Emptiness.antt =====
-- When sets and lists that are put together are empty, and tests on every element.
use mathlib.Core.Path.{◌≡◌, refl, ◌∙◌}
use mathlib.Core.Bool.{Bool, true, false, ◌&&◌}
use mathlib.Core.List.{List, [], ◌∷◌, ◌++◌, Memᴰ}
use native.Mathlib.Omega.{arith}
use Prim.Native.String.{String}
use llm_errata.Prelude.Sets.{contains, contains-update, add, update, every, is_empty}
use llm_errata.Prelude.Text.{eq_refl}
use llm_errata.Prelude.Sort.{sort, is_empty-sort}

pub add-not_empty : (k : String) (xs : List String) → is_empty (add k xs) ≡ false
unfolding add contains
add-not_empty k [] = refl
add-not_empty k (x ∷ xs) = ground arith

pub is_empty-append {ℓ} :
    {A : Type ℓ} (xs ys : List A) → is_empty (xs ++ ys) ≡ (is_empty xs && is_empty ys)
is_empty-append [] ys = refl
is_empty-append (x ∷ xs) ys = refl

pub is_empty-update : (ks xs : List String) → is_empty (update ks xs) ≡ (is_empty ks && is_empty xs)
unfolding update
is_empty-update [] xs = refl
is_empty-update (k ∷ ks) xs = ground (arith, is_empty-update ks (add k xs), add-not_empty k xs)

pub is_empty-parts :
    (xs ys zs : List String)
    → is_empty (sort (update (xs ++ ys ++ zs) [])) ≡ (is_empty xs && is_empty ys && is_empty zs)
is_empty-parts xs ys zs =
    is_empty-sort (update (xs ++ ys ++ zs) [])
    ∙ is_empty-update (xs ++ ys ++ zs) []
    ∙ ground (arith, is_empty-append xs (ys ++ zs), is_empty-append ys zs)

pub every-mem {ℓ} :
    {A : Type ℓ} (test : A → Bool) {x : A} {xs : List A}
    → every test xs ≡ true
    → Memᴰ x xs
    → test x ≡ true
unfolding every
every-mem test h (Memᴰ.head {x = y} e) = rw e (ground arith)
every-mem test h (Memᴰ.tail m) = every-mem test (ground arith) m

pub every_of_mem {ℓ} :
    {A : Type ℓ} (test : A → Bool) (xs : List A)
    → ((x : A) → Memᴰ x xs → test x ≡ true)
    → every test xs ≡ true
unfolding every
every_of_mem test [] h = refl
every_of_mem test (x ∷ xs) h =
    ground (arith, h x (Memᴰ.head refl), every_of_mem test xs (λ y m. h y (Memᴰ.tail m)))

pub and_of : {a b : Bool} → a ≡ true → b ≡ true → (a && b) ≡ true
and_of p q = rw (p, q) refl

pub every-append {ℓ} :
    {A : Type ℓ} (test : A → Bool) (xs ys : List A)
    → every test (xs ++ ys) ≡ (every test xs && every test ys)
unfolding every
every-append test [] ys = refl
every-append test (x ∷ xs) ys = ground (arith, every-append test xs ys)

pub every_mono {ℓ} :
    {A : Type ℓ} (p q : A → Bool) (xs : List A)
    → ((x : A) → p x ≡ true → q x ≡ true)
    → every p xs ≡ true
    → every q xs ≡ true
unfolding every
every_mono p q [] h e = refl
every_mono p q (x ∷ xs) h e = ground (arith, h x, every_mono p q xs h)

pub every-contains_self : (xs : List String) → every (contains xs) xs ≡ true
unfolding every contains
every-contains_self [] = refl
every-contains_self (x ∷ xs) = ground (
  arith,
  eq_refl x,
  every_mono (contains xs) (contains (x ∷ xs)) xs (λ y h. ground arith) (every-contains_self xs),
)

-- What is added to a set is in it.
pub every-update : (ids held : List String) → every (contains (update ids held)) ids ≡ true
every-update ids held =
    every_mono (contains ids) (contains (update ids held)) ids
      (λ y h. ground (arith, contains-update ids held y)) (every-contains_self ids)
