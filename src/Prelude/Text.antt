-- ===== src/Prelude/Text.antt =====
-- Python's order on texts, by code points, which is the order of their UTF-8 bytes.
use Prim.Native.Nat.{ℕ, Ordering, compare as compare_ℕ}
use Prim.Native.Char.{code}
use Prim.Native.String.compare
use Prim.Native.String.{String, [], ◌∷◌, compare, then}
use mathlib.Core.Path.{◌≡◌, refl, ◌∙◌, ap, ap₂, sym}
use mathlib.Core.Logic.{◌⊎◌, inl, inr}
use mathlib.Core.Bool.{Bool, true, false}
use native.Mathlib.Omega.{arith}
use text.Mathlib.TextPositions.{compare_refl}
pub use text.Mathlib.Text.{◌==◌}
pub use text.Mathlib.TextEquality.{eq_iff}
pub use text.Mathlib.TextPositions.{eq_refl}

-- s < t
abbrev pub str_lt : String → String → Bool
str_lt s t = elim (compare s t) [ Ordering.lt ↦ true | _ ↦ false ]

flip : Ordering → Ordering
flip Ordering.lt = Ordering.gt
flip Ordering.eq = Ordering.eq
flip Ordering.gt = Ordering.lt

flip-then : (o p : Ordering) → flip (then o p) ≡ then (flip o) (flip p)
unfolding flip
flip-then Ordering.lt p = refl
flip-then Ordering.eq p = refl
flip-then Ordering.gt p = refl

flip-compare_ℕ : (m n : ℕ) → flip (compare_ℕ m n) ≡ compare_ℕ n m
unfolding flip
flip-compare_ℕ m n = ground arith

flip-compare : (s t : String) → flip (compare s t) ≡ compare t s
unfolding flip
flip-compare [] [] = ap flip compare.nil-nil ∙ sym compare.nil-nil
flip-compare [] (d ∷ t) = ap flip (compare.nil-cons d t) ∙ sym (compare.cons-nil d t)
flip-compare (c ∷ s) [] = ap flip (compare.cons-nil c s) ∙ sym (compare.nil-cons c s)
flip-compare (c ∷ s) (d ∷ t) =
    ap flip (compare.cons-cons c d s t)
    ∙ flip-then (compare_ℕ (code c) (code d)) (compare s t)
    ∙ ap₂ then (flip-compare_ℕ (code c) (code d)) (flip-compare s t)
    ∙ sym (compare.cons-cons d c t s)

-- `then o p` is below where `o` is, or where `o` is equal and `p` below.
then-lt :
    (o p : Ordering)
    → then o p ≡ Ordering.lt
    → (o ≡ Ordering.lt) ⊎ ((o ≡ Ordering.eq) × (p ≡ Ordering.lt))
then-lt Ordering.lt p h = inl refl
then-lt Ordering.eq p h = inr (refl, h)
then-lt Ordering.gt p h = cc

code_trans :
    (a b c : ℕ) (p q r : Ordering)
    → then (compare_ℕ a b) p ≡ Ordering.lt
    → then (compare_ℕ b c) q ≡ Ordering.lt
    → (p ≡ Ordering.lt → q ≡ Ordering.lt → r ≡ Ordering.lt)
    → then (compare_ℕ a c) r ≡ Ordering.lt
code_trans a b c p q r h k f = elim (then-lt (compare_ℕ a b) p h) [
  | inl x ↦ elim (then-lt (compare_ℕ b c) q k) [ inl y ↦ ground arith | inr y ↦ ground arith ]
  | inr x ↦ elim (then-lt (compare_ℕ b c) q k) [ inl y ↦ ground arith | inr y ↦ ground arith ]
]

compare_trans :
    (s t u : String)
    → compare s t ≡ Ordering.lt
    → compare t u ≡ Ordering.lt
    → compare s u ≡ Ordering.lt
compare_trans [] [] u h k = cc
compare_trans [] (d ∷ t) [] h k = cc (compare.cons-nil d t)
compare_trans [] (d ∷ t) (e ∷ u) h k = compare.nil-cons e u
compare_trans (c ∷ s) [] u h k = cc (compare.cons-nil c s)
compare_trans (c ∷ s) (d ∷ t) [] h k = cc (compare.cons-nil d t)
compare_trans (c ∷ s) (d ∷ t) (e ∷ u) h k =
    compare.cons-cons c e s u
    ∙ code_trans (code c) (code d) (code e) (compare s t) (compare t u) (compare s u)
        (sym (compare.cons-cons c d s t) ∙ h) (sym (compare.cons-cons d e t u) ∙ k)
        (compare_trans s t u)

pub str_lt_irrefl : (s : String) → str_lt s s ≡ false
str_lt_irrefl s = ground (arith, compare_refl s)

pub str_lt_trans : (s t u : String) → str_lt s t ≡ true → str_lt t u ≡ true → str_lt s u ≡ true
str_lt_trans s t u h k = ground (arith, compare_trans s t u)

-- Of two different texts one is below the other.
pub str_lt_total : (s t : String) → str_lt s t ≡ false → (s == t) ≡ false → str_lt t s ≡ true
unfolding flip
str_lt_total s t h k = ground (arith, flip-compare s t)

pub str_lt_asym : (s t : String) → str_lt s t ≡ true → str_lt t s ≡ false
unfolding flip
str_lt_asym s t h = ground (arith, flip-compare s t)

pub ne_of_str_lt : (s t : String) → str_lt s t ≡ true → (s == t) ≡ false
ne_of_str_lt s t h = ground arith

pub eq_comm : (s t : String) → (s == t) ≡ (t == s)
unfolding flip
eq_comm s t = ground (arith, flip-compare s t)
