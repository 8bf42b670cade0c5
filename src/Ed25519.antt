-- ===== src/Ed25519.antt =====
-- prototype/ed25519.py: signatures by RFC 8032, over the natural numbers. SHA-512 is a parameter.
pub mod Keys
pub mod Bytes
pub mod Tests
use llm_errata.Prelude.{
  ℕ, zero, suc, ◌+◌, ◌-◌, ◌*◌, ◌/◌, ◌%◌, ◌^◌, Bool, true, false, not, ◌&&◌, ◌||◌, Option, none,
  some, List, [], ◌∷◌, ◌++◌, length, nat_eq, leb, ltb, if◌then◌else◌,
}
use llm_errata.Errors.{Result, ok, raise, value_error, ◌>>=◌}

-- P and Q
abbrev pub field_order : ℕ
field_order = 57896044618658097711785492504343953926634992332820282019728792003956564819949

abbrev pub group_order : ℕ
group_order = 7237005577332262213973186563042994240857116359379907606001950938285454250989

-- (a - b) % P, where Python's numbers go below zero
unfoldable pub minus_mod : ℕ → ℕ → ℕ
minus_mod a b = (a + (field_order - b % field_order)) % field_order

-- pow(x, n, P), by squaring: `fuel` is the number of binary digits of the largest exponent.
power_loop : ℕ → ℕ → ℕ → ℕ → ℕ
power_loop zero x n acc = acc
power_loop (suc fuel) x n acc =
    power_loop fuel (x * x % field_order) (n / 2)
      (if nat_eq (n % 2) 1 then acc * x % field_order else acc)

unfoldable pub power_mod : ℕ → ℕ → ℕ
unfolding power_loop
power_mod x n = power_loop 256 (x % field_order) n 1

-- _inv
unfoldable pub inverse : ℕ → ℕ
unfolding power_mod
inverse x = power_mod x (field_order - 2)

-- D and I
unfoldable pub curve_d : ℕ
unfolding inverse minus_mod
curve_d = minus_mod 0 (121665 * inverse 121666)

unfoldable pub root_of_minus_one : ℕ
unfolding power_mod
root_of_minus_one = power_mod 2 ((field_order - 1) / 4)

pub record Point : Type 0 where
  pub x : ℕ
  pub y : ℕ
  pub z : ℕ
  pub t : ℕ

-- _add
unfoldable pub add_points : Point → Point → Point
unfolding minus_mod curve_d
add_points a b =
    let aa = minus_mod a.y a.x * minus_mod b.y b.x % field_order in
    let bb = (a.y + a.x) * (b.y + b.x) % field_order in
    let cc = 2 * a.t * b.t * curve_d % field_order in
    let dd = 2 * a.z * b.z % field_order in
    let e = minus_mod bb aa in
    let f = minus_mod dd cc in
    let g = dd + cc in
    let h = bb + aa in
    record {
      x = e * f % field_order;
      y = g * h % field_order;
      z = f * g % field_order;
      t = e * h % field_order;
    }

abbrev pub neutral : Point
neutral = record { x = 0; y = 1; z = 1; t = 0 }

-- The loop of `_scalar_mult`, for any addition. A scalar of n has at most n binary digits.
unfoldable pub ladder {ℓ} : {A : Type ℓ} → (A → A → A) → ℕ → A → A → ℕ → A
ladder plus zero result addend scalar = result
ladder plus (suc fuel) result addend scalar =
    let sum = if nat_eq (scalar % 2) 1 then plus result addend else result in
    let rest = ladder plus fuel sum (plus addend addend) (scalar / 2) in
    if nat_eq scalar 0 then result else rest

-- Scalars lie below 2 ^ 255.
unfoldable pub scalar_mult : Point → ℕ → Point
unfolding ladder add_points
scalar_mult point scalar = ladder add_points 256 neutral point scalar
