-- ===== src/Ed25519/Keys.antt =====
-- ed25519.py: points as bytes, keys, `sign` and `verify`.
use llm_errata.Prelude.{
  ℕ, zero, suc, ◌+◌, ◌-◌, ◌*◌, ◌/◌, ◌%◌, ◌^◌, Bool, false, not, ◌&&◌, ◌||◌, Option, none, some,
  List, [], ◌∷◌, ◌++◌, length, nat_eq, leb, if◌then◌else◌,
}
use llm_errata.Errors.{Result, ok, raise, value_error, ◌>>=◌}
use llm_errata.Signing.{Crypto}
use llm_errata.Ed25519.{
  field_order, group_order, minus_mod, power_mod, inverse, curve_d, root_of_minus_one, Point,
  add_points, scalar_mult,
}

-- int.from_bytes(…, "little")
unfoldable pub from_little : List ℕ → ℕ
from_little [] = 0
from_little (b ∷ bs) = b + 256 * from_little bs

-- int.to_bytes(n, size, "little")
unfoldable pub to_little : ℕ → ℕ → List ℕ
to_little zero n = []
to_little (suc size) n = n % 256 ∷ to_little size (n / 256)

unfoldable pub first_bytes : ℕ → List ℕ → List ℕ
first_bytes zero bs = []
first_bytes (suc n) [] = []
first_bytes (suc n) (b ∷ bs) = b ∷ first_bytes n bs

unfoldable pub later_bytes : ℕ → List ℕ → List ℕ
later_bytes zero bs = bs
later_bytes (suc n) [] = []
later_bytes (suc n) (b ∷ bs) = later_bytes n bs

-- (x * x - xx) % P == 0
abbrev is_root : ℕ → ℕ → Bool
is_root x xx = nat_eq (minus_mod (x * x) xx) 0

abbrev of_sign : ℕ → ℕ → ℕ
of_sign sign x = if nat_eq (x % 2) sign then x else field_order - x

-- _recover_x
unfoldable pub recover_x : ℕ → ℕ → Option ℕ
unfolding inverse minus_mod power_mod curve_d root_of_minus_one
recover_x y sign =
    let xx = minus_mod (y * y) 1 * inverse (curve_d * y * y + 1) % field_order in
    let candidate = power_mod xx ((field_order + 3) / 8) in
    let x =
      if is_root candidate xx then candidate else candidate * root_of_minus_one % field_order in
    if leb field_order y
    then none
    else if nat_eq xx 0
    then (if nat_eq sign 0 then some 0 else none)
    else if is_root x xx
    then some (of_sign sign x)
    else none

abbrev value_or : ℕ → Option ℕ → ℕ
value_or n none = n
value_or n (some m) = m

-- BASE; the `assert` holds for the curve.
unfoldable pub base : Point
unfolding inverse recover_x
base =
    let y = 4 * inverse 5 % field_order in
    let x = value_or 0 (recover_x y 0) in record { x = x; y = y; z = 1; t = x * y % field_order }

-- _compress; `y` lies below 2 ^ 255, so the sign bit is added.
unfoldable pub compress : Point → List ℕ
unfolding inverse to_little
compress p =
    let zi = inverse p.z in
    let x = p.x * zi % field_order in
    let y = p.y * zi % field_order in to_little 32 (y + x % 2 * 2 ^ 255)

abbrev at_height : ℕ → Option ℕ → Option Point
at_height y none = none
at_height y (some x) = some (record { x = x; y = y; z = 1; t = x * y % field_order })

-- _decompress
unfoldable pub decompress : List ℕ → Option Point
unfolding from_little recover_x
decompress encoded =
    let value = from_little encoded in
    let y = value % 2 ^ 255 in
    if nat_eq (length encoded) 32 then at_height y (recover_x y (value / 2 ^ 255)) else none

module _ (sha512 : List ℕ → List ℕ) where
  -- _secret_expand: the mask clears the three low bits and the bits from 254 on.
  unfoldable pub secret_expand : List ℕ → Result (ℕ × List ℕ)
  unfolding from_little first_bytes later_bytes
  secret_expand seed =
      let digest = sha512 seed in
      let scalar = from_little (first_bytes 32 digest) in
      if nat_eq (length seed) 32
      then ok (scalar % 2 ^ 254 / 8 * 8 + 2 ^ 254, later_bytes 32 digest)
      else raise value_error

  unfoldable pub public_key : List ℕ → Result (List ℕ)
  unfolding secret_expand base scalar_mult compress
  public_key seed = do expanded ← secret_expand seed; ok (compress (scalar_mult base expanded.0))

  unfoldable pub sign : List ℕ → List ℕ → Result (List ℕ)
  unfolding secret_expand base scalar_mult compress from_little to_little
  sign seed message = do
    expanded ← secret_expand seed
    let encoded_public = compress (scalar_mult base expanded.0)
    let r = from_little (sha512 (expanded.1 ++ message)) % group_order
    let encoded_r = compress (scalar_mult base r)
    let k = from_little (sha512 (encoded_r ++ encoded_public ++ message)) % group_order
    ok (encoded_r ++ to_little 32 ((r + k * expanded.0) % group_order))

  -- The equation behind the checks of `verify`, on the two points.
  unfoldable pub balanced : List ℕ → List ℕ → List ℕ → ℕ → Option Point → Option Point → Bool
  unfolding minus_mod base scalar_mult add_points from_little
  balanced encoded_public encoded_r message s (some point) (some r_point) =
      let k = from_little (sha512 (encoded_r ++ encoded_public ++ message)) % group_order in
      let left = scalar_mult base s in
      let right = add_points r_point (scalar_mult point k) in
      nat_eq (minus_mod (left.x * right.z) (right.x * left.z)) 0
      && nat_eq (minus_mod (left.y * right.z) (right.y * left.z)) 0
  balanced encoded_public encoded_r message s _ _ = false

  unfoldable pub verify : List ℕ → List ℕ → List ℕ → Bool
  unfolding balanced decompress from_little first_bytes later_bytes
  verify encoded_public message signature =
      let encoded_r = first_bytes 32 signature in
      let s = from_little (later_bytes 32 signature) in
      if not (nat_eq (length signature) 64) || not (nat_eq (length encoded_public) 32)
      then false
      else if leb group_order s
      then false
      else balanced encoded_public encoded_r message s (decompress encoded_public)
          (decompress encoded_r)

  abbrev or_empty : Result (List ℕ) → List ℕ
  or_empty (ok bs) = bs
  or_empty (raise e) = []

  -- The scheme that prototype/signing.py uses. Its seeds have 32 bytes.
  unfoldable pub ed25519 : (List ℕ → List ℕ) → Crypto
  unfolding public_key sign verify
  ed25519 sha256 = record {
    sha256 = sha256;
    public_key = λ seed. or_empty (public_key seed);
    sign = λ seed message. or_empty (sign seed message);
    verify = verify;
  }
