-- ===== src/Ed25519/Tests.antt =====
-- A signature that verifies, and the theorem about `verify` at it.
use llm_errata.Prelude.{ℕ, zero, suc, ◌<◌, ◌≡◌, refl, true, some, List, [], ◌∷◌, ◌++◌, length}
use llm_errata.Ed25519.{ladder, group_order, Point}
use llm_errata.Ed25519.Keys.{
  from_little, first_bytes, later_bytes, decompress, verify, balanced, recover_x, base,
}
use llm_errata.Ed25519
use llm_errata.Ed25519.Bytes.{verify-strict}

abbrev zeros : ℕ → List ℕ
zeros zero = []
zeros (suc n) = 0 ∷ zeros n

abbrev constant_hash : List ℕ → List ℕ
constant_hash message = zeros 64

-- The encoding of the neutral point, as a key and as the first half of a signature.
abbrev neutral_key : List ℕ
neutral_key = 1 ∷ zeros 31

abbrev signature : List ℕ
signature = neutral_key ++ zeros 32

neutral_verifies : verify constant_hash neutral_key (7 ∷ []) signature ≡ true
unfolding verify balanced decompress recover_x from_little first_bytes later_bytes base
    Ed25519.scalar_mult Ed25519.add_points ladder Ed25519.minus_mod Ed25519.inverse
    Ed25519.power_mod Ed25519.curve_d Ed25519.root_of_minus_one
neutral_verifies = refl

verify-strict_example :
    (length signature ≡ 64)
    × (length neutral_key ≡ 32)
    × (from_little (later_bytes 32 signature) < group_order)
    × ((p : Point) × (decompress neutral_key ≡ some p))
    × ((r : Point) × (decompress (first_bytes 32 signature) ≡ some r))
verify-strict_example = verify-strict constant_hash neutral_key (7 ∷ []) signature neutral_verifies
