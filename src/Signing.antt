-- ===== src/Signing.antt =====
-- prototype/signing.py: canonical bytes, commitments, and keys. Ed25519 and SHA-256 come in as the
-- interface `Crypto`.
use llm_errata.Prelude.{
  ℕ, ◌+◌, ◌-◌, ◌*◌, ◌/◌, ◌%◌, Bool, true, false, ◌&&◌, ◌||◌, Option, none, some, List, [], ◌∷◌,
  ◌++◌, String, leb, nat_eq, length, if◌then◌else◌, hex_char,
}
use llm_errata.Json.{Json, dumps, encode, codes}

-- `hashlib.sha256` with its hexadecimal digest, and prototype/ed25519.py by its three functions.
pub record Crypto : Type 0 where
  pub sha256 : List ℕ → List ℕ
  pub public_key : List ℕ → List ℕ
  pub sign : List ℕ → List ℕ → List ℕ
  pub verify : List ℕ → List ℕ → List ℕ → Bool

unfoldable pub canonical_bytes : Json → List ℕ
canonical_bytes = dumps true

-- data.hex()
unfoldable pub to_hex : List ℕ → String
unfolding hex_char
to_hex [] = ""
to_hex (b ∷ bs) = String.◌∷◌ (hex_char (b / 16)) (String.◌∷◌ (hex_char (b % 16)) (to_hex bs))

from_digit : ℕ → Option ℕ
from_digit c =
    if leb b'0' c && leb c b'9'
    then some (c - b'0')
    else if leb b'a' c && leb c b'f'
    then some (c - b'a' + 10)
    else if leb b'A' c && leb c b'F'
    then some (c - b'A' + 10)
    else none

-- The ASCII space characters, which `bytes.fromhex` skips between bytes.
is_space : ℕ → Bool
is_space c = nat_eq c b' ' || (leb 9 c && leb c 13)

abbrev with_byte : Option ℕ → Option ℕ → Option (List ℕ) → Option (List ℕ)
with_byte (some hi) (some lo) (some rest) = some ((16 * hi + lo) ∷ rest)
with_byte _ _ _ = none

-- bytes.fromhex, `none` for its ValueError
unfoldable pub from_hex : List ℕ → Option (List ℕ)
unfolding from_digit is_space
from_hex [] = some []
from_hex (c ∷ []) = if is_space c then some [] else none
from_hex (c ∷ d ∷ cs) =
    let skipped = from_hex (d ∷ cs) in
    let taken = with_byte (from_digit c) (from_digit d) (from_hex cs) in
    if is_space c then skipped else taken

pub record VerificationKey : Type 0 where
  pub key_id : String
  pub public_bytes : List ℕ

pub record Signer : Type 0 where
  pub seed : List ℕ
  pub key_id : String

module _ (crypto : Crypto) where
  open crypto use {sha256, public_key, sign, verify}

  -- The bytes under a commitment: each part, and a unit separator behind it.
  unfoldable pub separated : List String → List ℕ
  separated [] = []
  separated (p ∷ ps) = encode p ++ 0x1f ∷ separated ps

  unfoldable pub commitment : List String → String
  unfolding separated to_hex
  commitment parts = to_hex (sha256 (separated parts))

  checked : VerificationKey → List ℕ → Option (List ℕ) → Bool
  checked key message none = false
  checked key message (some raw) = verify key.public_bytes message raw

  -- VerificationKey.verify: text that is no hexadecimal is a refusal.
  unfoldable pub verifies : VerificationKey → Json → String → Bool
  unfolding checked canonical_bytes from_hex
  verifies key payload signature =
      checked key (canonical_bytes payload) (from_hex (codes signature))

  -- Ed25519Signer.__init__: a seed of another length is hashed.
  unfoldable pub make_signer : List ℕ → String → Signer
  make_signer seed key_id = record {
    seed = if nat_eq (length seed) 32 then seed else sha256 seed;
    key_id = key_id;
  }

  unfoldable pub public : Signer → VerificationKey
  public s = record { key_id = s.key_id; public_bytes = public_key s.seed }

  unfoldable pub sign_payload : Signer → Json → String
  unfolding to_hex canonical_bytes
  sign_payload s payload = to_hex (sign s.seed (canonical_bytes payload))
