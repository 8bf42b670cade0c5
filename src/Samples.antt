-- ===== src/Samples.antt =====
-- Data that the tests share: a toy signature scheme, keys, and a feed with each operation.
use llm_errata.Prelude.{
  ℕ, zero, suc, ◌+◌, ◌%◌, Bool, true, false, ◌&&◌, nat_eq, none, some, List, [], ◌∷◌, String, Dict,
}
use llm_errata.Signing.{Crypto, Signer, VerificationKey}
use llm_errata.Errata.{supersede, erase, Erratum, RootRegistry, Owner, one_key}

abbrev sum_of : List ℕ → ℕ
sum_of [] = 7
sum_of (x ∷ xs) = x + sum_of xs

abbrev toy_sign : List ℕ → List ℕ → List ℕ
toy_sign seed message = (sum_of message % 256) ∷ seed

abbrev same_bytes : List ℕ → List ℕ → Bool
same_bytes [] [] = true
same_bytes (m ∷ ms) (n ∷ ns) = nat_eq m n && same_bytes ms ns
same_bytes _ _ = false

abbrev zeros : ℕ → List ℕ
zeros zero = []
zeros (suc n) = 0 ∷ zeros n

-- The "signature" is a checksum in front of the key. It is a scheme in form only.
abbrev pub toy : Crypto
toy = record {
  sha256 = λ bytes. (sum_of bytes % 256) ∷ zeros 31;
  public_key = λ seed. seed;
  sign = toy_sign;
  verify = λ key message signature. same_bytes signature (toy_sign key message);
}

abbrev pub owner_signer : Signer
owner_signer = record { seed = 5 ∷ 6 ∷ []; key_id = "owner" }

abbrev pub owner_key : VerificationKey
owner_key = record { public_bytes = 5 ∷ 6 ∷ []; key_id = "owner" }

abbrev pub next_key : VerificationKey
next_key = record { public_bytes = 8 ∷ []; key_id = "owner-2" }

abbrev pub owner : Owner
owner = one_key owner_key

abbrev pub roots : RootRegistry
roots = record { roots = "mem_01HX" ∷ "mem_02KP" ∷ [] }

abbrev pub triad : Dict String
triad = ("negative", "vegetarian") ∷ ("positive", "omnivore") ∷ ("preserve", "quiet|cat") ∷ []

abbrev pub first_erratum : Erratum
first_erratum = record {
  erratum_id = "e1";
  sequence = 1;
  target_root = "mem_01HX";
  operation = supersede;
  valid_from = "2026-01-01T00:00:00Z";
  postconditions = triad;
  replacement = some "is omnivore";
  signing_key_id = some "owner";
  signature = some "5e0506";
}

-- The second event retires another root for good; the third claims its sequence.
abbrev pub second_erratum : Erratum
second_erratum = record {
  erratum_id = "e2";
  sequence = 2;
  target_root = "mem_02KP";
  operation = erase;
  valid_from = "2026-02-01T00:00:00Z";
  postconditions = ("negative", "quiet") ∷ ("preserve", "cat") ∷ [];
  replacement = none;
  signing_key_id = some "owner";
  signature = some "370506";
}

abbrev pub rival_erratum : Erratum
rival_erratum = record second_erratum { erratum_id = "e2b"; signature = some "990506" }
