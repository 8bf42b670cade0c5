-- ===== src/Ed25519/Bytes.antt =====
-- Numbers as bytes, and what `verify` refuses.
use llm_errata.Prelude.{
  ℕ, ◌<◌, ◌≡◌, refl, true, false, not, ◌||◌, Option, none, some, List, length, Bool-cases, inl, inr,
  nat_eq, leb, arith,
}
use llm_errata.Ed25519.{group_order, Point}
use llm_errata.Ed25519.Keys.{from_little, later_bytes, verify, decompress, first_bytes, balanced}

sizes : (m n : ℕ) → (not (nat_eq m 64) || not (nat_eq n 32)) ≡ false → (m ≡ 64) × (n ≡ 32)
sizes m n h = (ground arith, ground arith)

below : (s : ℕ) → leb group_order s ≡ false → s < group_order
below s h = ground arith

balanced-some :
    (sha512 : List ℕ → List ℕ) (encoded_public encoded_r message : List ℕ) (s : ℕ)
    (p r : Option Point)
    → balanced sha512 encoded_public encoded_r message s p r ≡ true
    → ((q : Point) × (p ≡ some q)) × ((q : Point) × (r ≡ some q))
unfolding balanced
balanced-some sha512 encoded_public encoded_r message s (some p) (some r) h = ((p, refl), (r, refl))
balanced-some sha512 encoded_public encoded_r message s (some p) none h = cc
balanced-some sha512 encoded_public encoded_r message s none (some r) h = cc
balanced-some sha512 encoded_public encoded_r message s none none h = cc

-- Only a signature of 64 bytes under a key of 32 is verified, whose scalar lies below the order of
-- the group, and whose key and first half are points. So adding the order of the group to the
-- scalar of a signature never gives another that is verified.
pub verify-strict :
    (sha512 : List ℕ → List ℕ) (encoded_public message signature : List ℕ)
    → verify sha512 encoded_public message signature ≡ true
    → (length signature ≡ 64)
      × (length encoded_public ≡ 32)
      × (from_little (later_bytes 32 signature) < group_order)
      × ((p : Point) × (decompress encoded_public ≡ some p))
      × ((r : Point) × (decompress (first_bytes 32 signature) ≡ some r))
unfolding verify
verify-strict sha512 encoded_public message signature h =
    let encoded_r = first_bytes 32 signature in
    let s = from_little (later_bytes 32 signature) in
    elim (Bool-cases
      (not (nat_eq (length signature) 64) || not (nat_eq (length encoded_public) 32))) [
        | inl bad ↦ cc (rw (bad, verify) at h)
        | inr good ↦ elim (Bool-cases (leb group_order s)) [
          | inl large ↦ cc (rw (large, verify) at (rw (good, verify) at h))
          | inr low ↦
              let (p, r) =
                balanced-some sha512 encoded_public encoded_r message s (decompress encoded_public)
                  (decompress encoded_r) (rw (low, verify) at (rw (good, verify) at h)) in
              let (a, b) = sizes (length signature) (length encoded_public) good in
              (a, b, below s low, p, r)
        ]
      ]
