-- ===== src/Errata/Schedule.antt =====
-- OwnerKeySchedule: what its constructor accepts, and which key is active at a sequence.
use mathlib.Core.List.{Memᴰ}
use mathlib.Core.List.Memᴰ
use llm_errata.Prelude.{
  ℕ, ◌≤◌, ◌<◌, ◌≡◌, refl, ap, sym, subst, ◌↔◌, ◌⊎◌, inl, inr, true, List, [], ◌∷◌, map, IsUnique,
  All, ltb, Bool-cases, arith, IsUnique-ids_iff,
}
use llm_errata.Errors.{ok, raise, value_error}
use llm_errata.Signing.{VerificationKey}
use llm_errata.Errata.{
  OwnerKeySchedule, insert_new, sorted_set, same_numbers, make_schedule, latest, key_for,
  starts_at_one,
}

abbrev pub IsIncreasing : List ℕ → Type 0
IsIncreasing [] = Unit
IsIncreasing (n ∷ ns) = All (λ m. n < m) ns × IsIncreasing ns

All-insert :
    (b n : ℕ) (ms : List ℕ) → b < n → All (λ m. b < m) ms → All (λ m. b < m) (insert_new n ms)
unfolding insert_new
All-insert b n [] h a = (h, tt)
All-insert b n (m ∷ ms) h a = ground (arith, All-insert b n ms h a.1)

All_mono : (a b : ℕ) (ms : List ℕ) → a ≤ b → All (λ m. b < m) ms → All (λ m. a < m) ms
All_mono a b [] h k = tt
All_mono a b (m ∷ ms) h k = (omega (arith, k.0), All_mono a b ms h k.1)

insert-IsIncreasing : (n : ℕ) (ms : List ℕ) → IsIncreasing ms → IsIncreasing (insert_new n ms)
unfolding insert_new
insert-IsIncreasing n [] h = (tt, tt)
insert-IsIncreasing n (m ∷ ms) h =
    ground (arith, insert-IsIncreasing n ms h.1, All-insert m n ms, All_mono n m ms, h.0)

sorted_set-IsIncreasing : (ns : List ℕ) → IsIncreasing (sorted_set ns)
unfolding sorted_set
sorted_set-IsIncreasing [] = tt
sorted_set-IsIncreasing (n ∷ ns) =
    insert-IsIncreasing n (sorted_set ns) (sorted_set-IsIncreasing ns)

insert_least : (n : ℕ) (ms : List ℕ) → All (λ m. n < m) ms → insert_new n ms ≡ n ∷ ms
unfolding insert_new
insert_least n [] h = refl
insert_least n (m ∷ ms) h = ground (arith, h.0)

sorted_set_of_IsIncreasing : (ns : List ℕ) → IsIncreasing ns → sorted_set ns ≡ ns
unfolding sorted_set
sorted_set_of_IsIncreasing [] h = refl
sorted_set_of_IsIncreasing (n ∷ ns) h =
    rw (sorted_set_of_IsIncreasing ns h.1) (insert_least n ns h.0)

same_numbers_iff : (ms ns : List ℕ) → (same_numbers ms ns ≡ true) ↔ (ms ≡ ns)
unfolding same_numbers
same_numbers_iff [] [] = ground arith
same_numbers_iff [] (n ∷ ns) = ground arith
same_numbers_iff (m ∷ ms) [] = ground arith
same_numbers_iff (m ∷ ms) (n ∷ ns) = ground (arith, same_numbers_iff ms ns)

-- The comparison with `tuple(sorted(set(sequences)))` accepts exactly the increasing sequences.
IsIncreasing-iff : (ns : List ℕ) → (same_numbers ns (sorted_set ns) ≡ true) ↔ IsIncreasing ns
IsIncreasing-iff ns = (
  λ h.
      subst IsIncreasing (sym ((same_numbers_iff ns (sorted_set ns)).0 h))
        (sorted_set-IsIncreasing ns),
  λ h. (same_numbers_iff ns (sorted_set ns)).1 (sym (sorted_set_of_IsIncreasing ns h)),
)

-- A schedule that the constructor accepts: its first activation is at sequence 1, the activations
-- are at increasing sequences, and no key identifier comes twice.
pub record IsSchedule (s : OwnerKeySchedule) : Type 0 where
  pub first : starts_at_one (map (λ item. item.0) s.activations) ≡ true
  pub increasing : IsIncreasing (map (λ item. item.0) s.activations)
  pub distinct : IsUnique (map (λ item. item.1.key_id) s.activations)

-- The constructor of a key schedule returns exactly when the activations start at sequence 1, are
-- at strictly increasing sequences and have distinct key identifiers; it then holds them
-- unchanged, and in every other case it raises ValueError.
pub make_schedule_iff :
    (activations : List (ℕ × VerificationKey))
    → ((IsSchedule (record { activations = activations })
          ↔ (make_schedule activations ≡ ok (record { activations = activations })))
        × ((make_schedule activations ≡ ok (record { activations = activations }))
            ⊎ (make_schedule activations ≡ raise value_error)))
unfolding make_schedule
make_schedule_iff activations =
    let sequences = map (λ (item : ℕ × VerificationKey). item.0) activations in
    let ids = map (λ (item : ℕ × VerificationKey). item.1.key_id) activations in
    (
      (
        λ v. ground (
          arith,
          v.first,
          (IsIncreasing-iff sequences).1 v.increasing,
          (IsUnique-ids_iff ids).1 v.distinct,
        ),
        λ h. record {
          first = ground arith;
          increasing = (IsIncreasing-iff sequences).0 (ground arith);
          distinct = (IsUnique-ids_iff ids).0 (ground arith);
        },
      ),
      ground arith,
    )

-- The key with the latest activation at or before a sequence.
abbrev pub IsActive : ℕ → VerificationKey → List (ℕ × VerificationKey) → Type 0
IsActive sequence key activations =
    (activation : ℕ) × Memᴰ {A = ℕ × VerificationKey} (activation, key) activations
    × (activation ≤ sequence)
    × ((other : ℕ) (k : VerificationKey)
        → Memᴰ {A = ℕ × VerificationKey} (other, k) activations
        → other ≤ sequence
        → other ≤ activation)

abbrev Entry : Type 0
Entry = ℕ × VerificationKey

later-of-mem :
    (b other : ℕ) (k : VerificationKey) (rest : List Entry)
    → All (λ m. b < m) (map (λ item. item.0) rest)
    → Memᴰ {A = Entry} (other, k) rest
    → b < other
later-of-mem b other k [] h m = absurd (Memᴰ.not-nil m)
later-of-mem b other k (item ∷ rest) h m = elim (Memᴰ.cases_cons m) [
  | inl e ↦ omega (arith, ap (λ (x : Entry). x.0) e, h.0)
  | inr t ↦ later-of-mem b other k rest h.1 t
]

latest-IsActive :
    (sequence activation : ℕ) (key : VerificationKey) (rest : List Entry)
    → activation ≤ sequence
    → IsIncreasing (map (λ item. item.0) ((activation, key) ∷ rest))
    → IsActive sequence (latest sequence key rest) ((activation, key) ∷ rest)
unfolding latest
latest-IsActive sequence activation key [] h inc = (
  activation,
  Memᴰ.head refl,
  h,
  λ other k m le. omega (arith, ap (λ (x : Entry). x.0) (Memᴰ.eq_of_singleton m)),
)
latest-IsActive sequence activation key ((a, k') ∷ rest) h inc =
    elim (Bool-cases (ltb sequence a)) [
      | inl stop ↦ rw stop (
        activation,
        Memᴰ.head refl,
        h,
        λ other k m le. elim (Memᴰ.cases_cons m) [
          | inl e ↦ omega (arith, ap (λ (x : Entry). x.0) e)
          | inr t ↦ elim (Memᴰ.cases_cons t) [
            | inl e ↦ absurd (ground (arith, ap (λ (x : Entry). x.0) e))
            | inr u ↦ absurd (ground (arith, later-of-mem a other k rest inc.1.0 u))
          ]
        ],
      )
      | inr go ↦
          let (b, here, le, top) = latest-IsActive sequence a k' rest (ground arith) inc.1 in
          rw go (
            b,
            Memᴰ.tail here,
            le,
            λ other k m le'. elim (Memᴰ.cases_cons m) [
              | inl e ↦ omega (
                arith,
                ap (λ (x : Entry). x.0) e,
                inc.0.0,
                top a k' (Memᴰ.head refl) (ground arith),
              )
              | inr t ↦ top other k t le'
            ],
          )
    ]

IsActive-key :
    (sequence : ℕ) (activations : List Entry)
    → 1 ≤ sequence
    → IsSchedule (record { activations = activations })
    → (key : VerificationKey) × (key_for (record { activations = activations }) sequence ≡ ok key)
      × IsActive sequence key activations
unfolding key_for latest
IsActive-key sequence [] h v = absurd (ground (arith, v.first))
IsActive-key sequence ((a, k) ∷ rest) h v = (
  latest sequence k rest,
  ground (arith, v.first),
  latest-IsActive sequence a k rest (ground (arith, v.first)) v.increasing,
)

-- In a schedule that the constructor accepts, every sequence from 1 on has a key, and it is the
-- one whose activation is the latest at or before that sequence.
pub key_for-newest :
    (s : OwnerKeySchedule) (sequence : ℕ)
    → IsSchedule s
    → 1 ≤ sequence
    → (key : VerificationKey) × (key_for s sequence ≡ ok key) × IsActive sequence key s.activations
key_for-newest s sequence v h = IsActive-key sequence s.activations h v
