-- ===== src/Adapters/Verdicts.antt =====
-- The answers of `coverage` and `quarantine_coverage`, which two stores give alike.
use llm_errata.Prelude.{
  ◌≡◌, refl, ◌↔◌, Bool, true, not, List, [], ◌∷◌, String, contains, every, eq_refl, minus, subset,
  intersects, select, is_empty, arith, if◌then◌else◌,
}
use llm_errata.Adapters.{Coverage, verified, partial, unknown, failed}

pub is_empty-minus : (xs ys : List String) → is_empty (minus xs ys) ≡ every (contains ys) xs
unfolding every select
is_empty-minus [] ys = refl
is_empty-minus (x ∷ xs) ys = ground (arith, is_empty-minus xs ys)

pub every_of :
    (p : String → Bool) (xs : List String)
    → ((k : String) → contains xs k ≡ true → p k ≡ true)
    → every p xs ≡ true
unfolding every contains
every_of p [] h = refl
every_of p (x ∷ xs) h =
    ground (arith, h x (ground (arith, eq_refl x)), every_of p xs (λ k m. h k (ground arith)))

empty-every : (p : String → Bool) (xs : List String) → is_empty xs ≡ true → every p xs ≡ true
unfolding every
empty-every p [] e = refl
empty-every p (x ∷ xs) e = cc

-- The answer of `coverage` on what was enumerated and what was disposed of.
abbrev pub verdict : List String → List String → Coverage
verdict found disposed =
    if is_empty found
    then verified
    else if is_empty (minus found disposed)
    then verified
    else if intersects disposed found
    then partial
    else failed

pub verdict-verified :
    (found disposed : List String)
    → (verdict found disposed ≡ verified) ↔ (every (contains disposed) found ≡ true)
verdict-verified found disposed =
    ground (arith, is_empty-minus found disposed, empty-every (contains disposed) found)

abbrev pub gate_verdict : Bool → List String → List String → Coverage
gate_verdict complete found gated =
    if not complete
    then unknown
    else if subset found gated
    then verified
    else if intersects found gated
    then partial
    else failed

pub gate_verdict-verified :
    (complete : Bool) (found gated : List String)
    → (gate_verdict complete found gated ≡ verified)
      ↔ ((complete ≡ true) × (every (contains gated) found ≡ true))
gate_verdict-verified complete found gated = ground arith
