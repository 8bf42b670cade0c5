-- ===== src/Receipts/Aggregate.antt =====
-- When the aggregate of the coverage results is what.
use llm_errata.Prelude.{
  ◌≡◌, refl, ◌↔◌, Bool, true, false, not, ◌&&◌, ◌||◌, List, [], ◌∷◌, String, Dict, values, All,
  every, some_of, is_empty, arith, eq_iff,
}
use llm_errata.Adapters.{Coverage, verified, partial, unknown, failed}
use llm_errata.Receipts.{is_verified, is_partial, is_failed, passes, aggregate_coverage}

every-All :
    {A : Type 0} (p : A → Bool) (P : A → Type 0) (xs : List A)
    → ((x : A) → (p x ≡ true) ↔ P x)
    → (every p xs ≡ true) ↔ All P xs
unfolding every
every-All p P [] h = (λ _. tt, λ _. refl)
every-All p P (x ∷ xs) h = (
  λ e. ((h x).0 (ground arith), (every-All p P xs h).0 (ground arith)),
  λ a. ground (arith, (h x).1 a.0, (every-All p P xs h).1 a.1),
)

some_of-every :
    {A : Type 0} (p : A → Bool) (xs : List A) → some_of (λ x. not (p x)) xs ≡ not (every p xs)
unfolding every some_of
some_of-every p [] = refl
some_of-every p (x ∷ xs) = ground (arith, some_of-every p xs)

some_failed :
    (results : List Coverage) → every is_verified results ≡ true → some_of is_failed results ≡ false
unfolding every some_of
some_failed [] h = refl
some_failed (verified ∷ results) h = some_failed results h
some_failed (partial ∷ results) h = cc
some_failed (unknown ∷ results) h = cc
some_failed (failed ∷ results) h = cc

is_verified_iff : (c : Coverage) → (is_verified c ≡ true) ↔ (c ≡ verified)
is_verified_iff verified = (λ _. refl, λ _. refl)
is_verified_iff partial = (λ h. cc, λ h. cc)
is_verified_iff unknown = (λ h. cc, λ h. cc)
is_verified_iff failed = (λ h. cc, λ h. cc)

abbrev is_unknown : Coverage → Bool
is_unknown unknown = true
is_unknown _ = false

is_unknown_iff : (c : Coverage) → (is_unknown c ≡ true) ↔ (c ≡ unknown)
is_unknown_iff verified = (λ h. cc, λ h. cc)
is_unknown_iff partial = (λ h. cc, λ h. cc)
is_unknown_iff unknown = (λ _. refl, λ _. refl)
is_unknown_iff failed = (λ h. cc, λ h. cc)

-- The tests of `aggregate_coverage` on the results, when it comes to the last of them.
abbrev resolved : Coverage → Bool
resolved c = is_verified c || is_partial c

every-unknown :
    (results : List Coverage)
    → every is_unknown results ≡ (not (some_of is_failed results) && not (some_of resolved results))
unfolding every some_of
every-unknown [] = refl
every-unknown (verified ∷ results) = ground arith
every-unknown (partial ∷ results) = ground arith
every-unknown (unknown ∷ results) = every-unknown results
every-unknown (failed ∷ results) = refl

not_both :
    (stores : Dict Coverage)
    → is_empty stores ≡ false
    → every is_unknown (values stores) ≡ true
    → every is_verified (values stores) ≡ false
unfolding every values
not_both [] e h = cc
not_both ((k, verified) ∷ stores) e h = cc
not_both ((k, partial) ∷ stores) e h = refl
not_both ((k, unknown) ∷ stores) e h = refl
not_both ((k, failed) ∷ stores) e h = refl

some_of-empty :
    (stores : Dict Coverage) → is_empty stores ≡ true → every is_unknown (values stores) ≡ true
unfolding every values
some_of-empty [] e = refl
some_of-empty (item ∷ stores) e = cc

module _ (stores : Dict Coverage) (triad : Dict String) where
  abbrev passed :
      (every passes (values triad) ≡ true) ↔ All (λ result. result ≡ "pass") (values triad)
  passed = every-All passes (λ result. result ≡ "pass") (values triad) (λ r. eq_iff r "pass")

  verified_iff : (aggregate_coverage stores triad ≡ verified) ↔ (
      All (λ result. result ≡ "pass") (values triad)
      × (is_empty stores ≡ false)
      × All (λ c. c ≡ verified) (values stores))
  unfolding aggregate_coverage
  verified_iff =
      let c = every-All is_verified (λ c. c ≡ verified) (values stores) is_verified_iff in
      ground (arith, passed, c, some_of-every passes (values triad), some_failed (values stores))

  unknown_iff :
      (aggregate_coverage stores triad ≡ unknown)
      ↔ (All (λ result. result ≡ "pass") (values triad) × All (λ c. c ≡ unknown) (values stores))
  unfolding aggregate_coverage
  unknown_iff =
      let c = every-All is_unknown (λ c. c ≡ unknown) (values stores) is_unknown_iff in
      ground (
        arith,
        passed,
        c,
        every-unknown (values stores),
        not_both stores,
        some_of-empty stores,
        some_of-every passes (values triad),
      )

-- The aggregate is `verified` exactly when every probe passed, there is a store, and every store
-- is `verified`. It is `unknown` exactly when every probe passed and every store is `unknown`.
pub aggregate_coverage_iff :
    (stores : Dict Coverage) (triad : Dict String)
    → ((aggregate_coverage stores triad ≡ verified) ↔ (
        All (λ result. result ≡ "pass") (values triad)
        × (is_empty stores ≡ false)
        × All (λ c. c ≡ verified) (values stores)))
      × ((aggregate_coverage stores triad ≡ unknown) ↔ (
          All (λ result. result ≡ "pass") (values triad) × All (λ c. c ≡ unknown) (values stores)))
aggregate_coverage_iff stores triad = (verified_iff stores triad, unknown_iff stores triad)
