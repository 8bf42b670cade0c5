-- ===== src/Semantic/Evidence/Verdict.antt =====
-- When the evidence of a report is verified, and when it fails.
use llm_errata.Prelude.{
  ◌≡◌, refl, sym, ap, ◌∙◌, ◌⊎◌, ◌↔◌, inl, inr, Bool, true, false, not, ◌&&◌, none, some, List, [],
  ◌∷◌, String, IsUnique, every, every-mem, every_of_mem, and_of, Bool-cases, Option-cases,
  if◌then◌else◌, arith,
}
use llm_errata.Errors.{ok}
use llm_errata.Errata.{Operation}
use llm_errata.Semantic.{
  SemanticProbe, SemanticObservation, ObservationVerdict, pass, fail, inconclusive, error, verified,
  unknown, failed,
}
use llm_errata.Semantic.Evidence.{
  probe_ids, is_open, required_triad, assess, evaluate_evidence, Assessed,
}
use llm_errata.Semantic.Evidence.Weighing.{all_answered, none_fails}
use llm_errata.Semantic.Evidence.Declared.{required_triad-IsUnique}
use llm_errata.Semantic.Evidence.Required.{
  SomeRequired, AllRequired, AllCount, required_ok, groups, declared, the_answer, coverage_tests,
  answer_iff, none_fails_iff, all_answered_iff,
}

pick_iff :
    (a b : Bool)
    → (((if not a then failed else if b then verified else unknown) ≡ failed) ↔ (a ≡ false))
      × (((if not a then failed else if b then verified else unknown) ≡ verified)
          ↔ ((a ≡ true) × (b ≡ true)))
pick_iff a b = ground arith

pass_or_fail : (v : ObservationVerdict) → is_open v ≡ false → (v ≡ pass) ⊎ (v ≡ fail)
pass_or_fail pass h = inl refl
pass_or_fail fail h = inr refl
pass_or_fail inconclusive h = cc
pass_or_fail error h = cc

module _ (probes : List SemanticProbe) (observations : List SemanticObservation)
    (digest : String) where
  module _ (unique : IsUnique (probe_ids probes)) where
    -- A required probe passed, when the last loop has nothing against it and it does not fail.
    passed_of_tests :
        none_fails digest (declared probes observations digest) (groups probes observations digest)
          ≡ true
        → every (λ p. required_ok p (the_answer probes observations digest p)) probes ≡ true
        → AllRequired probes observations digest pass
    passed_of_tests good tests p m r =
        let here =
          every-mem (λ q. required_ok q (the_answer probes observations digest q)) tests m in
        elim (Option-cases (the_answer probes observations digest p)) [
          | inl gone ↦
              let open_end : required_ok p none ≡ true = ap (required_ok p) (sym gone) ∙ here in
              absurd (ground arith)
          | inr (o, found) ↦
              let closed : required_ok p (some o) ≡ true = ap (required_ok p) (sym found) ∙ here in
              let c = (answer_iff probes observations digest unique p o m).0 found in
              elim (pass_or_fail o.verdict (ground arith)) [
                | inl v ↦ (o, c, v)
                | inr v ↦ cc ((none_fails_iff probes observations digest unique).1 (p, o, c, r, v))
              ]
        ]

    none_failing :
        AllRequired probes observations digest pass
        → none_fails digest
            (declared probes observations digest)
            (groups probes observations digest)
          ≡ true
    none_failing passed =
        elim (Bool-cases (
          none_fails digest (declared probes observations digest)
            (groups probes observations digest))) [
              | inl good ↦ good
              | inr bad ↦
                  let (p, o, c, r, v) = (none_fails_iff probes observations digest unique).0 bad in
                  let (o', c', v') = passed p c.declared r in
                  let twice : o ∷ [] ≡ o' ∷ [] = sym c.only ∙ c'.only in
                  let same : o ≡ o' = cc in
                  let both : pass ≡ fail = sym v' ∙ ap (λ x. x.verdict) (sym same) ∙ v in cc
            ]

    tests_of_passed :
        AllRequired probes observations digest pass
        → every (λ p. required_ok p (the_answer probes observations digest p)) probes ≡ true
    tests_of_passed passed = every_of_mem _ probes (λ p m. elim (Bool-cases p.required) [
      | inl r ↦
          let (o, c, v) = passed p m r in
          let found : the_answer probes observations digest p ≡ some o =
            (answer_iff probes observations digest unique p o m).1 c in
          ap (required_ok p) found ∙ rw (r, v) refl
      | inr r ↦ elim (Option-cases (the_answer probes observations digest p)) [
        | inl e ↦ ap (required_ok p) e ∙ rw r refl
        | inr (o, e) ↦ ap (required_ok p) e ∙ rw r refl
      ]
    ])

    pub coverage_iff :
        (((assess probes observations digest).coverage ≡ failed)
          ↔ SomeRequired probes observations digest fail)
        × (((assess probes observations digest).coverage ≡ verified)
            ↔ (AllCount probes observations digest × AllRequired probes observations digest pass))
    coverage_iff =
        let a =
          none_fails digest (declared probes observations digest)
            (groups probes observations digest) in
        let b =
          all_answered digest (declared probes observations digest)
            (groups probes observations digest) in
        let c = every (λ p. required_ok p (the_answer probes observations digest p)) probes in
        let (is_failed, is_verified) = pick_iff a (b && c) in
        (
          (
            λ h.
                (none_fails_iff probes observations digest unique).0
                  (is_failed.0 (sym (coverage_tests probes observations digest) ∙ h)),
            λ h.
                coverage_tests probes observations digest
                ∙ is_failed.1 ((none_fails_iff probes observations digest unique).1 h),
          ),
          (
            λ h.
                let (good, both) =
                  is_verified.0 (sym (coverage_tests probes observations digest) ∙ h) in
                (
                  (all_answered_iff probes observations digest unique).0 (ground arith),
                  passed_of_tests good (ground arith),
                ),
            λ (counted, passed).
                coverage_tests probes observations digest
                ∙ is_verified.1 (
                  none_failing passed,
                  and_of ((all_answered_iff probes observations digest unique).1 counted)
                      (tests_of_passed passed),
                ),
          ),
        )

-- For probes that have the required triad, evaluating the evidence returns. It is failed exactly
-- when a required probe has a failing observation: the only one of its identifier, of its
-- operation and under the configuration. It is verified exactly when every observation counts in
-- that way for a declared probe, and every required probe has a passing one.
pub evaluate_evidence_iff :
    (probes : List SemanticProbe) (observations : List SemanticObservation) (digest : String)
    {operation : Operation}
    → required_triad probes ≡ ok operation
    → (a : Assessed) × (evaluate_evidence probes observations digest ≡ ok a)
      × ((a.coverage ≡ failed) ↔ SomeRequired probes observations digest fail)
      × ((a.coverage ≡ verified)
          ↔ (AllCount probes observations digest × AllRequired probes observations digest pass))
unfolding evaluate_evidence
evaluate_evidence_iff probes observations digest triad =
    let both = coverage_iff probes observations digest (required_triad-IsUnique probes triad) in
    (assess probes observations digest, rw triad refl, both.0, both.1)
