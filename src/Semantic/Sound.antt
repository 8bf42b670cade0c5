-- ===== src/Semantic/Sound.antt =====
-- What the coverage of a report says, when it was parsed and when a runner made it.
use llm_errata.Prelude.{
  ◌≡◌, refl, sym, ap, subst, ◌∙◌, ◌↔◌, Bool, true, not, ◌&&◌, List, [], String, is_empty, update,
  is_empty-sort, is_empty-update, if◌then◌else◌, arith, inl, inr,
}
use llm_errata.Errors.{ok, >>=-eq-ok, ok-injective, Result-cases}
use llm_errata.Json.{Json}
use llm_errata.Signing.{Crypto}
use llm_errata.Semantic.{
  SemanticCoverage, verified, unknown, failed, pass, fail, SemanticProbe, SemanticObservation,
}
use llm_errata.Semantic.Evidence.{
  Assessed, evaluate_evidence, assess, required_triad, coverage_from, weigh_all, declare, group,
  unweighed,
}
use llm_errata.Semantic.Evidence.Verdict.{evaluate_evidence_iff}
use llm_errata.Semantic.Evidence.Required.{SomeRequired, AllRequired, AllCount}
use llm_errata.Semantic.Report.{
  SemanticProbeReport, validate, make_report, expected_coverage, is_failed, union, same_coverage,
}
use llm_errata.Semantic.Parse.{read_report, report_from_dict}

-- A coverage that is failed and verified exactly when the evidence is.
abbrev pub IsFaithful :
    List SemanticProbe → List SemanticObservation → String → SemanticCoverage → Type 0
IsFaithful probes observations digest coverage =
    ((coverage ≡ failed) ↔ SomeRequired probes observations digest fail)
    × ((coverage ≡ verified)
        ↔ (AllCount probes observations digest × AllRequired probes observations digest pass))

same_coverage-eq : (a b : SemanticCoverage) → same_coverage a b ≡ true → a ≡ b
same_coverage-eq verified verified h = refl
same_coverage-eq verified unknown h = cc
same_coverage-eq verified failed h = cc
same_coverage-eq unknown verified h = cc
same_coverage-eq unknown unknown h = refl
same_coverage-eq unknown failed h = cc
same_coverage-eq failed verified h = cc
same_coverage-eq failed unknown h = cc
same_coverage-eq failed failed h = refl

-- Adding limitations never upgrades; adding none changes nothing.
expected-coverage_from :
    (failing : Bool) (limits more : List String)
    → expected_coverage (coverage_from failing limits) (union limits more)
      ≡ (if failing then failed else if is_empty limits && is_empty more then verified else unknown)
expected-coverage_from failing limits more = ground (
  arith,
  is_empty-sort (update more (update limits [])),
  is_empty-update more (update limits []),
  is_empty-update limits [],
)

-- The evidence of probes that evaluate.
evaluated :
    (probes : List SemanticProbe) (observations : List SemanticObservation) (digest : String)
    {e : Assessed}
    → evaluate_evidence probes observations digest ≡ ok e
    → IsFaithful probes observations digest e.coverage
unfolding evaluate_evidence
evaluated probes observations digest {e} h =
    let (_, triad, _) =
      >>=-eq-ok (required_triad probes) (λ _. ok (assess probes observations digest)) h in
    let (a, returned, is_failed, is_verified) =
      evaluate_evidence_iff probes observations digest triad in
    let same : a ≡ e = ok-injective (sym returned ∙ h) in
    subst (λ x. IsFaithful probes observations digest x.coverage) same (is_failed, is_verified)

-- What passed the checks has the coverage that the checks expect.
validated :
    (diagnostics : List String) (r : SemanticProbeReport)
    → validate diagnostics r ≡ ok tt
    → (e : Assessed) × (evaluate_evidence r.probes r.observations r.config_digest ≡ ok e)
      × (r.coverage ≡ expected_coverage e.coverage (union e.limitations diagnostics))
unfolding validate
validated diagnostics r h =
    elim (Result-cases (evaluate_evidence r.probes r.observations r.config_digest)) [
      | inl (e, found) ↦ (
        e,
        found,
        same_coverage-eq r.coverage (expected_coverage e.coverage (union e.limitations diagnostics))
            (ground arith),
      )
      | inr (x, bad) ↦ absurd (ground arith)
    ]

no_more :
    (failing : Bool) (limits : List String)
    → expected_coverage (coverage_from failing limits) (union limits [])
      ≡ coverage_from failing limits
no_more failing limits = expected-coverage_from failing limits [] ∙ ground arith

assessed :
    (probes : List SemanticProbe) (observations : List SemanticObservation) (digest : String)
    {e : Assessed}
    → evaluate_evidence probes observations digest ≡ ok e
    → (failing : Bool) × (e.coverage ≡ coverage_from failing e.limitations)
unfolding evaluate_evidence assess
assessed probes observations digest {e} h =
    let (_, _, same) =
      >>=-eq-ok (required_triad probes) (λ _. ok (assess probes observations digest)) h in
    let w = weigh_all digest (declare probes []) (group observations []) unweighed in
    let failing = not (is_empty w.valid_fails) in
    (
      failing,
      subst (λ x. x.coverage ≡ coverage_from failing x.limitations) (ok-injective same) refl,
    )

module _ (crypto : Crypto) (from_iso : String → Bool) where
  -- A report that `from_dict` accepts is failed exactly when its own observations show a required
  -- probe that failed, and verified exactly when all its observations count and every required
  -- probe passed: a document cannot claim more than the evidence that it holds.
  pub report_from_dict-IsFaithful :
      (j : Json) {r : SemanticProbeReport}
      → report_from_dict crypto from_iso j ≡ ok r
      → IsFaithful r.probes r.observations r.config_digest r.coverage
  unfolding report_from_dict make_report
  report_from_dict-IsFaithful j {r} h =
      let (read, _, made) = >>=-eq-ok (read_report crypto from_iso j) make_report h in
      let (_, v, same) = >>=-eq-ok (validate [] read) (λ _. ok read) made in
      let (e, found, c) = validated [] read v in
      let (failing, f) = assessed read.probes read.observations read.config_digest found in
      let kept : read.coverage ≡ e.coverage =
        c
        ∙ ap (λ x. expected_coverage x (union e.limitations [])) f
        ∙ no_more failing e.limitations
        ∙ sym f in
      subst (λ x. IsFaithful x.probes x.observations x.config_digest x.coverage) (ok-injective same)
        (subst (IsFaithful read.probes read.observations read.config_digest) (sym kept)
          (evaluated read.probes read.observations read.config_digest found))
