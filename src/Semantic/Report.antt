-- ===== src/Semantic/Report.antt =====
-- SemanticProbeReport, SemanticProbeRunner and RecordedSemanticVerifier: reports that say no more
-- than their evidence.
use llm_errata.Prelude.{
  Bool, true, false, not, ◌&&◌, List, [], ◌∷◌, String, Option, none, some, update, sort, sort_by,
  select, every, is_empty, length, nat_eq, concat, if◌then◌else◌, ◌==◌,
}
use llm_errata.Errors.{Result, ok, ◌>>=◌, ◌>>◌, require, value_error}
use llm_errata.Json.{Json, str, arr, obj, Items, nil, cons, field, end, strings}
use llm_errata.Signing.{Crypto}
use llm_errata.Checkpoints.{is_digest, same_texts}
use llm_errata.Semantic.{
  ObservationVerdict, pass, fail, inconclusive, error, SemanticCoverage, verified, unknown, failed,
  SemanticProbe, VerifierConfig, SemanticObservation, semantic_value, probe_dict, observation_dict,
  config_digest,
}
use llm_errata.Semantic.Evidence.{evaluate_evidence, sort_observations, same_operation, probe_ids}

pub record SemanticProbeReport : Type 0 where
  pub config_digest : String
  pub coverage : SemanticCoverage
  pub probes : List SemanticProbe
  pub observations : List SemanticObservation
  pub limitations : List String

abbrev same_verdict : ObservationVerdict → ObservationVerdict → Bool
same_verdict pass pass = true
same_verdict fail fail = true
same_verdict inconclusive inconclusive = true
same_verdict error error = true
same_verdict _ _ = false

-- item == other, for observations and for tuples of them
same_observation : SemanticObservation → SemanticObservation → Bool
same_observation a b =
    (a.probe_id == b.probe_id)
    && same_operation a.operation b.operation
    && same_verdict a.verdict b.verdict
    && (a.config_digest == b.config_digest)
    && (a.observed_at == b.observed_at)
    && (a.response_digest == b.response_digest)

unfoldable pub same_observations : List SemanticObservation → List SemanticObservation → Bool
unfolding same_observation
same_observations [] [] = true
same_observations (a ∷ rest) (b ∷ others) = same_observation a b && same_observations rest others
same_observations _ _ = false

abbrev pub same_coverage : SemanticCoverage → SemanticCoverage → Bool
same_coverage verified verified = true
same_coverage unknown unknown = true
same_coverage failed failed = true
same_coverage _ _ = false

abbrev pub is_failed : SemanticCoverage → Bool
is_failed failed = true
is_failed _ = false

-- failed if the evidence failed, else unknown if there are limitations, else verified
abbrev pub expected_coverage : SemanticCoverage → List String → SemanticCoverage
expected_coverage evidence limitations =
    if is_failed evidence then failed else if is_empty limitations then verified else unknown

-- sorted(set(first).union(second))
abbrev pub union : List String → List String → List String
union first second = sort (update second (update first []))

-- SemanticProbeReport._validate
unfoldable pub validate : List String → SemanticProbeReport → Result (Unit {0})
unfolding evaluate_evidence same_observations same_texts is_digest
validate diagnostics r = do
  require (is_digest r.config_digest) value_error
  require (every (λ item. not (item == "")) r.limitations) value_error
  require (every (λ item. not (item == "")) diagnostics) value_error
  e ← evaluate_evidence r.probes r.observations r.config_digest
  let expected = union e.limitations diagnostics
  require (same_observations r.observations e.accepted) value_error
  require (same_texts r.limitations expected) value_error
  require (same_coverage r.coverage (expected_coverage e.coverage expected)) value_error

-- SemanticProbeReport.__post_init__
unfoldable pub make_report : SemanticProbeReport → Result SemanticProbeReport
unfolding validate
make_report r = validate [] r >>= λ _. ok r

-- SemanticProbeReport._from_runner_evidence
unfoldable pub from_runner_evidence :
    String
    → List SemanticProbe
    → List SemanticObservation
    → List String
    → Result SemanticProbeReport
unfolding evaluate_evidence validate
from_runner_evidence digest probes observations adapter_diagnostics = do
  e ← evaluate_evidence probes observations digest
  let diagnostics = union adapter_diagnostics e.limitations
  let limitations = union e.limitations diagnostics
  let report : SemanticProbeReport = record {
    config_digest = digest;
    coverage = expected_coverage e.coverage limitations;
    probes = probes;
    observations = e.accepted;
    limitations = limitations;
  }
  validate diagnostics report
  ok report

probe_items : List SemanticProbe → Items
probe_items [] = nil
probe_items (p ∷ ps) = cons (probe_dict p) (probe_items ps)

observation_items : List SemanticObservation → Items
observation_items [] = nil
observation_items (o ∷ os) = cons (observation_dict o) (observation_items os)

-- SemanticProbeReport.to_dict
unfoldable pub report_dict : SemanticProbeReport → Json
unfolding probe_items observation_items probe_dict observation_dict
report_dict r = obj (
    field "config_digest" (str r.config_digest) (
      field "coverage" (str (semantic_value r.coverage)) (
        field "probes" (arr (probe_items (sort_by (λ p. p.probe_id) r.probes))) (
          field "observations" (arr (observation_items (sort_observations r.observations)))
            (field "limitations" (arr (strings (sort r.limitations))) end)))))

-- What `evaluate` of a provider does on one probe.
pub data Outcome : Type 0 where
  raised nothing malformed : Outcome
  observed : SemanticObservation → Outcome

-- The third argument of `run`: recorded observations, a provider, or an iterable of observations.
pub data Verifier : Type 0 where
  recorded : List SemanticObservation → Verifier
  provider : (SemanticProbe → VerifierConfig → Outcome) → Verifier
  given : List SemanticObservation → Verifier

abbrev pub Received : Type 0
Received = List SemanticObservation × List String

abbrev receive : SemanticProbe → Outcome → Received → Received
receive p raised r = (r.0, concat ("provider error for probe " ∷ p.probe_id ∷ []) ∷ r.1)
receive p nothing r = r
receive p malformed r =
    (r.0, concat ("malformed verifier result for probe " ∷ p.probe_id ∷ []) ∷ r.1)
receive p (observed o) r = (o ∷ r.0, r.1)

-- The loop over the declared probes, from the front.
unfoldable pub ask :
    (SemanticProbe → VerifierConfig → Outcome) → VerifierConfig → List SemanticProbe → Received
ask evaluate config [] = ([], [])
ask evaluate config (p ∷ ps) = receive p (evaluate p config) (ask evaluate config ps)

unfoldable pub receive_all : Verifier → VerifierConfig → List SemanticProbe → Received
unfolding ask
receive_all (recorded observations) config probes = (observations, [])
receive_all (provider evaluate) config probes = ask evaluate config probes
receive_all (given observations) config probes = (observations, [])

-- SemanticProbeRunner.run
unfoldable pub run :
    Crypto → List SemanticProbe → VerifierConfig → Verifier → Result SemanticProbeReport
unfolding receive_all from_runner_evidence config_digest
run crypto probes config verifier = do
  require (nat_eq (length (probe_ids probes)) (length (update (probe_ids probes) []))) value_error
  let (received, limitations) = receive_all verifier config probes
  from_runner_evidence (config_digest crypto config) probes received limitations

-- matches[0] if len(matches) == 1 else None
abbrev only_one : List SemanticObservation → Option SemanticObservation
only_one (o ∷ []) = some o
only_one _ = none

-- RecordedSemanticVerifier.evaluate
unfoldable pub recorded_evaluate :
    Crypto → List SemanticObservation → SemanticProbe → VerifierConfig → Option SemanticObservation
unfolding config_digest
recorded_evaluate crypto observations p config = only_one (
    select
      (λ item.
        (item.probe_id == p.probe_id)
        && same_operation item.operation p.operation
        && (item.config_digest == config_digest crypto config))
      observations)
