-- ===== src/Semantic/Tests.antt =====
-- Runs of the semantic evidence, and its theorems at concrete reports.
use llm_errata.Prelude.{
  ◌≡◌, refl, ◌↔◌, Bool, true, List, [], ◌∷◌, String, contains, update, sort_by, add, get, put,
  every, some_of, concat,
}
use llm_errata.Errors.{ok, raise, value_error}
use llm_errata.Json.{strings}
use llm_errata.Errata.{correct}
use llm_errata.Samples.{toy}
use llm_errata.Semantic.{
  SemanticProbe, SemanticObservation, negative, positive, preservation, pass, fail, verified,
  failed,
}
use llm_errata.Semantic.Evidence.{Assessed, evaluate_evidence, required_triad}
use llm_errata.Semantic.Evidence.Verdict.{evaluate_evidence_iff}
use llm_errata.Semantic.Evidence.Required.{SomeRequired, AllRequired, AllCount}
use llm_errata.Semantic.Report.{SemanticProbeReport, report_dict, from_runner_evidence}
use llm_errata.Semantic.Parse.{report_from_dict}
use llm_errata.Semantic.Sound.{IsFaithful, report_from_dict-IsFaithful}

abbrev any_time : String → Bool
any_time s = true

abbrev digest : String
digest = "0123456789abcdef0123456789abcdef0123456789abcdef0123456789abcdef"

abbrev other_digest : String
other_digest = "1123456789abcdef0123456789abcdef0123456789abcdef0123456789abcdef"

abbrev asks_old : SemanticProbe
asks_old = record {
  probe_id = "old-diet";
  kind = negative;
  operation = correct;
  scope = "diet";
  prompt_template = "what does the owner eat";
  required = true;
}

abbrev asks_new : SemanticProbe
asks_new = record asks_old { probe_id = "new-diet"; kind = positive }

abbrev asks_kept : SemanticProbe
asks_kept = record asks_old { probe_id = "kept-venue"; kind = preservation }

abbrev probes : List SemanticProbe
probes = asks_old ∷ asks_new ∷ asks_kept ∷ []

abbrev answer : SemanticProbe → SemanticObservation
answer p = record {
  probe_id = p.probe_id;
  operation = p.operation;
  verdict = pass;
  config_digest = digest;
  observed_at = "2026-01-02T03:04:05Z";
  response_digest = digest;
}

abbrev passes : List SemanticObservation
passes = answer asks_new ∷ answer asks_old ∷ answer asks_kept ∷ []

abbrev fails_once : List SemanticObservation
fails_once = record (answer asks_old) { verdict = fail } ∷ answer asks_new ∷ []

abbrev report : SemanticProbeReport
report = record {
  config_digest = digest;
  coverage = verified;
  probes = probes;
  observations = answer asks_kept ∷ answer asks_new ∷ answer asks_old ∷ [];
  limitations = [];
}

triad : required_triad probes ≡ ok correct
unfolding required_triad update add contains every some_of
triad = refl

assess_passes :
    evaluate_evidence probes passes digest
    ≡ ok (record { coverage = verified; limitations = []; accepted = report.observations })
unfolding evaluate_evidence update add contains get put sort_by every some_of strings
assess_passes = refl

runs : from_runner_evidence digest probes passes [] ≡ ok report
unfolding from_runner_evidence update add contains get put sort_by every some_of strings
runs = refl

parses :
    report_from_dict toy any_time (report_dict report)
    ≡ ok (record report { probes = asks_kept ∷ asks_new ∷ asks_old ∷ [] })
unfolding report_from_dict report_dict update add contains get put sort_by every some_of strings
    concat
parses = refl

-- A failing observation decides, whatever else is missing.
fails_evidence :
    evaluate_evidence probes fails_once digest
    ≡ ok (record {
      coverage = failed;
      limitations = "missing required observation for probe kept-venue" ∷ [];
      accepted = answer asks_new ∷ record (answer asks_old) { verdict = fail } ∷ [];
    })
unfolding evaluate_evidence update add contains get put sort_by every some_of concat
fails_evidence = refl

-- A document that says `verified` of the same evidence is refused.
overclaims :
    report_from_dict toy any_time
      (report_dict (record report { observations = answer asks_new ∷ [] }))
    ≡ raise value_error
unfolding report_from_dict report_dict update add contains get put sort_by every some_of strings
    concat
overclaims = refl

evaluate_evidence_iff_example :
    (a : Assessed) × (evaluate_evidence probes passes digest ≡ ok a)
    × ((a.coverage ≡ failed) ↔ SomeRequired probes passes digest fail)
    × ((a.coverage ≡ verified)
        ↔ (AllCount probes passes digest × AllRequired probes passes digest pass))
evaluate_evidence_iff_example = evaluate_evidence_iff probes passes digest triad

report_from_dict-IsFaithful_example :
    IsFaithful (asks_kept ∷ asks_new ∷ asks_old ∷ []) report.observations digest verified
report_from_dict-IsFaithful_example =
    report_from_dict-IsFaithful toy any_time (report_dict report) parses
