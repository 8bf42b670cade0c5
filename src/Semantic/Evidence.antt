-- ===== src/Semantic/Evidence.antt =====
-- `_required_triad` and `_evaluate_evidence`: what the observations of a report amount to.
pub mod Groups
pub mod Weighing
pub mod Declared
pub mod Judged
pub mod Verdict
pub mod Required
use llm_errata.Prelude.{
  ℕ, ◌+◌, Bool, true, false, not, ◌&&◌, ◌||◌, Option, none, some, List, [], ◌∷◌, ◌++◌, String, Dict,
  get, put, add, update, sort, every, some_of, is_empty, length, nat_eq, str_lt, concat,
  number_text, if◌then◌else◌, ◌==◌, map,
}
use llm_errata.Errors.{Result, ok, raise, ◌>>=◌, ◌>>◌, require, value_error}
use llm_errata.Errata.{Operation, correct, supersede, erase, is_erase}
use llm_errata.Semantic.{
  ProbeKind, negative, positive, preservation, ObservationVerdict, pass, fail, inconclusive, error,
  SemanticCoverage, verified, unknown, failed, SemanticProbe, SemanticObservation, verdict_value,
}

abbrev pub same_operation : Operation → Operation → Bool
same_operation correct correct = true
same_operation supersede supersede = true
same_operation erase erase = true
same_operation _ _ = false

abbrev same_kind : ProbeKind → ProbeKind → Bool
same_kind negative negative = true
same_kind positive positive = true
same_kind preservation preservation = true
same_kind _ _ = false

-- Whether `required_kinds` holds a kind.
abbrev requires : List SemanticProbe → ProbeKind → Bool
requires probes kind = some_of (λ p. p.required && same_kind p.kind kind) probes

abbrev same_test : Bool → Bool → Bool
same_test true b = b
same_test false b = not b

abbrev pub probe_ids : List SemanticProbe → List String
probe_ids probes = map (λ p. p.probe_id) probes

-- _required_triad
unfoldable pub required_triad : List SemanticProbe → Result Operation
required_triad [] = raise value_error
required_triad (p ∷ ps) = do
  require (nat_eq (length (probe_ids (p ∷ ps))) (length (update (probe_ids (p ∷ ps)) [])))
      value_error
  require (every (λ q. same_operation q.operation p.operation) ps) value_error
  require
      (requires (p ∷ ps) negative
        && requires (p ∷ ps) preservation
        && same_test (requires (p ∷ ps) positive) (not (is_erase p.operation)))
      value_error
  ok p.operation

-- {item.probe_id: item for item in probes}
unfoldable pub declare : List SemanticProbe → Dict SemanticProbe → Dict SemanticProbe
declare [] d = d
declare (p ∷ ps) d = declare ps (put p.probe_id p d)

abbrev pub listed : Option (List SemanticObservation) → List SemanticObservation
listed none = []
listed (some records) = records

-- grouped.setdefault(item.probe_id, []).append(item)
unfoldable pub group :
    List SemanticObservation → Dict (List SemanticObservation) → Dict (List SemanticObservation)
group [] d = d
group (o ∷ os) d = group os (put o.probe_id (listed (get d o.probe_id) ++ o ∷ []) d)

-- The variables of the loop over the groups.
pub record Weighed : Type 0 where
  pub limitations : List String
  pub accepted : List SemanticObservation
  pub accepted_by_id : Dict SemanticObservation
  pub unexpected : ℕ
  pub valid_fails : List String

abbrev pub is_fail : ObservationVerdict → Bool
is_fail fail = true
is_fail _ = false

abbrev pub is_open : ObservationVerdict → Bool
is_open inconclusive = true
is_open error = true
is_open _ = false

abbrev pub answers : String → SemanticProbe → SemanticObservation → Bool
answers digest p o = same_operation o.operation p.operation && (o.config_digest == digest)

abbrev limited : String → String → Weighed → Weighed
limited what k w = record w { limitations = w.limitations ++ concat (what ∷ k ∷ []) ∷ [] }

-- The only record of a declared probe.
weigh_record : String → String → SemanticProbe → SemanticObservation → Weighed → Weighed
weigh_record digest k p o w =
    let w' =
      if not (same_operation o.operation p.operation)
      then limited "operation mismatch for probe " k w
      else if not (o.config_digest == digest)
      then limited "configuration drift for probe " k w
      else record w {
        accepted = w.accepted ++ o ∷ [];
        accepted_by_id = put k o w.accepted_by_id;
      } in
    if answers digest p o && is_fail o.verdict && p.required
    then record w' { valid_fails = add k w'.valid_fails }
    else w'

weigh_records : String → String → SemanticProbe → List SemanticObservation → Weighed → Weighed
unfolding weigh_record
weigh_records digest k p (o ∷ []) w = weigh_record digest k p o w
weigh_records digest k p _ w = limited "duplicate observations for probe " k w

weigh_group : String → String → Option SemanticProbe → List SemanticObservation → Weighed → Weighed
unfolding weigh_records
weigh_group digest k none records w = record w { unexpected = w.unexpected + length records }
weigh_group digest k (some p) records w = weigh_records digest k p records w

-- The loop over `grouped.items()`.
unfoldable pub weigh_all :
    String → Dict SemanticProbe → Dict (List SemanticObservation) → Weighed → Weighed
unfolding weigh_group
weigh_all digest declared [] w = w
weigh_all digest declared ((k, records) ∷ groups) w =
    weigh_all digest declared groups (weigh_group digest k (get declared k) records w)

unfoldable pub unexpected_limit : Weighed → List String
unexpected_limit w =
    if nat_eq w.unexpected 0
    then []
    else concat ("unexpected observation identifiers: " ∷ number_text w.unexpected ∷ []) ∷ []

abbrev required_limit : SemanticProbe → Option SemanticObservation → List String
required_limit p none =
    if p.required
    then concat ("missing required observation for probe " ∷ p.probe_id ∷ []) ∷ []
    else []
required_limit p (some o) =
    if p.required && is_open o.verdict
    then concat ("required probe " ∷ p.probe_id ∷ " returned " ∷ verdict_value o.verdict ∷ []) ∷ []
    else []

-- The loop over `probes` at the end.
unfoldable pub required_limits : List SemanticProbe → Dict SemanticObservation → List String
required_limits [] accepted = []
required_limits (p ∷ ps) accepted =
    required_limit p (get accepted p.probe_id) ++ required_limits ps accepted

-- Of two different texts, the one with the smaller key (probe_id, observed_at, response_digest).
unfoldable pub sorts_before : SemanticObservation → SemanticObservation → Bool
sorts_before o p =
    if o.probe_id == p.probe_id
    then (if o.observed_at == p.observed_at
        then str_lt o.response_digest p.response_digest
        else str_lt o.observed_at p.observed_at)
    else str_lt o.probe_id p.probe_id

insert_observation : SemanticObservation → List SemanticObservation → List SemanticObservation
unfolding sorts_before
insert_observation o [] = o ∷ []
insert_observation o (p ∷ ps) = if sorts_before p o then p ∷ insert_observation o ps else o ∷ p ∷ ps

-- sorted(…, key=lambda item: (item.probe_id, item.observed_at, item.response_digest))
unfoldable pub sort_observations : List SemanticObservation → List SemanticObservation
unfolding insert_observation
sort_observations [] = []
sort_observations (o ∷ os) = insert_observation o (sort_observations os)

-- The three parts that `_evaluate_evidence` returns.
pub record Assessed : Type 0 where
  pub coverage : SemanticCoverage
  pub limitations : List String
  pub accepted : List SemanticObservation

abbrev pub unweighed : Weighed
unweighed = record {
  limitations = [];
  accepted = [];
  accepted_by_id = [];
  unexpected = 0;
  valid_fails = [];
}

-- failed if valid_fails, else unknown if there are limitations, else verified
abbrev pub coverage_from : Bool → List String → SemanticCoverage
coverage_from failing limitations =
    if failing then failed else if is_empty limitations then verified else unknown

-- What the loops leave, for probes that passed `_required_triad`.
unfoldable pub assess : List SemanticProbe → List SemanticObservation → String → Assessed
unfolding declare group weigh_all unexpected_limit required_limits sort_observations
assess probes observations digest =
    let w = weigh_all digest (declare probes []) (group observations []) unweighed in
    let limitations =
      w.limitations ++ unexpected_limit w ++ required_limits probes w.accepted_by_id in
    let normalized = sort (update limitations []) in
    record {
      coverage = coverage_from (not (is_empty w.valid_fails)) normalized;
      limitations = normalized;
      accepted = sort_observations w.accepted;
    }

-- _evaluate_evidence
unfoldable pub evaluate_evidence :
    List SemanticProbe → List SemanticObservation → String → Result Assessed
unfolding required_triad assess
evaluate_evidence probes observations digest =
    required_triad probes >>= λ _. ok (assess probes observations digest)
