-- ===== src/Semantic/Parse.antt =====
-- The `from_dict` methods of prototype/semantic.py, on the values that `json.loads` gives.
use llm_errata.Prelude.{Bool, ◌&&◌, List, [], ◌∷◌, String, subset, if◌then◌else◌, ◌==◌}
use llm_errata.Errors.{Result, ok, raise, ◌>>=◌, ◌>>◌, require, value_error, key_error}
use llm_errata.Json.{Json, bool, str, arr, obj, Items, nil, cons, Fields, field, end}
use llm_errata.Errata.{Operation, correct, supersede, erase}
use llm_errata.Signing.{Crypto}
use llm_errata.Checkpoints.{is_digest, is_utc}
use llm_errata.Semantic.{
  ProbeKind, negative, positive, preservation, ObservationVerdict, pass, fail, inconclusive, error,
  SemanticCoverage, verified, unknown, failed, SemanticProbe, VerifierConfig, SemanticObservation,
  make_probe, make_config, make_observation, is_probe_id,
}
use llm_errata.Semantic.Report.{SemanticProbeReport, make_report}

unfoldable pub field_names : Fields → List String
field_names end = []
field_names (field k v fs) = k ∷ field_names fs

-- payload[key]
unfoldable pub payload_get : Fields → String → Result Json
payload_get end key = raise key_error
payload_get (field k v fs) key = let rest = payload_get fs key in if k == key then ok v else rest

-- _exact_fields
unfoldable pub exact_fields : List String → Json → Result Fields
unfolding field_names
exact_fields fields (obj payload) = do
  require (subset (field_names payload) fields && subset fields (field_names payload)) value_error
  ok payload
exact_fields fields _ = raise value_error

-- _nonempty_string
abbrev pub nonempty_string : Json → Result String
nonempty_string (str s) = if s == "" then raise value_error else ok s
nonempty_string _ = raise value_error

-- _probe_id and _sha256, on a value
abbrev checked_string : (String → Bool) → Json → Result String
checked_string test value = do
  text ← nonempty_string value
  require (test text) value_error
  ok text

-- ProbeKind(…), Operation(…), ObservationVerdict(…), SemanticCoverage(…)
unfoldable pub kind_of : Json → Result ProbeKind
kind_of (str s) =
    if s == "negative"
    then ok negative
    else if s == "positive"
    then ok positive
    else if s == "preservation"
    then ok preservation
    else raise value_error
kind_of _ = raise value_error

unfoldable pub operation_of : Json → Result Operation
operation_of (str s) =
    if s == "correct"
    then ok correct
    else if s == "supersede"
    then ok supersede
    else if s == "erase"
    then ok erase
    else raise value_error
operation_of _ = raise value_error

unfoldable pub verdict_of : Json → Result ObservationVerdict
verdict_of (str s) =
    if s == "pass"
    then ok pass
    else if s == "fail"
    then ok fail
    else if s == "inconclusive"
    then ok inconclusive
    else if s == "error"
    then ok error
    else raise value_error
verdict_of _ = raise value_error

unfoldable pub semantic_coverage_of : Json → Result SemanticCoverage
semantic_coverage_of (str s) =
    if s == "verified"
    then ok verified
    else if s == "unknown"
    then ok unknown
    else if s == "failed"
    then ok failed
    else raise value_error
semantic_coverage_of _ = raise value_error

abbrev bool_of : Json → Result Bool
bool_of (bool b) = ok b
bool_of _ = raise value_error

abbrev array_of : Json → Result Items
array_of (arr xs) = ok xs
array_of _ = raise value_error

-- tuple(convert(item) for item in items)
unfoldable pub each {ℓ} : {A : Type ℓ} → (Json → Result A) → Items → Result (List A)
each convert nil = ok []
each convert (cons x xs) =
    let rest = each convert xs in convert x >>= λ y. rest >>= λ ys. ok (y ∷ ys)

-- SemanticProbe.from_dict
unfoldable pub probe_from_dict : Json → Result SemanticProbe
unfolding exact_fields payload_get kind_of operation_of make_probe is_probe_id
probe_from_dict value = do
  payload ←
      exact_fields
        ("probe_id" ∷ "kind" ∷ "operation" ∷ "scope" ∷ "prompt_template" ∷ "required" ∷ []) value
  kind ← payload_get payload "kind" >>= kind_of
  operation ← payload_get payload "operation" >>= operation_of
  id ← payload_get payload "probe_id" >>= checked_string is_probe_id
  scope ← payload_get payload "scope" >>= nonempty_string
  template ← payload_get payload "prompt_template" >>= nonempty_string
  required ← payload_get payload "required" >>= bool_of
  make_probe (record {
    probe_id = id;
    kind = kind;
    operation = operation;
    scope = scope;
    prompt_template = template;
    required = required;
  })

-- VerifierConfig.from_dict
unfoldable pub config_from_dict : Json → Result VerifierConfig
unfolding exact_fields payload_get make_config
config_from_dict value = do
  payload ←
      exact_fields ("provider" ∷ "model" ∷ "prompt_template_version" ∷ "sampling" ∷ "seed" ∷ [])
        value
  provider ← payload_get payload "provider" >>= nonempty_string
  model ← payload_get payload "model" >>= nonempty_string
  version ← payload_get payload "prompt_template_version" >>= nonempty_string
  sampling ← payload_get payload "sampling"
  seed ← payload_get payload "seed"
  make_config (record {
    provider = provider;
    model = model;
    prompt_template_version = version;
    sampling = sampling;
    seed = seed;
  })

module _ (crypto : Crypto) (from_iso : String → Bool) where
  -- SemanticObservation.from_dict
  unfoldable pub observation_from_dict : Json → Result SemanticObservation
  unfolding exact_fields payload_get operation_of verdict_of make_observation is_probe_id is_digest
      is_utc
  observation_from_dict value = do
    payload ←
        exact_fields
          ("probe_id" ∷ "operation" ∷ "verdict" ∷ "config_digest" ∷ "observed_at"
            ∷ "response_digest" ∷ [])
          value
    operation ← payload_get payload "operation" >>= operation_of
    verdict ← payload_get payload "verdict" >>= verdict_of
    id ← payload_get payload "probe_id" >>= checked_string is_probe_id
    digest ← payload_get payload "config_digest" >>= checked_string is_digest
    at ← payload_get payload "observed_at" >>= checked_string (is_utc crypto from_iso)
    response ← payload_get payload "response_digest" >>= checked_string is_digest
    make_observation crypto from_iso (record {
      probe_id = id;
      operation = operation;
      verdict = verdict;
      config_digest = digest;
      observed_at = at;
      response_digest = response;
    })

  -- The arguments that SemanticProbeReport.from_dict passes to the constructor.
  unfoldable pub read_report : Json → Result SemanticProbeReport
  unfolding exact_fields payload_get semantic_coverage_of each probe_from_dict observation_from_dict
      is_digest
  read_report value = do
    payload ←
        exact_fields ("config_digest" ∷ "coverage" ∷ "probes" ∷ "observations" ∷ "limitations" ∷ [])
          value
    probe_values ← payload_get payload "probes" >>= array_of
    observation_values ← payload_get payload "observations" >>= array_of
    limitation_values ← payload_get payload "limitations" >>= array_of
    coverage ← payload_get payload "coverage" >>= semantic_coverage_of
    digest ← payload_get payload "config_digest" >>= checked_string is_digest
    probes ← each probe_from_dict probe_values
    observations ← each observation_from_dict observation_values
    limitations ← each nonempty_string limitation_values
    ok (record {
      config_digest = digest;
      coverage = coverage;
      probes = probes;
      observations = observations;
      limitations = limitations;
    })

  -- SemanticProbeReport.from_dict
  unfoldable pub report_from_dict : Json → Result SemanticProbeReport
  unfolding read_report make_report
  report_from_dict value = read_report value >>= make_report
