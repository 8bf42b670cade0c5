-- ===== src/Semantic.antt =====
-- prototype/semantic.py: probes, the configuration of a verifier, and its observations, with the
-- checks that their constructors make. Every `raise` statement there raises ValueError.
pub mod Evidence
pub mod Report
pub mod Parse
pub mod Sound
pub mod Tests
use llm_errata.Prelude.{
  ℕ, Bool, true, false, not, ◌&&◌, ◌||◌, Option, none, some, List, [], ◌∷◌, String, every, length,
  leb, nat_eq, if◌then◌else◌, ◌==◌,
}
use llm_errata.Errors.{Result, ok, raise, ◌>>=◌, ◌>>◌, require, value_error}
use llm_errata.Json.{
  Json, null, bool, num, neg, str, arr, obj, Fields, field, end, codes, dumps, sort_json,
}
use llm_errata.Signing.{Crypto, canonical_bytes, to_hex}
use llm_errata.Errata.{Operation, correct, supersede, erase, operation_value, is_erase}
use llm_errata.Checkpoints.{is_digest, is_utc}

pub data ProbeKind : Type 0 where
  negative positive preservation : ProbeKind

pub data ObservationVerdict : Type 0 where
  pass fail inconclusive error : ObservationVerdict

pub data SemanticCoverage : Type 0 where
  verified unknown failed : SemanticCoverage

-- kind.value, verdict.value and coverage.value
abbrev pub kind_value : ProbeKind → String
kind_value negative = "negative"
kind_value positive = "positive"
kind_value preservation = "preservation"

abbrev pub verdict_value : ObservationVerdict → String
verdict_value pass = "pass"
verdict_value fail = "fail"
verdict_value inconclusive = "inconclusive"
verdict_value error = "error"

abbrev pub semantic_value : SemanticCoverage → String
semantic_value verified = "verified"
semantic_value unknown = "unknown"
semantic_value failed = "failed"

abbrev is_lower : ℕ → Bool
is_lower c = leb b'a' c && leb c b'z'

abbrev is_probe_code : ℕ → Bool
is_probe_code c = is_lower c || (leb b'0' c && leb c b'9') || nat_eq c b'-'

probe_codes : List ℕ → Bool
probe_codes [] = false
probe_codes (c ∷ cs) = is_lower c && every is_probe_code cs && leb (length cs) 63

-- _PROBE_ID.fullmatch
unfoldable pub is_probe_id : String → Bool
unfolding probe_codes
is_probe_id s = probe_codes (codes s)

abbrev pub erasure_template : String
erasure_template = "erasure-content-free-v1"

abbrev pub erasure_scope : String
erasure_scope = "declared-store-set-v1"

abbrev pub erasure_negative_id : String
erasure_negative_id = "erase-negative-v1"

abbrev pub erasure_preservation_id : String
erasure_preservation_id = "erase-preservation-v1"

abbrev pub erasure_probe_id : ProbeKind → Result String
erasure_probe_id negative = ok erasure_negative_id
erasure_probe_id preservation = ok erasure_preservation_id
erasure_probe_id positive = raise value_error

pub record SemanticProbe : Type 0 where
  pub probe_id : String
  pub kind : ProbeKind
  pub operation : Operation
  pub scope : String
  pub prompt_template : String
  pub required : Bool

abbrev is_positive : ProbeKind → Bool
is_positive positive = true
is_positive _ = false

-- The last test of the constructor, with the order in which `or` asks.
fixed_fields : SemanticProbe → Result Bool
fixed_fields p =
    if not (p.prompt_template == erasure_template) || not (p.scope == erasure_scope)
    then ok false
    else erasure_probe_id p.kind >>= λ id. ok (p.probe_id == id)

-- SemanticProbe.__post_init__
unfoldable pub make_probe : SemanticProbe → Result SemanticProbe
unfolding is_probe_id fixed_fields
make_probe p = do
  require (is_probe_id p.probe_id) value_error
  require (not (p.scope == "")) value_error
  require (not (p.prompt_template == "")) value_error
  require (not (is_erase p.operation && is_positive p.kind)) value_error
  fixed ← if is_erase p.operation then fixed_fields p else ok true
  require fixed value_error
  ok p

-- SemanticProbe.to_dict
unfoldable pub probe_dict : SemanticProbe → Json
probe_dict p = obj (
    field "probe_id" (str p.probe_id) (
      field "kind" (str (kind_value p.kind)) (
        field "operation" (str (operation_value p.operation)) (
          field "scope" (str p.scope) (
            field "prompt_template" (str p.prompt_template)
              (field "required" (bool p.required) end))))))

pub record VerifierConfig : Type 0 where
  pub provider : String
  pub model : String
  pub prompt_template_version : String
  pub sampling : Json
  pub seed : Json

abbrev is_mapping : Json → Bool
is_mapping (obj fs) = true
is_mapping _ = false

-- seed is None, or an int that is not a bool
abbrev is_seed : Json → Bool
is_seed null = true
is_seed (num n) = true
is_seed (neg n) = true
is_seed _ = false

-- VerifierConfig.__post_init__; the sampling is normalised by `json.loads` of its canonical text,
-- which sorts its keys.
unfoldable pub make_config : VerifierConfig → Result VerifierConfig
make_config c = do
  require (not (c.provider == "")) value_error
  require (not (c.model == "")) value_error
  require (not (c.prompt_template_version == "")) value_error
  require (is_mapping c.sampling) value_error
  require (is_seed c.seed) value_error
  ok (record c { sampling = sort_json c.sampling })

-- VerifierConfig.to_dict
unfoldable pub config_dict : VerifierConfig → Json
config_dict c = obj (
    field "provider" (str c.provider) (
      field "model" (str c.model) (
        field "prompt_template_version" (str c.prompt_template_version)
          (field "sampling" c.sampling (field "seed" c.seed end)))))

-- VerifierConfig.digest
unfoldable pub config_digest : Crypto → VerifierConfig → String
unfolding config_dict
config_digest crypto c = to_hex (crypto.sha256 (canonical_bytes (config_dict c)))

pub record SemanticObservation : Type 0 where
  pub probe_id : String
  pub operation : Operation
  pub verdict : ObservationVerdict
  pub config_digest : String
  pub observed_at : String
  pub response_digest : String

-- SemanticObservation.__post_init__
unfoldable pub make_observation :
    Crypto → (String → Bool) → SemanticObservation → Result SemanticObservation
unfolding is_probe_id
make_observation crypto from_iso o = do
  require (is_probe_id o.probe_id) value_error
  require
      (not (is_erase o.operation)
        || (o.probe_id == erasure_negative_id)
        || (o.probe_id == erasure_preservation_id))
      value_error
  require (is_digest o.config_digest) value_error
  require (is_utc crypto from_iso o.observed_at) value_error
  require (is_digest o.response_digest) value_error
  ok o

-- SemanticObservation.to_dict
unfoldable pub observation_dict : SemanticObservation → Json
observation_dict o = obj (
    field "probe_id" (str o.probe_id) (
      field "operation" (str (operation_value o.operation)) (
        field "verdict" (str (verdict_value o.verdict)) (
          field "config_digest" (str o.config_digest) (
            field "observed_at" (str o.observed_at)
              (field "response_digest" (str o.response_digest) end))))))
