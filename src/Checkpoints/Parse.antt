-- ===== src/Checkpoints/Parse.antt =====
-- The `from_dict` methods of prototype/checkpoints.py, on the values that `json.loads` gives, with
-- the constructors' checks on the types of the values.
use llm_errata.Prelude.{
  ℕ, Bool, true, not, ◌&&◌, Option, none, some, List, [], ◌∷◌, String, subset, is_empty, leb,
  nat_eq, map, if◌then◌else◌, ◌==◌,
}
use llm_errata.Errors.{
  Result, ok, raise, ◌>>=◌, ◌>>◌, require, type_error, CheckpointError, checkpoint_error,
  unsafe_name, unsorted_artifacts, invalid_coverage, empty_limitation, invalid_version, unsafe_id,
  invalid_sequence, invalid_root, invalid_state_root, no_adapters, unsorted_adapters,
  invalid_timestamp, consumption_disagrees, invalid_digest, invalid_fields, adapters_not_array,
  invalid_adapter_fields, artifacts_not_array, required_not_boolean, consumed_not_boolean,
}
use llm_errata.Json.{Json, bool, num, str, arr, obj, null, Items, Fields}
use llm_errata.Signing.{Crypto}
use llm_errata.Semantic.Parse.{field_names, payload_get, each}
use llm_errata.Checkpoints.{
  AdapterCheckpoint, QuarantineCheckpoint, is_safe_id, is_digest, is_sorted_set, is_utc, is_none,
  is_coverage, make_adapter_checkpoint, make_checkpoint, same_texts,
}

-- isinstance(value, dict) and set(value) == names
unfoldable pub exact_payload : List String → CheckpointError → Json → Result Fields
unfolding field_names
exact_payload names e (obj payload) = do
  require (subset (field_names payload) names && subset names (field_names payload))
      (checkpoint_error e)
  ok payload
exact_payload names e _ = raise (checkpoint_error e)

abbrev pub array_where : CheckpointError → Json → Result Items
array_where e (arr items) = ok items
array_where e _ = raise (checkpoint_error e)

abbrev pub text_where : (String → Bool) → CheckpointError → Json → Result String
text_where test e (str s) = if test s then ok s else raise (checkpoint_error e)
text_where test e _ = raise (checkpoint_error e)

abbrev pub number_where : (ℕ → Bool) → CheckpointError → Json → Result ℕ
number_where test e (num n) = if test n then ok n else raise (checkpoint_error e)
number_where test e _ = raise (checkpoint_error e)

abbrev pub bool_where : CheckpointError → Json → Result Bool
bool_where e (bool b) = ok b
bool_where e _ = raise (checkpoint_error e)

abbrev pub optional_where : (String → Bool) → CheckpointError → Json → Result (Option String)
optional_where test e null = ok none
optional_where test e (str s) = if test s then ok (some s) else raise (checkpoint_error e)
optional_where test e _ = raise (checkpoint_error e)

-- value in _COVERAGE, where a list or a dict cannot be hashed
abbrev pub coverage_where : Json → Result String
coverage_where (arr items) = raise type_error
coverage_where (obj payload) = raise type_error
coverage_where value = text_where is_coverage invalid_coverage value

-- AdapterCheckpoint.from_dict
unfoldable pub adapter_from_dict : Json → Result AdapterCheckpoint
unfolding exact_payload payload_get each is_safe_id same_texts
adapter_from_dict value = do
  payload ←
      exact_payload ("name" ∷ "required" ∷ "artifact_ids" ∷ "coverage" ∷ "limitation" ∷ [])
        invalid_adapter_fields value
  items ← payload_get payload "artifact_ids" >>= array_where artifacts_not_array
  name ← payload_get payload "name" >>= text_where is_safe_id unsafe_name
  required ← payload_get payload "required" >>= bool_where required_not_boolean
  artifact_ids ← each (text_where (λ item. not (item == "")) unsorted_artifacts) items
  require (is_sorted_set artifact_ids) (checkpoint_error unsorted_artifacts)
  coverage ← payload_get payload "coverage" >>= coverage_where
  limitation ← payload_get payload "limitation" >>= optional_where (λ s. true) empty_limitation
  make_adapter_checkpoint (record {
    name = name;
    required = required;
    artifact_ids = artifact_ids;
    coverage = coverage;
    limitation = limitation;
  })

module _ (crypto : Crypto) (from_iso : String → Bool) where
  -- QuarantineCheckpoint.from_dict
  unfoldable pub from_dict : Json → Result QuarantineCheckpoint
  unfolding exact_payload payload_get each adapter_from_dict is_safe_id is_digest is_utc same_texts
  from_dict value = do
    payload ←
        exact_payload
          ("schema_version" ∷ "erratum_id" ∷ "sequence" ∷ "target_root" ∷ "pre_state_root"
            ∷ "adapters" ∷ "created_at" ∷ "consumed" ∷ "consumed_at" ∷ "checkpoint_digest" ∷ [])
          invalid_fields value
    items ← payload_get payload "adapters" >>= array_where adapters_not_array
    adapters ← each adapter_from_dict items
    version ←
        payload_get payload "schema_version" >>= number_where (λ n. nat_eq n 1) invalid_version
    erratum_id ← payload_get payload "erratum_id" >>= text_where is_safe_id unsafe_id
    sequence ← payload_get payload "sequence" >>= number_where (leb 1) invalid_sequence
    target_root ← payload_get payload "target_root" >>= text_where (λ s. not (s == "")) invalid_root
    pre_state_root ←
        payload_get payload "pre_state_root" >>= text_where is_digest invalid_state_root
    require (not (is_empty adapters)) (checkpoint_error no_adapters)
    require (is_sorted_set (map (λ r. r.name) adapters)) (checkpoint_error unsorted_adapters)
    created_at ←
        payload_get payload "created_at" >>= text_where (is_utc crypto from_iso) invalid_timestamp
    consumed ← payload_get payload "consumed" >>= bool_where consumed_not_boolean
    consumed_at ←
        payload_get payload "consumed_at"
        >>= optional_where (is_utc crypto from_iso) invalid_timestamp
    require (if consumed then not (is_none consumed_at) else is_none consumed_at)
        (checkpoint_error consumption_disagrees)
    digest ← payload_get payload "checkpoint_digest" >>= text_where is_digest invalid_digest
    make_checkpoint crypto from_iso (record {
      schema_version = version;
      erratum_id = erratum_id;
      sequence = sequence;
      target_root = target_root;
      pre_state_root = pre_state_root;
      adapters = adapters;
      created_at = created_at;
      consumed = consumed;
      consumed_at = consumed_at;
      checkpoint_digest = digest;
    })
