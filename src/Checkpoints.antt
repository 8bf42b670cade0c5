-- ===== src/Checkpoints.antt =====
-- prototype/checkpoints.py: the evidence that the known descendants of a root are gated. The
-- storing of it in files is not here.
pub mod Consumption
pub mod Parse
pub mod RoundTrip
use Prim.Native.Char.{code}
use llm_errata.Prelude.{
  ℕ, Bool, true, false, not, ◌&&◌, ◌||◌, Option, none, some, List, [], ◌∷◌, String, update, sort,
  contains, every, is_empty, length, leb, nat_eq, if◌then◌else◌, ◌==◌, map,
}
use llm_errata.Errors.{
  Result, ok, raise, ◌>>=◌, ◌>>◌, require, CheckpointError, checkpoint_error, unsafe_name,
  unsorted_artifacts, invalid_coverage, empty_limitation, unlimited_unknown, invalid_version,
  unsafe_id, invalid_sequence, invalid_root, invalid_state_root, no_adapters, unsorted_adapters,
  invalid_timestamp, consumption_disagrees, invalid_digest, digest_mismatch, already_consumed,
}
use llm_errata.Json.{
  Json, bool, num, str, arr, obj, Items, nil, cons, Fields, field, end, optional, strings, dumps,
  codes, utf8,
}
use llm_errata.Signing.{Crypto, to_hex}

-- The patterns [A-Za-z0-9] and [A-Za-z0-9._-].
abbrev is_alphanumeric : ℕ → Bool
is_alphanumeric c =
    (leb b'A' c && leb c b'Z') || (leb b'a' c && leb c b'z') || (leb b'0' c && leb c b'9')

abbrev is_safe : ℕ → Bool
is_safe c = is_alphanumeric c || nat_eq c b'.' || nat_eq c b'_' || nat_eq c b'-'

safe_codes : List ℕ → Bool
safe_codes [] = false
safe_codes (c ∷ cs) = is_alphanumeric c && every is_safe cs && leb (length cs) 127

-- _SAFE_ID.fullmatch
unfoldable pub is_safe_id : String → Bool
unfolding safe_codes
is_safe_id s = safe_codes (codes s)

abbrev is_hex : ℕ → Bool
is_hex c = (leb b'0' c && leb c b'9') || (leb b'a' c && leb c b'f')

-- _DIGEST.fullmatch
unfoldable pub is_digest : String → Bool
is_digest s = nat_eq (length (codes s)) 64 && every is_hex (codes s)

-- The characters that `str.strip` takes off.
abbrev pub is_blank : ℕ → Bool
is_blank c =
    (leb 9 c && leb c 13)
    || (leb 28 c && leb c 32)
    || nat_eq c 0x85
    || nat_eq c 0xa0
    || nat_eq c 0x1680
    || (leb 0x2000 c && leb c 0x200a)
    || nat_eq c 0x2028
    || nat_eq c 0x2029
    || nat_eq c 0x202f
    || nat_eq c 0x205f
    || nat_eq c 0x3000

-- tuple(sorted(set(items))) == items
unfoldable pub same_texts : List String → List String → Bool
same_texts [] [] = true
same_texts (s ∷ ss) (t ∷ ts) = (s == t) && same_texts ss ts
same_texts _ _ = false

abbrev pub is_sorted_set : List String → Bool
is_sorted_set items = same_texts (sort (update items [])) items

pub record AdapterCheckpoint : Type 0 where
  pub name : String
  pub required : Bool
  pub artifact_ids : List String
  pub coverage : String
  pub limitation : Option String

-- value in _COVERAGE
abbrev pub is_coverage : String → Bool
is_coverage value = contains ("verified" ∷ "partial" ∷ "unknown" ∷ "failed" ∷ []) value

abbrev pub is_blank_limitation : Option String → Bool
is_blank_limitation none = false
is_blank_limitation (some s) = every is_blank (codes s)

abbrev pub is_none : {A : Type 0} → Option A → Bool
is_none none = true
is_none (some a) = false

-- AdapterCheckpoint.__post_init__
unfoldable pub make_adapter_checkpoint : AdapterCheckpoint → Result AdapterCheckpoint
unfolding is_safe_id same_texts
make_adapter_checkpoint r = do
  require (is_safe_id r.name) (checkpoint_error unsafe_name)
  require (every (λ item. not (item == "")) r.artifact_ids && is_sorted_set r.artifact_ids)
      (checkpoint_error unsorted_artifacts)
  require (is_coverage r.coverage) (checkpoint_error invalid_coverage)
  require (not (is_blank_limitation r.limitation)) (checkpoint_error empty_limitation)
  require (not ((r.coverage == "unknown") && is_none r.limitation))
      (checkpoint_error unlimited_unknown)
  ok r

abbrev pub adapter_dict : AdapterCheckpoint → Json
adapter_dict r = obj (
    field "name" (str r.name) (
      field "required" (bool r.required) (
        field "artifact_ids" (arr (strings r.artifact_ids))
          (field "coverage" (str r.coverage) (field "limitation" (optional r.limitation) end)))))

unfoldable pub adapter_items : List AdapterCheckpoint → Items
adapter_items [] = nil
adapter_items (r ∷ rs) = cons (adapter_dict r) (adapter_items rs)

pub record QuarantineCheckpoint : Type 0 where
  pub schema_version : ℕ
  pub erratum_id : String
  pub sequence : ℕ
  pub target_root : String
  pub pre_state_root : String
  pub adapters : List AdapterCheckpoint
  pub created_at : String
  pub consumed : Bool
  pub consumed_at : Option String
  pub checkpoint_digest : String

unfoldable pub identity_onto : QuarantineCheckpoint → Fields → Fields
unfolding adapter_items
identity_onto c rest = field "schema_version" (num c.schema_version) (
    field "erratum_id" (str c.erratum_id) (
      field "sequence" (num c.sequence) (
        field "target_root" (str c.target_root) (
          field "pre_state_root" (str c.pre_state_root) (
            field "adapters" (arr (adapter_items c.adapters))
              (field "created_at" (str c.created_at) rest))))))

unfoldable pub to_dict : QuarantineCheckpoint → Json
unfolding identity_onto
to_dict c = obj (
    identity_onto c (
      field "consumed" (bool c.consumed) (
        field "consumed_at" (optional c.consumed_at)
          (field "checkpoint_digest" (str c.checkpoint_digest) end))))

-- `from_iso` says whether `datetime.fromisoformat` takes a text: it depends on the version of
-- Python, and is a parameter.
module _ (crypto : Crypto) (from_iso : String → Bool) where
  -- json.dumps(…, ensure_ascii=False), in UTF-8
  unfoldable pub canonical_digest : QuarantineCheckpoint → String
  unfolding identity_onto
  canonical_digest c = to_hex (crypto.sha256 (utf8 (dumps false (obj (identity_onto c end)))))

  -- value[:-1] + "+00:00" when the value ends in Z
  abbrev with_offset : String → Option String
  with_offset String.[] = none
  with_offset (String.◌∷◌ c String.[]) = if nat_eq (code c) b'Z' then some "+00:00" else none
  with_offset (String.◌∷◌ c (String.◌∷◌ d s)) = elim (with_offset (String.◌∷◌ d s)) [
    | none ↦ none
    | some t ↦ some (String.◌∷◌ c t)
  ]

  abbrev is_iso : Option String → Bool
  is_iso none = false
  is_iso (some t) = from_iso t

  -- _utc_timestamp
  unfoldable pub is_utc : String → Bool
  is_utc value = is_iso (with_offset value)

  abbrev pub is_optional_utc : Option String → Bool
  is_optional_utc none = true
  is_optional_utc (some value) = is_utc value

  -- QuarantineCheckpoint.__post_init__
  unfoldable pub make_checkpoint : QuarantineCheckpoint → Result QuarantineCheckpoint
  unfolding is_safe_id is_digest canonical_digest is_utc same_texts
  make_checkpoint c = do
    require (nat_eq c.schema_version 1) (checkpoint_error invalid_version)
    require (is_safe_id c.erratum_id) (checkpoint_error unsafe_id)
    require (leb 1 c.sequence) (checkpoint_error invalid_sequence)
    require (not (c.target_root == "")) (checkpoint_error invalid_root)
    require (is_digest c.pre_state_root) (checkpoint_error invalid_state_root)
    require (not (is_empty c.adapters)) (checkpoint_error no_adapters)
    require (is_sorted_set (map (λ r. r.name) c.adapters)) (checkpoint_error unsorted_adapters)
    require (is_utc c.created_at) (checkpoint_error invalid_timestamp)
    require (is_optional_utc c.consumed_at) (checkpoint_error invalid_timestamp)
    require (if c.consumed then not (is_none c.consumed_at) else is_none c.consumed_at)
        (checkpoint_error consumption_disagrees)
    require (is_digest c.checkpoint_digest) (checkpoint_error invalid_digest)
    require (canonical_digest c == c.checkpoint_digest) (checkpoint_error digest_mismatch)
    ok c

  abbrev zeros : String
  zeros = "0000000000000000000000000000000000000000000000000000000000000000"

  unfoldable pub create :
      String → ℕ → String → String → List AdapterCheckpoint → String → Result QuarantineCheckpoint
  unfolding make_checkpoint canonical_digest
  create erratum_id sequence target_root pre_state_root adapters created_at =
      let provisional : QuarantineCheckpoint = record {
        schema_version = 1;
        erratum_id = erratum_id;
        sequence = sequence;
        target_root = target_root;
        pre_state_root = pre_state_root;
        adapters = adapters;
        created_at = created_at;
        consumed = false;
        consumed_at = none;
        checkpoint_digest = zeros;
      } in
      make_checkpoint (record provisional { checkpoint_digest = canonical_digest provisional })

  -- `replace` runs the checks of the constructor again.
  unfoldable pub with_consumed : String → QuarantineCheckpoint → Result QuarantineCheckpoint
  unfolding make_checkpoint
  with_consumed timestamp c = do
    require (not c.consumed) (checkpoint_error already_consumed)
    make_checkpoint (record c { consumed = true; consumed_at = some timestamp })
