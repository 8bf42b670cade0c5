-- ===== src/Checkpoints/RoundTrip.antt =====
-- A checkpoint is read back from what it was written as.
use llm_errata.Prelude.{
  ◌≡◌, refl, Bool, true, not, Option, none, some, List, [], ◌∷◌, String, arith, contains, nat_eq,
  leb, All, every, if◌then◌else◌, ◌==◌,
}
use llm_errata.Errors.{ok, unsorted_artifacts, invalid_timestamp, empty_limitation}
use llm_errata.Json.{strings, optional}
use llm_errata.Signing.{Crypto}
use llm_errata.Semantic.Parse.{field_names, payload_get, each}
use llm_errata.Checkpoints.{
  AdapterCheckpoint, QuarantineCheckpoint, adapter_dict, adapter_items, to_dict, identity_onto,
  make_adapter_checkpoint, is_safe_id, is_utc, is_sorted_set, is_coverage, is_none, is_optional_utc,
}
use llm_errata.Checkpoints.Consumption.{IsCheckpoint, make_checkpoint_iff, IsConsistent-iff}
use llm_errata.Checkpoints.Parse.{
  exact_payload, text_where, optional_where, adapter_from_dict, from_dict,
}

abbrev pub IsAdapterCheckpoint : AdapterCheckpoint → Type 0
IsAdapterCheckpoint r = make_adapter_checkpoint r ≡ ok r

abbrev is_item : String → Bool
is_item item = not (item == "")

each-strings :
    (items : List String)
    → every is_item items ≡ true
    → each (text_where is_item unsorted_artifacts) (strings items) ≡ ok items
unfolding each strings every
each-strings [] h = refl
each-strings (s ∷ items) h = ground (arith, each-strings items)

limitation_lem :
    (l : Option String) → optional_where (λ s. true) empty_limitation (optional l) ≡ ok l
unfolding optional
limitation_lem none = refl
limitation_lem (some s) = refl

adapter_checks :
    (r : AdapterCheckpoint)
    → IsAdapterCheckpoint r
    → (is_safe_id r.name ≡ true)
      × (every is_item r.artifact_ids ≡ true)
      × (is_sorted_set r.artifact_ids ≡ true)
      × (is_coverage r.coverage ≡ true)
unfolding make_adapter_checkpoint
adapter_checks r h = (ground arith, ground arith, ground arith, ground arith)

adapter_from_dict-adapter_dict :
    (r : AdapterCheckpoint) → IsAdapterCheckpoint r → adapter_from_dict (adapter_dict r) ≡ ok r
unfolding adapter_from_dict exact_payload payload_get field_names every contains
adapter_from_dict-adapter_dict r h =
    let (named, filled, sorted, covered) = adapter_checks r h in
    rw (named, each-strings r.artifact_ids filled, sorted, covered, limitation_lem r.limitation) h

each-adapter_items :
    (rs : List AdapterCheckpoint)
    → All IsAdapterCheckpoint rs
    → each adapter_from_dict (adapter_items rs) ≡ ok rs
unfolding each adapter_items
each-adapter_items [] h = refl
each-adapter_items (r ∷ rs) h =
    rw (adapter_from_dict-adapter_dict r h.0, each-adapter_items rs h.1) refl

module _ (crypto : Crypto) (from_iso : String → Bool) where
  optional_time :
      (t : Option String)
      → is_optional_utc crypto from_iso t ≡ true
      → optional_where (is_utc crypto from_iso) invalid_timestamp (optional t) ≡ ok t
  unfolding optional
  optional_time none h = refl
  optional_time (some t) h = rw (h) refl

  -- A checkpoint that is valid, and whose adapters' entries are, is read back from the values that
  -- it is written as.
  pub from_dict-to_dict :
      (c : QuarantineCheckpoint)
      → IsCheckpoint crypto from_iso c
      → All IsAdapterCheckpoint c.adapters
      → from_dict crypto from_iso (to_dict c) ≡ ok c
  unfolding from_dict to_dict identity_onto exact_payload payload_get field_names every contains
  from_dict-to_dict c k h =
      let agree = (IsConsistent-iff crypto from_iso c.consumed c.consumed_at).1 k.consistent in
      let version : nat_eq c.schema_version 1 ≡ true = ground (arith, k.version) in
      let positive : leb 1 c.sequence ≡ true = ground (arith, k.positive) in
      let agrees : (if c.consumed then not (is_none c.consumed_at) else is_none c.consumed_at)
          ≡ true =
        ground (arith, agree) in
      let timed : is_optional_utc crypto from_iso c.consumed_at ≡ true = ground (arith, agree) in
      rw
        (
          each-adapter_items c.adapters h,
          version,
          k.named,
          positive,
          k.rooted,
          k.state,
          k.covered,
          k.ordered,
          k.timed,
        )
        (rw (optional_time c.consumed_at timed, agrees, k.digest)
          ((make_checkpoint_iff crypto from_iso c).1 k))
