-- ===== src/Checkpoints/Consumption.antt =====
-- The constructor's checks, and the one change that a checkpoint allows.
use llm_errata.Prelude.{
  ◌≤◌, ◌≡◌, refl, ◌↔◌, ◌⊎◌, inl, inr, Bool, true, false, not, ◌&&◌, Option, none, some, String,
  is_empty, map, eq_iff, arith, if◌then◌else◌, ◌==◌,
}
use llm_errata.Errors.{ok, raise, checkpoint_error, already_consumed}
use llm_errata.Signing.{Crypto}
use llm_errata.Checkpoints.{
  QuarantineCheckpoint, is_safe_id, is_digest, is_sorted_set, is_utc, is_none, is_optional_utc,
  canonical_digest, make_checkpoint, with_consumed, identity_onto,
}

module _ (crypto : Crypto) (from_iso : String → Bool) where
  -- Consumed with a time, or neither.
  abbrev pub IsConsistent : Bool → Option String → Type 0
  IsConsistent consumed at =
      ((consumed ≡ false) × (at ≡ none))
      ⊎ ((consumed ≡ true) × ((t : String) × (at ≡ some t) × (is_utc crypto from_iso t ≡ true)))

  pub record IsCheckpoint (c : QuarantineCheckpoint) : Type 0 where
    pub version : c.schema_version ≡ 1
    pub named : is_safe_id c.erratum_id ≡ true
    pub positive : 1 ≤ c.sequence
    pub rooted : (c.target_root == "") ≡ false
    pub state : is_digest c.pre_state_root ≡ true
    pub covered : is_empty c.adapters ≡ false
    pub ordered : is_sorted_set (map (λ r. r.name) c.adapters) ≡ true
    pub timed : is_utc crypto from_iso c.created_at ≡ true
    pub consistent : IsConsistent c.consumed c.consumed_at
    pub digest : is_digest c.checkpoint_digest ≡ true
    pub bound : canonical_digest crypto from_iso c ≡ c.checkpoint_digest

  pub IsConsistent-iff :
      (consumed : Bool) (at : Option String)
      → (((if consumed then not (is_none at) else is_none at) && is_optional_utc crypto from_iso at)
          ≡ true)
        ↔ IsConsistent consumed at
  IsConsistent-iff true none =
      (λ h. cc, λ h. elim h [ inl x ↦ cc x.0 | inr x ↦ let (t, e, k) = x.1 in cc ])
  IsConsistent-iff true (some t) = (
    λ h. inr (refl, (t, refl, h)),
    λ h. elim h [ inl x ↦ cc x.0 | inr x ↦ let (u, e, k) = x.1 in cc ],
  )
  IsConsistent-iff false none = (λ h. inl (refl, refl), λ h. refl)
  IsConsistent-iff false (some t) = (λ h. cc, λ h. elim h [ inl x ↦ cc x.1 | inr x ↦ cc x.0 ])

  make_checkpoint-accepts :
      (c : QuarantineCheckpoint) → make_checkpoint crypto from_iso c ≡ ok c → IsCheckpoint c
  unfolding make_checkpoint
  make_checkpoint-accepts c h = record {
    version = ground arith;
    named = ground arith;
    positive = ground arith;
    rooted = ground arith;
    state = ground arith;
    covered = ground arith;
    ordered = ground arith;
    timed = ground arith;
    consistent = (IsConsistent-iff c.consumed c.consumed_at).0 (ground arith);
    digest = ground arith;
    bound = (eq_iff (canonical_digest crypto from_iso c) c.checkpoint_digest).0 (ground arith);
  }

  make_checkpoint-of :
      (c : QuarantineCheckpoint) → IsCheckpoint c → make_checkpoint crypto from_iso c ≡ ok c
  unfolding make_checkpoint
  make_checkpoint-of c k = ground (
    arith,
    k.version,
    k.named,
    k.positive,
    k.rooted,
    k.state,
    k.covered,
    k.ordered,
    k.timed,
    (IsConsistent-iff c.consumed c.consumed_at).1 k.consistent,
    k.digest,
    (eq_iff (canonical_digest crypto from_iso c) c.checkpoint_digest).1 k.bound,
  )

  -- The constructor accepts a checkpoint exactly when its version, identifier, sequence, root,
  -- state root, adapters and times are in order, the fields of the consumption agree, and the
  -- stated digest is the digest of the content.
  pub make_checkpoint_iff :
      (c : QuarantineCheckpoint) → (make_checkpoint crypto from_iso c ≡ ok c) ↔ IsCheckpoint c
  make_checkpoint_iff c = (make_checkpoint-accepts c, make_checkpoint-of c)

  consumed-IsCheckpoint :
      (t : String) (c : QuarantineCheckpoint)
      → IsCheckpoint c
      → is_utc crypto from_iso t ≡ true
      → IsCheckpoint (record c { consumed = true; consumed_at = some t })
  unfolding canonical_digest identity_onto
  consumed-IsCheckpoint t c k u = record {
    version = k.version;
    named = k.named;
    positive = k.positive;
    rooted = k.rooted;
    state = k.state;
    covered = k.covered;
    ordered = k.ordered;
    timed = k.timed;
    consistent = inr (refl, (t, refl, u));
    digest = k.digest;
    bound = k.bound;
  }

  -- A valid checkpoint that is not consumed can be consumed at any UTC time: the digest stays
  -- the one of its content, and it cannot be consumed again, whatever the time.
  pub with_consumed-once :
      (t u : String) (c : QuarantineCheckpoint)
      → IsCheckpoint c
      → c.consumed ≡ false
      → is_utc crypto from_iso t ≡ true
      → (c' : QuarantineCheckpoint) × (with_consumed crypto from_iso t c ≡ ok c')
        × (c' ≡ record c { consumed = true; consumed_at = some t })
        × IsCheckpoint c'
        × (with_consumed crypto from_iso u c' ≡ raise (checkpoint_error already_consumed))
  unfolding with_consumed
  with_consumed-once t u c k fresh utc =
      let k' = consumed-IsCheckpoint t c k utc in
      (
        record c { consumed = true; consumed_at = some t },
        ground (
          arith,
          fresh,
          make_checkpoint-of (record c { consumed = true; consumed_at = some t }) k',
        ),
        refl,
        k',
        refl,
      )
