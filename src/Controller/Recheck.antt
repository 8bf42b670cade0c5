-- ===== src/Controller/Recheck.antt =====
-- Importer._validate_checkpoint: what a checkpoint must still agree with before a repair.
use llm_errata.Prelude.{
  Bool, true, false, not, ◌&&◌, Option, none, some, List, [], ◌∷◌, String, Dict, put, keys, every,
  is_empty, sort, nat_eq, subset, ◌==◌,
}
use llm_errata.Errors.{
  Result, ok, raise, ◌>>=◌, ◌>>◌, require, cannot_enumerate, checkpoint_error, already_consumed,
  binding_mismatch, state_mismatch, inventory_drift, requirement_drift, opaque_drift,
  coverage_drift, artifact_drift, not_gated,
}
use llm_errata.Signing.{Crypto}
use llm_errata.Lineage.{LineageLedger}
use llm_errata.Errata.{Erratum}
use llm_errata.Adapters.{coverage_value, StoreAdapter}
use llm_errata.Checkpoints.{AdapterCheckpoint, QuarantineCheckpoint, same_texts}
use llm_errata.Controller.{Importer, state_root}
use llm_errata.Controller.Gate.{opaque_limitation, lineage_limitation, checkpoint_coverage, item}

abbrev pub same_limitation : Option String → Option String → Bool
same_limitation none none = true
same_limitation (some x) (some y) = x == y
same_limitation _ _ = false

-- {record.name: record for record in …}
unfoldable pub by_name {ℓ} : {V : Type ℓ} → (V → String) → List V → Dict V → Dict V
by_name name [] d = d
by_name name (v ∷ vs) d = by_name name vs (put (name v) v d)

module _ {A : Type 0} (s : StoreAdapter A) where
  -- The lines behind `try`, on what `enumerate` gives.
  unfoldable pub agrees :
      LineageLedger → String → A → AdapterCheckpoint → Result (List String) → Result (Unit {0})
  unfolding opaque_limitation lineage_limitation checkpoint_coverage same_texts
  agrees l root a r (raise cannot_enumerate) =
      require
        (is_empty r.artifact_ids
          && (r.coverage == "unknown")
          && same_limitation r.limitation (some (opaque_limitation s l a)))
        (checkpoint_error opaque_drift)
  agrees l root a r (raise e) = raise e
  agrees l root a r (ok ids) =
      let (expected, limitation) = checkpoint_coverage s l a root (lineage_limitation s l a root) in
      require ((r.coverage == coverage_value expected) && same_limitation r.limitation limitation)
        (checkpoint_error coverage_drift)
      >> (require (same_texts r.artifact_ids (sort ids)) (checkpoint_error artifact_drift)
          >> require (every (s.is_quarantined a) (sort ids)) (checkpoint_error not_gated))

  abbrev same_bool : Bool → Bool → Bool
  same_bool true b = b
  same_bool false b = not b

  unfoldable pub check_adapter : LineageLedger → String → A → AdapterCheckpoint → Result (Unit {0})
  unfolding agrees
  check_adapter l root a r =
      require (same_bool r.required (s.required a)) (checkpoint_error requirement_drift)
      >> agrees l root a r (s.enumerate l a root)

  -- for name, adapter in adapters.items()
  unfoldable pub check_adapters :
      LineageLedger → String → Dict AdapterCheckpoint → Dict A → Result (Unit {0})
  unfolding check_adapter item
  check_adapters l root records [] = ok tt
  check_adapters l root records ((name, a) ∷ adapters) = do
    r ← item records name
    check_adapter l root a r
    check_adapters l root records adapters

  abbrev record_dict : QuarantineCheckpoint → Dict AdapterCheckpoint
  record_dict c = by_name (λ r. r.name) c.adapters []

  abbrev adapter_dict : Importer A → Dict A
  adapter_dict i = by_name s.name i.adapters []

  abbrev same_inventory : QuarantineCheckpoint → Importer A → Bool
  same_inventory c i =
      subset (keys (record_dict c)) (keys (adapter_dict i))
      && subset (keys (adapter_dict i)) (keys (record_dict c))

  unfoldable pub validate_checkpoint :
      Crypto → Importer A → Erratum → QuarantineCheckpoint → Result (Unit {0})
  unfolding check_adapters by_name state_root
  validate_checkpoint crypto i e c = do
    require (not c.consumed) (checkpoint_error already_consumed)
    require
        ((c.erratum_id == e.erratum_id)
          && nat_eq c.sequence e.sequence
          && (c.target_root == e.target_root))
        (checkpoint_error binding_mismatch)
    require (c.pre_state_root == state_root s crypto i) (checkpoint_error state_mismatch)
    require (same_inventory c i) (checkpoint_error inventory_drift)
    check_adapters i.ledger e.target_root (record_dict c) (adapter_dict i)
