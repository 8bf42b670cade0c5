-- ===== src/Controller/Gate.antt =====
-- Importer.quarantine, `_quarantine`, and the coverage that a checkpoint records.
pub mod Hides
pub mod Evidence
use llm_errata.Prelude.{
  ℕ, Bool, true, false, Option, none, some, List, [], ◌∷◌, ◌++◌, String, Dict, get, put, sort,
  sort_by, values, if◌then◌else◌, ◌==◌, concat,
}
use llm_errata.Errors.{Result, ok, raise, Exception, key_error, cannot_enumerate}
use llm_errata.Errors
use llm_errata.Json.{Json, obj, arr, str, Fields, field, end, strings}
use llm_errata.Signing.{Crypto}
use llm_errata.Lineage.{LineageLedger}
use llm_errata.Errata.{Erratum}
use llm_errata.Adapters.{
  Coverage, verified, partial, unknown, failed, coverage_value, Reported, absent, raised, malformed,
  reported, StoreAdapter,
}
use llm_errata.Checkpoints.{
  AdapterCheckpoint, QuarantineCheckpoint, make_adapter_checkpoint, create, is_none,
}
use llm_errata.Step.{Step, ◌>>=◌, ◌>>◌, lift, read, modify, done}
use llm_errata.Controller.{Importer, log, state_root, quarantine_begin, quarantine_complete}
use llm_errata.Controller.Observe.{observe}

-- What `_quarantine` returns: the gated identifiers, the coverage and the limitations by store.
pub record Gating : Type 0 where
  pub gated : Dict (List String)
  pub coverage : Dict Coverage
  pub limitations : Dict String

abbrev pub nothing_gated : Gating
nothing_gated = record { gated = []; coverage = []; limitations = [] }

-- audit(root) is True
abbrev audited : Reported Bool → Bool
audited (reported complete) = complete
audited _ = false

-- The value that `_checkpoint_coverage` makes of what the adapter reports.
abbrev as_coverage : Reported Coverage → Coverage
as_coverage (reported c) = c
as_coverage _ = unknown

abbrev is_unknown : Coverage → Bool
is_unknown unknown = true
is_unknown _ = false

-- limitation or text
abbrev or_else : Option String → String → Option String
or_else none text = some text
or_else (some s) text = if s == "" then some text else some s

no_snapshot : String → String → String
unfolding concat
no_snapshot name root = concat (
    name ∷ ": adapter exposes no state snapshot for " ∷ root
    ∷ "; checkpoint and receipt state roots cannot bind its mutations" ∷ [])

no_lineage : String → String → String
unfolding concat
no_lineage name root = concat (
    name
    ∷ ": enumeration returned a result but the adapter did not establish complete root-specific lineage for "
    ∷ root ∷ "; empty or partial walks cannot become verified coverage" ∷ [])

no_coverage : String → String → String
unfolding concat
no_coverage name root =
    concat (name ∷ ": adapter did not establish quarantine-phase coverage for " ∷ root ∷ [])

-- Lines 318-330 of controller.py, on the two answers of the adapter.
unfoldable pub limitation_of : String → String → Bool → Bool → Option String
unfolding no_snapshot no_lineage concat
limitation_of name root complete has_snapshot =
    if complete
    then (if has_snapshot then none else some (no_snapshot name root))
    else if has_snapshot
    then some (no_lineage name root)
    else some (concat (no_lineage name root ∷ "; " ∷ no_snapshot name root ∷ []))

abbrev limited : Coverage → Option String → Coverage
limited verified (some s) = unknown
limited c _ = c

-- `_checkpoint_coverage`, on what the adapter reports.
unfoldable pub settle :
    String → String → Reported Coverage → Option String → Coverage × Option String
unfolding no_coverage
settle name root report limitation =
    let result = as_coverage report in
    let limitation' =
      if is_unknown result then or_else limitation (no_coverage name root) else limitation in
    (limited result limitation', limitation')

gated_fields : Dict (List String) → Fields
gated_fields [] = end
gated_fields ((name, ids) ∷ d) = field name (arr (strings ids)) (gated_fields d)

unfoldable pub root_detail : String → Json
root_detail root = obj (field "root" (str root) end)

-- d[key]
unfoldable pub item {ℓ} : {V : Type ℓ} → Dict V → String → Result V
item d key = elim (get d key) [ none ↦ raise key_error | some v ↦ ok v ]

module _ {A : Type 0} (s : StoreAdapter A) where
  unfoldable pub opaque_limitation : LineageLedger → A → String
  unfolding concat
  opaque_limitation l a =
      let limitation = concat (
        s.name a
        ∷ ": store exposes no enumeration interface, so its coverage is unknown and no repair elsewhere changes that"
        ∷ []) in
      if is_none (s.snapshot l a)
      then concat (
          limitation
          ∷ "; adapter exposes no state snapshot, so checkpoint and receipt state roots cannot bind its mutations"
          ∷ [])
      else limitation

  unfoldable pub lineage_limitation : LineageLedger → A → String → Option String
  unfolding limitation_of
  lineage_limitation l a root =
      limitation_of (s.name a) root (audited (s.lineage_complete l a root))
        (elim (s.snapshot l a) [ none ↦ false | some d ↦ true ])

  unfoldable pub checkpoint_coverage :
      LineageLedger → A → String → Option String → Coverage × Option String
  unfolding settle
  checkpoint_coverage l a root limitation =
      settle (s.name a) root (s.quarantine_coverage l a root) limitation

  abbrev record_gate : String → List String → Coverage × Option String → Gating → Gating
  record_gate name ids (c, none) g = record g {
    gated = put name ids g.gated;
    coverage = put name c g.coverage;
  }
  record_gate name ids (c, some text) g = record g {
    gated = put name ids g.gated;
    coverage = put name c g.coverage;
    limitations = put name text g.limitations;
  }

  abbrev gate_found : LineageLedger → String → A → Gating → Result (List String) → A × Result Gating
  gate_found l root a g (raise cannot_enumerate) = (
    s.acknowledge a root,
    ok (record_gate (s.name a) [] (unknown, some (opaque_limitation l a)) g),
  )
  gate_found l root a g (raise e) = (a, raise e)
  gate_found l root a g (ok ids) =
      let a' = s.quarantine a ids in
      (
        a',
        ok (
            record_gate (s.name a) ids (checkpoint_coverage l a' root (lineage_limitation l a root))
              g),
      )

  -- The body of the loop of `_quarantine`.
  unfoldable pub gate_one : LineageLedger → String → A → Gating → A × Result Gating
  unfolding opaque_limitation lineage_limitation checkpoint_coverage
  gate_one l root a g = gate_found l root a g (s.enumerate l a root)

  unfoldable pub gate_all : LineageLedger → String → List A → Gating → List A × Result Gating
  unfolding gate_one
  gate_all l root [] g = ([], ok g)
  gate_all l root (a ∷ rest) g =
      let (a', r) = gate_one l root a g in
      elim r [
        | raise e ↦ (a' ∷ rest, raise e)
        | ok g' ↦ let (rest', r') = gate_all l root rest g' in (a' ∷ rest', r')
      ]

  unfoldable pub gate_adapters : String → Step (Importer A) Gating
  unfolding gate_all
  gate_adapters root i =
      let (adapters, r) = gate_all i.ledger root i.adapters nothing_gated in
      (record i { adapters = adapters }, r)

  -- `_quarantine`
  unfoldable pub gate : String → Step (Importer A) Gating
  unfolding log gate_adapters gated_fields root_detail
  gate root = do
    modify (log quarantine_begin (root_detail root))
    g ← gate_adapters root
    modify (log quarantine_complete (obj (gated_fields g.gated)))
    done g

  make_record : Gating → A → Result AdapterCheckpoint
  unfolding make_adapter_checkpoint item
  make_record g a = Errors.◌>>=◌ (item g.gated (s.name a)) (λ ids.
      Errors.◌>>=◌ (item g.coverage (s.name a)) (λ c. make_adapter_checkpoint (record {
        name = s.name a;
        required = s.required a;
        artifact_ids = sort ids;
        coverage = coverage_value c;
        limitation = get g.limitations (s.name a);
      })))

  unfoldable pub make_records : Gating → List A → Result (List AdapterCheckpoint)
  unfolding make_record
  make_records g [] = ok []
  make_records g (a ∷ rest) =
      Errors.◌>>=◌ (make_record g a) (λ r. Errors.◌>>=◌ (make_records g rest) (λ rs. ok (r ∷ rs)))

  module _ (crypto : Crypto) (from_iso : String → Bool) where
    -- `now` is the time of the call, as `datetime.now(timezone.utc)` writes it.
    unfoldable pub quarantine : String → Erratum → Step (Importer A) QuarantineCheckpoint
    unfolding observe gate make_records create state_root
    quarantine now e = do
      valid ← observe crypto e
      pre_state_root ← read (state_root s crypto)
      g ← gate valid.target_root
      records ← lift (λ i. make_records g (sort_by s.name i.adapters))
      lift (λ _.
          create crypto from_iso valid.erratum_id valid.sequence valid.target_root pre_state_root
            records now)
