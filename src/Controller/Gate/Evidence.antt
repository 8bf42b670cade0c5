-- ===== src/Controller/Gate/Evidence.antt =====
-- When a gated store may be recorded as verified.
use llm_errata.Prelude.{◌≡◌, refl, ◌↔◌, Bool, true, false, Option, none, some, String, arith, Dict}
use llm_errata.Lineage.{LineageLedger}
use llm_errata.Adapters.{
  Coverage, verified, partial, unknown, failed, Reported, absent, raised, malformed, reported,
  StoreAdapter,
}
use llm_errata.Controller.Gate.{
  limitation_of, settle, lineage_limitation, checkpoint_coverage, audited,
}

settle-verified :
    (name root : String) (report : Reported Coverage) (limitation : Option String)
    → ((settle name root report limitation).0 ≡ verified)
      ↔ ((report ≡ reported verified) × (limitation ≡ none))
unfolding settle
settle-verified name root absent none = (λ h. cc, λ h. cc)
settle-verified name root absent (some x) = (λ h. ground arith, λ h. cc)
settle-verified name root raised none = (λ h. cc, λ h. cc)
settle-verified name root raised (some x) = (λ h. ground arith, λ h. cc)
settle-verified name root malformed none = (λ h. cc, λ h. cc)
settle-verified name root malformed (some x) = (λ h. ground arith, λ h. cc)
settle-verified name root (reported verified) none = (λ h. (refl, refl), λ h. refl)
settle-verified name root (reported verified) (some x) = (λ h. cc, λ h. cc)
settle-verified name root (reported partial) none = (λ h. cc, λ h. cc)
settle-verified name root (reported partial) (some x) = (λ h. cc, λ h. cc)
settle-verified name root (reported unknown) none = (λ h. cc, λ h. cc)
settle-verified name root (reported unknown) (some x) = (λ h. ground arith, λ h. cc)
settle-verified name root (reported failed) none = (λ h. cc, λ h. cc)
settle-verified name root (reported failed) (some x) = (λ h. cc, λ h. cc)

audited_iff : (r : Reported Bool) → (audited r ≡ true) ↔ (r ≡ reported true)
audited_iff absent = (λ h. cc, λ h. cc)
audited_iff raised = (λ h. cc, λ h. cc)
audited_iff malformed = (λ h. cc, λ h. cc)
audited_iff (reported true) = (λ h. refl, λ h. refl)
audited_iff (reported false) = (λ h. cc, λ h. cc)

limitation_of-none :
    (name root : String) (complete has_snapshot : Bool)
    → (limitation_of name root complete has_snapshot ≡ none)
      ↔ ((complete ≡ true) × (has_snapshot ≡ true))
unfolding limitation_of
limitation_of-none name root true true = (λ h. (refl, refl), λ h. refl)
limitation_of-none name root true false = (λ h. cc, λ h. cc)
limitation_of-none name root false true = (λ h. cc, λ h. cc)
limitation_of-none name root false false = (λ h. cc, λ h. cc)

abbrev has_snapshot : Option (Dict String) → Bool
has_snapshot none = false
has_snapshot (some d) = true

has_snapshot_iff :
    (o : Option (Dict String)) → (has_snapshot o ≡ true) ↔ ((d : Dict String) × (o ≡ some d))
has_snapshot_iff none = (λ h. cc, λ h. cc h.1)
has_snapshot_iff (some d) = (λ h. (d, refl), λ h. refl)

module _ {A : Type 0} (s : StoreAdapter A) where
  lineage_limitation-none :
      (l : LineageLedger) (a : A) (root : String)
      → (lineage_limitation s l a root ≡ none) ↔ (
          (s.lineage_complete l a root ≡ reported true)
          × ((d : Dict String) × (s.snapshot l a ≡ some d)))
  unfolding lineage_limitation
  lineage_limitation-none l a root =
      let n =
        limitation_of-none (s.name a) root (audited (s.lineage_complete l a root))
          (has_snapshot (s.snapshot l a)) in
      let c = audited_iff (s.lineage_complete l a root) in
      let p = has_snapshot_iff (s.snapshot l a) in
      (λ h. let (x, y) = n.0 h in (c.0 x, p.0 y), λ (x, y). n.1 (c.1 x, p.1 y))

  -- The coverage that is recorded for a store is `verified` exactly when the gated store reports
  -- it, the store vouched for complete lineage before, and it has a state snapshot. A store that
  -- raises, has no such method or returns something else is never verified.
  pub checkpoint_coverage-verified :
      (l : LineageLedger) (a gated : A) (root : String)
      → ((checkpoint_coverage s l gated root (lineage_limitation s l a root)).0 ≡ verified) ↔ (
          (s.quarantine_coverage l gated root ≡ reported verified)
          × (s.lineage_complete l a root ≡ reported true)
          × ((d : Dict String) × (s.snapshot l a ≡ some d)))
  unfolding checkpoint_coverage
  checkpoint_coverage-verified l a gated root =
      let t =
        settle-verified (s.name gated) root (s.quarantine_coverage l gated root)
          (lineage_limitation s l a root) in
      let n = lineage_limitation-none l a root in
      (λ h. let (x, y) = t.0 h in let (c, p) = n.0 y in (x, c, p), λ (x, c, p). t.1 (x, n.1 (c, p)))
