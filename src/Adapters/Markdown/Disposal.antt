-- ===== src/Adapters/Markdown/Disposal.antt =====
-- When the markdown store reports that a root is covered.
use llm_errata.Prelude.{
  ◌≡◌, refl, sym, ◌∙◌, ◌↔◌, Bool, true, ◌||◌, String, contains, contains-update, every-contains,
  update,
}
use llm_errata.Errors.{ok}
use llm_errata.Lineage.{LineageLedger}
use llm_errata.Lineage.Invariant.{IsLedger}
use llm_errata.Lineage.Exact.{Derived}
use llm_errata.Adapters.{Coverage, verified}
use llm_errata.Adapters.Verdicts.{
  every_of, verdict, verdict-verified, gate_verdict, gate_verdict-verified,
}
use llm_errata.Adapters.Markdown.{Markdown, coverage, quarantine_coverage, lineage_complete}
use llm_errata.Adapters.Markdown.Enumeration.{InStore, enumerate_exact}

module _ (l : LineageLedger) (m : Markdown) (root : String) (v : IsLedger l) where
  -- What a root reaches in the store is in the set.
  abbrev pub AllIn : (String → Bool) → Type 0
  AllIn p = (k : String) → Derived l root k × InStore l k → p k ≡ true

  -- The coverage after a repair is `verified` exactly when every artifact of the store that
  -- recorded derivation reaches from the root is retired or rebuilt.
  pub coverage_iff :
      (c : Coverage) × (coverage l m root ≡ ok c)
      × ((c ≡ verified) ↔ AllIn (λ k. contains m.retired k || contains m.rebuilt k))
  unfolding coverage
  coverage_iff =
      let (ids, e, _, mem) = enumerate_exact l root v in
      let disposed = update m.retired m.rebuilt in
      let t = verdict-verified ids disposed in
      (
        verdict ids disposed,
        rw (e, coverage) refl,
        (
          λ h k d.
              sym (contains-update m.retired m.rebuilt k)
              ∙ every-contains (contains disposed) ids k (t.0 h) ((mem k).1 d),
          λ h. t.1 (
              every_of (contains disposed) ids
                (λ k i. contains-update m.retired m.rebuilt k ∙ h k ((mem k).0 i))),
        ),
      )

  -- The coverage of a gate is `verified` exactly when the lineage of the root is complete and
  -- every artifact of the store that derivation reaches from the root is quarantined.
  pub quarantine_coverage_iff :
      (c : Coverage) × (quarantine_coverage l m root ≡ ok c)
      × ((c ≡ verified) ↔ ((lineage_complete l root ≡ true) × AllIn (contains m.quarantined)))
  unfolding quarantine_coverage
  quarantine_coverage_iff =
      let (ids, e, _, mem) = enumerate_exact l root v in
      let t = gate_verdict-verified (lineage_complete l root) ids m.quarantined in
      (
        gate_verdict (lineage_complete l root) ids m.quarantined,
        rw (e, quarantine_coverage) refl,
        (
          λ h. (
            (t.0 h).0,
            λ k d. every-contains (contains m.quarantined) ids k (t.0 h).1 ((mem k).1 d),
          ),
          λ (c, h). t.1 (c, every_of (contains m.quarantined) ids (λ k i. h k ((mem k).0 i))),
        ),
      )
