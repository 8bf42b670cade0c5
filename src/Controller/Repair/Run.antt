-- ===== src/Controller/Repair/Run.antt =====
-- The steps that a repair which returns has gone through.
use llm_errata.Prelude.{ℕ, ◌≡◌, sym, ◌∙◌, ap, subst, List, [], String, Dict}
use llm_errata.Errors.{ok, ok-injective}
use llm_errata.Json.{obj, string_fields}
use llm_errata.Signing.{Crypto}
use llm_errata.Errata.{Erratum}
use llm_errata.Adapters.{Coverage, StoreAdapter}
use llm_errata.Checkpoints.{QuarantineCheckpoint}
use llm_errata.Receipts.{Receipt}
use llm_errata.Step.{bind-eq-ok, lift-eq-ok}
use llm_errata.Controller.{Importer, log, rebuild_begin, rebuild_complete, test}
use llm_errata.Controller.Observe.{observe}
use llm_errata.Controller.Observe.Accepted.{observe_iff}
use llm_errata.Controller.Gate.{root_detail}
use llm_errata.Controller.Recheck.{validate_checkpoint}
use llm_errata.Controller.Probes.{run_triad}
use llm_errata.Controller.Attest.{attest}
use llm_errata.Controller.Repair.{
  Strategy, gated_of, limitations_of, coverages_of, settle, repair_authenticated,
  repair_quarantined,
}

module _ {A : Type 0} (s : StoreAdapter A) (lower : String → List ℕ) (crypto : Crypto) where
  -- The importer when the strategy begins, behind it, and when the receipt is made.
  abbrev pub at_begin : Erratum → Importer A → Importer A
  at_begin e i = log rebuild_begin (root_detail e.target_root) i

  abbrev pub at_complete : Erratum → Importer A → Importer A
  at_complete e i = log rebuild_complete (root_detail e.target_root) i

  abbrev pub at_test : Dict String → Importer A → Importer A
  at_test triad i = log test (obj (string_fields triad)) i

  pub record Run (strategy : Strategy A) (e : Erratum) (c : QuarantineCheckpoint)
      (i i' : Importer A) (receipt : Receipt) : Type 0 where
    pub observed : Importer A
    pub rebuilt : Importer A
    pub coverage : Dict Coverage
    pub triad : Dict String
    pub seen : observe crypto e i ≡ (observed, ok e)
    pub checked : validate_checkpoint s crypto observed e c ≡ ok tt
    pub covered : coverages_of c.adapters [] ≡ ok coverage
    pub repaired : strategy e (gated_of c.adapters []) (at_begin e observed) ≡ (rebuilt, ok tt)
    pub probed : run_triad s lower (at_complete e rebuilt) e ≡ ok triad
    pub attested :
        attest s crypto
          (at_test triad (at_complete e rebuilt))
          e
          c.pre_state_root
          coverage
          (limitations_of c.adapters [])
          triad
        ≡ ok receipt
    pub settled : i' ≡ settle e receipt (at_test triad (at_complete e rebuilt))

  repair_authenticated-Run :
      (strategy : Strategy A) (e : Erratum) (c : QuarantineCheckpoint) (i i1 i' : Importer A)
      (receipt : Receipt)
      → observe crypto e i ≡ (i1, ok e)
      → repair_authenticated s lower crypto strategy c e i1 ≡ (i', ok receipt)
      → Run strategy e c i i' receipt
  unfolding repair_authenticated
  repair_authenticated-Run strategy e c i i1 i' receipt seen h =
      let (u, checked, h2) = lift-eq-ok i1 (validate_checkpoint s crypto i1 e c) _ h in
      let (coverage, covered, h3) = lift-eq-ok i1 (coverages_of c.adapters []) _ h2 in
      let (i2, v, repaired, h4) =
        bind-eq-ok (strategy e (gated_of c.adapters []) (at_begin e i1)) _ h3 in
      let (triad, probed, h5) =
        lift-eq-ok (at_complete e i2) (run_triad s lower (at_complete e i2) e) _ h4 in
      let i3 = at_test triad (at_complete e i2) in
      let (found, attested, h6) =
        lift-eq-ok i3
          (attest s crypto i3 e c.pre_state_root coverage (limitations_of c.adapters []) triad) _
          h5 in
      let given : found ≡ receipt = ok-injective (ap (λ r. r.1) h6) in
      record {
        observed = i1;
        rebuilt = i2;
        coverage = coverage;
        triad = triad;
        seen = seen;
        checked = checked;
        covered = covered;
        repaired = repaired;
        probed = probed;
        attested = attested ∙ ap ok given;
        settled = sym (ap (λ r. r.0) h6) ∙ ap (λ r. settle e r i3) given;
      }

  pub repair_quarantined-Run :
      (strategy : Strategy A) (e : Erratum) (c : QuarantineCheckpoint) (i i' : Importer A)
      (receipt : Receipt)
      → repair_quarantined s lower crypto strategy e c i ≡ (i', ok receipt)
      → Run strategy e c i i' receipt
  unfolding repair_quarantined
  repair_quarantined-Run strategy e c i i' receipt h =
      let (i1, valid, seen, h1) =
        bind-eq-ok (observe crypto e i) (repair_authenticated s lower crypto strategy c) h in
      let same : valid ≡ e = ((observe_iff crypto i i1 e valid).0 seen).0 in
      repair_authenticated-Run strategy e c i i1 i' receipt (seen ∙ ap (λ v. (i1, ok v)) same) (
        subst (λ v. repair_authenticated s lower crypto strategy c v i1 ≡ (i', ok receipt)) same h1)
