-- ===== src/Controller/Repair/Sequence.antt =====
-- How a repair moves the sequence that was applied last, and what is refused behind it.
use llm_errata.Prelude.{
  ℕ, ◌+◌, ◌≤◌, ◌≡◌, refl, ◌∙◌, ap, not, some, List, [], ◌∷◌, String, Dict, get, get-put, eq_refl,
  inl, inr, Bool-cases, arith, if◌then◌else◌, leb, ltb, concat, number_text,
}
use llm_errata.Errors.{ok, raise, Exception, Result-cases}
use llm_errata.Signing.{Crypto}
use llm_errata.Lineage.{register_import}
use llm_errata.Errata.{Erratum}
use llm_errata.Adapters.{StoreAdapter}
use llm_errata.Checkpoints.{QuarantineCheckpoint}
use llm_errata.Receipts.{Receipt}
use llm_errata.Step.{lift, modify, done, ◌>>◌}
use llm_errata.Controller.{Importer, Phase, log, rebuild_begin, rebuild_complete, test}
use llm_errata.Json.{Json, obj, string_fields}
use llm_errata.Controller.Kept.{Kept, Keeps, KeepsOnRaise, Kept-refl, chain-KeepsOnRaise}
use llm_errata.Controller.Gate.{root_detail}
use llm_errata.Controller.Recheck.{validate_checkpoint}
use llm_errata.Controller.Probes.{run_triad}
use llm_errata.Controller.Attest.{attest}
use llm_errata.Controller.Observe.{observe}
use llm_errata.Controller.Observe.Accepted.{Untouched, observe-Untouched, observe_iff}
use llm_errata.Controller.Repair.{
  Strategy, gated_of, limitations_of, coverages_of, settle, repair_authenticated,
  repair_quarantined,
}
use llm_errata.Controller.Repair.Run.{repair_quarantined-Run, at_begin, at_complete, at_test}
use llm_errata.Controller.Reimport.{reimport}

leb-ltb : (m n : ℕ) → leb m n ≡ not (ltb n m)
leb-ltb m n = ground arith

log-Keeps : {A : Type 0} (p : Phase) (d : Json) → Keeps (modify (log {A = A} p d))
unfolding log
log-Keeps p d i = record { last_sequence = refl; applied = refl }

module _ {A : Type 0} (s : StoreAdapter A) (lower : String → List ℕ) (crypto : Crypto)
    (strategy : Strategy A) where
  -- A repair that returns moves the last sequence on by one, to the sequence of its erratum, and
  -- records that sequence as applied to the root.
  pub repair_quarantined-advances :
      (e : Erratum) (c : QuarantineCheckpoint) (i i' : Importer A) (receipt : Receipt)
      → repair_quarantined s lower crypto strategy e c i ≡ (i', ok receipt)
      → (i'.last_sequence ≡ e.sequence)
        × (e.sequence ≡ i.last_sequence + 1)
        × (get i'.applied e.target_root ≡ some e.sequence)
  unfolding settle log
  repair_quarantined-advances e c i i' receipt h =
      let run = repair_quarantined-Run s lower crypto strategy e c i i' receipt h in
      let next = ((observe_iff crypto i run.observed e e).0 run.seen).3.consecutive.0 in
      (
        ap (λ j. j.last_sequence) run.settled,
        next,
        ap (λ j. get j.applied e.target_root) run.settled
            ∙ ground (
              arith,
              get-put e.target_root e.target_root e.sequence run.rebuilt.applied,
              eq_refl e.target_root,
            ),
      )

  -- Behind a repair that returns, every event at or before its sequence is refused, and the
  -- refusal leaves the ledger, the stores and the last sequence alone.
  pub repair_quarantined-replay :
      (e e2 : Erratum) (c : QuarantineCheckpoint) (i i' : Importer A) (receipt : Receipt)
      → repair_quarantined s lower crypto strategy e c i ≡ (i', ok receipt)
      → e2.sequence ≤ e.sequence
      → ((x : Exception) × ((observe crypto e2 i').1 ≡ raise x))
        × Untouched i' (observe crypto e2 i').0
  repair_quarantined-replay e e2 c i i' receipt h le =
      let (last, _, _) = repair_quarantined-advances e c i i' receipt h in
      (
        elim (Result-cases (observe crypto e2 i').1) [
          | inl (e3, k) ↦
              let next =
                ((observe_iff crypto i' (observe crypto e2 i').0 e2 e3).0
                  (ap (λ r. ((observe crypto e2 i').0, r)) k)).3.consecutive.0 in
              absurd (omega (arith, last, next, le))
          | inr refused ↦ refused
        ],
        observe-Untouched crypto i' e2,
      )

  -- Behind a repair that returns, a re-export of its root is refused without a change of the
  -- ledger when its sequence is at or before the erratum's, and is imported when it is later.
  pub repair_quarantined-reimport :
      (e : Erratum) (c : QuarantineCheckpoint) (i i' : Importer A) (receipt : Receipt)
      (content : String) (sequence : ℕ)
      → repair_quarantined s lower crypto strategy e c i ≡ (i', ok receipt)
      → ((reimport e.target_root content sequence i').1 ≡ ltb e.sequence sequence)
        × ((reimport e.target_root content sequence i').0.ledger ≡ (
            if ltb e.sequence sequence
            then register_import e.target_root
                (concat ("fact:reimport:" ∷ number_text sequence ∷ []))
                "markdown"
                content
                i'.ledger
            else i'.ledger))
  unfolding reimport log
  repair_quarantined-reimport e c i i' receipt content sequence h =
      let (_, _, applied) = repair_quarantined-advances e c i i' receipt h in
      rw (applied, reimport)
        (rw (leb-ltb sequence e.sequence) (elim (Bool-cases (ltb e.sequence sequence)) [
          | inl fresh ↦ rw fresh (refl, refl)
          | inr stale ↦ rw stale (refl, refl)
        ]))

  settle-KeepsOnRaise :
      (e : Erratum) (receipt : Receipt)
      → KeepsOnRaise (modify (settle {A = A} e receipt) >> done receipt)
  settle-KeepsOnRaise e receipt i x h = cc

  repair_authenticated-KeepsOnRaise :
      (c : QuarantineCheckpoint) (e : Erratum)
      → ((e : Erratum) (gated : Dict (List String)) → Keeps (strategy e gated))
      → KeepsOnRaise (repair_authenticated s lower crypto strategy c e)
  unfolding repair_authenticated
  repair_authenticated-KeepsOnRaise c e keeps =
      chain-KeepsOnRaise (lift (λ i. validate_checkpoint s crypto i e c)) _ Kept-refl (λ _.
        chain-KeepsOnRaise (lift (λ _. coverages_of c.adapters [])) _ Kept-refl (λ coverage.
          chain-KeepsOnRaise (modify (at_begin s lower crypto e)) _
            (log-Keeps rebuild_begin (root_detail e.target_root))
            (λ _.
              chain-KeepsOnRaise (strategy e (gated_of c.adapters [])) _
                (keeps e (gated_of c.adapters []))
                (λ _.
                  chain-KeepsOnRaise (modify (at_complete s lower crypto e)) _
                    (log-Keeps rebuild_complete (root_detail e.target_root))
                    (λ _.
                      chain-KeepsOnRaise (lift (λ i. run_triad s lower i e)) _ Kept-refl (λ triad.
                        chain-KeepsOnRaise (modify (at_test s lower crypto triad)) _
                          (log-Keeps test (obj (string_fields triad)))
                          (λ _.
                            chain-KeepsOnRaise
                              (lift (λ i.
                                attest s crypto i e c.pre_state_root coverage
                                  (limitations_of c.adapters []) triad))
                              _ Kept-refl (settle-KeepsOnRaise e))))))))

  -- A repair that raises, at whatever step, leaves the last sequence and what was applied as
  -- they were, when the strategy does not write to them.
  pub repair_quarantined-KeepsOnRaise :
      (e : Erratum) (c : QuarantineCheckpoint)
      → ((e : Erratum) (gated : Dict (List String)) → Keeps (strategy e gated))
      → (i : Importer A) (x : Exception)
      → (repair_quarantined s lower crypto strategy e c i).1 ≡ raise x
      → Kept i (repair_quarantined s lower crypto strategy e c i).0
  unfolding repair_quarantined
  repair_quarantined-KeepsOnRaise e c keeps =
      chain-KeepsOnRaise (observe crypto e) (repair_authenticated s lower crypto strategy c)
        (λ i.
          let u = observe-Untouched crypto i e in
          record { last_sequence = u.last_sequence; applied = u.applied })
        (λ valid. repair_authenticated-KeepsOnRaise c valid keeps)
