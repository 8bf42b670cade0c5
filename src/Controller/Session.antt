-- ===== src/Controller/Session.antt =====
-- The calls of an importer one after the other, and what holds behind all of them.
use llm_errata.Prelude.{
  ℕ, ◌≤◌, ◌≡◌, refl, ◌∙◌, ap, inl, inr, Bool, List, [], ◌∷◌, String, Dict, get, put, values, All,
  sort_by, Bool-cases, Option-cases, arith, leb, ◌==◌,
}
use llm_errata.Errors.{ok, Result-cases}
use llm_errata.Signing.{Crypto}
use llm_errata.Errata.{Erratum}
use llm_errata.Adapters.{StoreAdapter}
use llm_errata.Checkpoints.{AdapterCheckpoint, QuarantineCheckpoint, create}
use llm_errata.Receipts.{Receipt}
use llm_errata.Step.{Step, lift, read, ◌>>=◌}
use llm_errata.Controller.{Importer, log, state_root}
use llm_errata.Controller.Kept.{Kept, Kept-refl, Keeps, chain-Keeps}
use llm_errata.Controller.Observe.{observe}
use llm_errata.Controller.Observe.Accepted.{observe-Untouched}
use llm_errata.Controller.Gate.{
  quarantine, gate, gate_adapters, gate_all, nothing_gated, make_records, Gating,
}
use llm_errata.Controller.Repair.{Strategy, repair_quarantined, settle, gated_of}
use llm_errata.Controller.Repair.Run.{repair_quarantined-Run, at_begin}
use llm_errata.Controller.Repair.Sequence.{
  repair_quarantined-advances, repair_quarantined-KeepsOnRaise,
}
use llm_errata.Controller.Reimport.{reimport, imported}

-- No root has an applied sequence behind the last one.
abbrev pub IsBounded : {A : Type 0} → Importer A → Type 0
IsBounded i = All (λ n. n ≤ i.last_sequence) (values i.applied)

Kept-IsBounded : {A : Type 0} {i j : Importer A} → Kept i j → IsBounded i → IsBounded j
Kept-IsBounded k b = rw (k.applied, k.last_sequence) b

bounded_rise :
    (m n : ℕ) (d : Dict ℕ) → m ≤ n → All (λ k. k ≤ m) (values d) → All (λ k. k ≤ n) (values d)
unfolding values
bounded_rise m n [] le b = tt
bounded_rise m n ((j, w) ∷ d) le b = (omega (arith, le, b.0), bounded_rise m n d le b.1)

bounded_put :
    (m n v : ℕ) (key : String) (d : Dict ℕ)
    → m ≤ n
    → v ≤ n
    → All (λ k. k ≤ m) (values d)
    → All (λ k. k ≤ n) (values (put key v d))
unfolding put values
bounded_put m n v key [] le h b = (h, tt)
bounded_put m n v key ((j, w) ∷ d) le h b = elim (Bool-cases (j == key)) [
  | inl e ↦ rw e (h, bounded_rise m n d le b.1)
  | inr e ↦ rw e (omega (arith, le, b.0), bounded_put m n v key d le h b.1)
]

module _ {A : Type 0} (s : StoreAdapter A) (lower : String → List ℕ) (crypto : Crypto)
    (from_iso : String → Bool) (strategy : Strategy A) where
  observe-Kept : (e : Erratum) → Keeps (observe {A = A} crypto e)
  observe-Kept e i =
      let u = observe-Untouched crypto i e in
      record { last_sequence = u.last_sequence; applied = u.applied }

  gate-Kept : (root : String) → Keeps (gate s root)
  unfolding gate gate_adapters log
  gate-Kept root i = elim (Result-cases (gate_all s i.ledger root i.adapters nothing_gated).1) [
    | inl (g, e) ↦ rw (e, gate) (record { last_sequence = refl; applied = refl })
    | inr (x, e) ↦ rw (e, gate) (record { last_sequence = refl; applied = refl })
  ]

  quarantine-Kept : (now : String) (e : Erratum) → Keeps (quarantine s crypto from_iso now e)
  unfolding quarantine
  quarantine-Kept now e =
      let finish : Erratum
          → String
          → List AdapterCheckpoint
          → Step (Importer A) QuarantineCheckpoint =
        λ valid pre records. lift (λ _.
          create crypto from_iso valid.erratum_id valid.sequence valid.target_root pre records
            now) in
      let recorded : Erratum → String → Gating → Step (Importer A) QuarantineCheckpoint =
        λ valid pre g.
          lift (λ i. make_records s g (sort_by s.name i.adapters)) >>= finish valid pre in
      let gated : Erratum → String → Step (Importer A) QuarantineCheckpoint =
        λ valid pre. gate s valid.target_root >>= recorded valid pre in
      chain-Keeps (observe crypto e) (λ valid. read (state_root s crypto) >>= gated valid)
        (observe-Kept e)
        (λ valid. chain-Keeps (read (state_root s crypto)) (gated valid) Kept-refl (λ pre.
          chain-Keeps (gate s valid.target_root) (recorded valid pre) (gate-Kept valid.target_root)
            (λ g.
              chain-Keeps (lift (λ i. make_records s g (sort_by s.name i.adapters)))
                (finish valid pre) Kept-refl (λ records. Kept-refl))))

  -- The importer behind a repair that returns has one sequence more that is applied.
  repaired-applied :
      (e : Erratum) (c : QuarantineCheckpoint) (i i' : Importer A) (receipt : Receipt)
      → ((e : Erratum) (gated : Dict (List String)) → Keeps (strategy e gated))
      → repair_quarantined s lower crypto strategy e c i ≡ (i', ok receipt)
      → i'.applied ≡ put e.target_root e.sequence i.applied
  unfolding settle log
  repaired-applied e c i i' receipt keeps h =
      let run = repair_quarantined-Run s lower crypto strategy e c i i' receipt h in
      let begun = at_begin s lower crypto e run.observed in
      let seen : run.observed.applied ≡ i.applied = rw (run.seen) at (observe-Kept e i).applied in
      let kept : run.rebuilt.applied ≡ begun.applied =
        rw (run.repaired) at (keeps e (gated_of c.adapters []) begun).applied in
      ap (λ j. j.applied) run.settled ∙ ap (put e.target_root e.sequence) (kept ∙ seen)

  -- The calls that change an importer, whether they return or raise.
  pub data Call : Importer A → Importer A → Type 0 where
    observing : (e : Erratum) (i : Importer A) → Call i (observe crypto e i).0
    quarantining :
        (now : String) (e : Erratum) (i : Importer A)
        → Call i (quarantine s crypto from_iso now e i).0
    repairing :
        (e : Erratum) (c : QuarantineCheckpoint) (i : Importer A)
        → Call i (repair_quarantined s lower crypto strategy e c i).0
    importing :
        (root content : String) (sequence : ℕ) (i : Importer A)
        → Call i (reimport root content sequence i).0

  pub data Session (start : Importer A) : Importer A → Type 0 where
    opened : Session start start
    called : (i j : Importer A) → Session start i → Call i j → Session start j

  reimport-Kept :
      (root content : String) (sequence : ℕ) (i : Importer A)
      → Kept i (reimport root content sequence i).0
  unfolding reimport imported log
  reimport-Kept root content sequence i = elim (Option-cases (get i.applied root)) [
    | inl e ↦ rw (e, reimport) (record { last_sequence = refl; applied = refl })
    | inr (n, e) ↦ elim (Bool-cases (leb sequence n)) [
      | inl stale ↦ rw (e, reimport) (rw stale (record { last_sequence = refl; applied = refl }))
      | inr fresh ↦ rw (e, reimport) (rw fresh (record { last_sequence = refl; applied = refl }))
    ]
  ]

  -- One call moves the last sequence on by at most one, and keeps the bound.
  abbrev Advances : Importer A → Importer A → Type 0
  Advances i j = (i.last_sequence ≤ j.last_sequence) × IsBounded j

  Kept-Advances : {i j : Importer A} → Kept i j → IsBounded i → Advances i j
  Kept-Advances k b = (omega (arith, k.last_sequence), Kept-IsBounded k b)

  repaired-Advances :
      (e : Erratum) (c : QuarantineCheckpoint) (i : Importer A)
      → ((e : Erratum) (gated : Dict (List String)) → Keeps (strategy e gated))
      → IsBounded i
      → Advances i (repair_quarantined s lower crypto strategy e c i).0
  repaired-Advances e c i keeps b =
      let j = (repair_quarantined s lower crypto strategy e c i).0 in
      elim (Result-cases (repair_quarantined s lower crypto strategy e c i).1) [
        | inl (receipt, h) ↦
            let full : repair_quarantined s lower crypto strategy e c i ≡ (j, ok receipt) =
              ap (λ r. (j, r)) h in
            let (last, next, _) =
              repair_quarantined-advances s lower crypto strategy e c i j receipt full in
            let applied = repaired-applied e c i j receipt keeps full in
            (
              omega (arith, last, next),
              rw applied (
                  bounded_put i.last_sequence j.last_sequence e.sequence e.target_root i.applied
                    (omega (arith, last, next)) (omega (arith, last)) b),
            )
        | inr (x, h) ↦
            Kept-Advances (repair_quarantined-KeepsOnRaise s lower crypto strategy e c keeps i x h)
              b
      ]

  Call-Advances :
      (i j : Importer A)
      → ((e : Erratum) (gated : Dict (List String)) → Keeps (strategy e gated))
      → Call i j
      → IsBounded i
      → Advances i j
  Call-Advances i _ keeps (observing e _) b = Kept-Advances (observe-Kept e i) b
  Call-Advances i _ keeps (quarantining now e _) b = Kept-Advances (quarantine-Kept now e i) b
  Call-Advances i _ keeps (repairing e c _) b = repaired-Advances e c i keeps b
  Call-Advances i _ keeps (importing root content sequence _) b =
      Kept-Advances (reimport-Kept root content sequence i) b

  -- Over a session of any calls, returning or raising, with a strategy that leaves the sequences
  -- alone: the last sequence never falls, and no root has an applied sequence above it.
  pub Session-IsBounded :
      (start i : Importer A)
      → ((e : Erratum) (gated : Dict (List String)) → Keeps (strategy e gated))
      → IsBounded start
      → Session start i
      → (start.last_sequence ≤ i.last_sequence) × IsBounded i
  Session-IsBounded start _ keeps b opened = (omega arith, b)
  Session-IsBounded start j keeps b (called i _ past call) =
      let (before, bound) = Session-IsBounded start i keeps b past in
      let (after, kept) = Call-Advances i j keeps call bound in (omega (arith, before, after), kept)
