-- ===== src/Controller/Gate/Hides.antt =====
-- When `_quarantine` returns, every enumerated descendant of the root is gated in every store.
use llm_errata.Prelude.{
  ◌≡◌, refl, inl, inr, sym, ◌∙◌, ap, subst, Bool, true, not, List, [], ◌∷◌, String, All, every,
  contains, every-contains, sort_by, arith,
}
use llm_errata.Errors.{
  Result, ok, raise, Exception, key_error, index_error, value_error, cannot_enumerate,
  interrupted_repair, type_error, schema_error, malformed_schema, recursion_error, feed_error,
  checkpoint_error, Result-cases,
}
use llm_errata.Signing.{Crypto}
use llm_errata.Lineage.{LineageLedger}
use llm_errata.Errata.{Erratum}
use llm_errata.Adapters.{StoreAdapter, Hit}
use llm_errata.Adapters.Lawful.{IsLawful}
use llm_errata.Checkpoints.{QuarantineCheckpoint}
use llm_errata.Step.{bind-eq-ok}
use llm_errata.Controller.{Importer, log}
use llm_errata.Controller.Observe.{observe}
use llm_errata.Controller.Observe.Accepted.{observe-Untouched, observe_iff}
use llm_errata.Controller.Gate.{
  Gating, gate_found, gate_one, gate_all, gate_adapters, gate, quarantine, nothing_gated,
  make_records,
}

module _ {A : Type 0} (s : StoreAdapter A) where
  -- The identifiers that an enumeration gave.
  abbrev pub enumerated : Result (List String) → List String
  enumerated (ok ids) = ids
  enumerated (raise e) = []

  -- Everything that a store enumerates for the root is gated.
  abbrev pub IsGated : LineageLedger → String → A → Type 0
  IsGated l root a = every (s.is_quarantined a) (enumerated (s.enumerate l a root)) ≡ true

  module _ (laws : IsLawful s) (l : LineageLedger) (root : String) where
    not_enumerated : (a : A) (e : Exception) → s.enumerate l a root ≡ raise e → IsGated l root a
    unfolding every
    not_enumerated a e h = rw h refl

    gate_found-IsGated :
        (a : A) (g : Gating) (r : Result (List String))
        → s.enumerate l a root ≡ r
        → IsGated l root (gate_found s l root a g r).0
    gate_found-IsGated a g (raise cannot_enumerate) h =
        not_enumerated (s.acknowledge a root) cannot_enumerate
          (laws.enumerate-acknowledge l a root root ∙ h)
    gate_found-IsGated a g (raise key_error) h = not_enumerated a key_error h
    gate_found-IsGated a g (raise index_error) h = not_enumerated a index_error h
    gate_found-IsGated a g (raise value_error) h = not_enumerated a value_error h
    gate_found-IsGated a g (raise interrupted_repair) h = not_enumerated a interrupted_repair h
    gate_found-IsGated a g (raise schema_error) h = not_enumerated a schema_error h
    gate_found-IsGated a g (raise malformed_schema) h = not_enumerated a malformed_schema h
    gate_found-IsGated a g (raise recursion_error) h = not_enumerated a recursion_error h
    gate_found-IsGated a g (raise type_error) h = not_enumerated a type_error h
    gate_found-IsGated a g (raise (feed_error x)) h = not_enumerated a (feed_error x) h
    gate_found-IsGated a g (raise (checkpoint_error x)) h = not_enumerated a (checkpoint_error x) h
    gate_found-IsGated a g (ok found) h =
        rw (laws.enumerate-quarantine l a found root ∙ h) (laws.gated l a root found h)

    gate_all-IsGated :
        (adapters : List A) (g : Gating) {g' : Gating}
        → (gate_all s l root adapters g).1 ≡ ok g'
        → All (IsGated l root) (gate_all s l root adapters g).0
    unfolding gate_all gate_one
    gate_all-IsGated [] g h = tt
    gate_all-IsGated (a ∷ rest) g h =
        let here = gate_found-IsGated a g (s.enumerate l a root) refl in
        elim (Result-cases (gate_one s l root a g).1) [
          | inl (g1, e) ↦ rw (e, gate_all) (here, gate_all-IsGated rest g1 (rw (e, gate_all) at h))
          | inr (x, e) ↦ cc (rw (e, gate_all) at h)
        ]

  gate-IsGated :
      (laws : IsLawful s) (root : String) (i : Importer A) {g : Gating}
      → (gate s root i).1 ≡ ok g
      → All (IsGated i.ledger root) (gate s root i).0.adapters
  unfolding gate gate_adapters log
  gate-IsGated laws root i h =
      let all = gate_all s i.ledger root i.adapters nothing_gated in
      elim (Result-cases all.1) [
        | inl (g, e) ↦ rw (e, gate) (gate_all-IsGated laws i.ledger root i.adapters nothing_gated e)
        | inr (x, e) ↦ cc (rw (e, gate) at h)
      ]

  gate-ledger : (root : String) (i : Importer A) → (gate s root i).0.ledger ≡ i.ledger
  unfolding gate gate_adapters log
  gate-ledger root i = elim (Result-cases (gate_all s i.ledger root i.adapters nothing_gated).1) [
    | inl (g, e) ↦ rw (e, gate) refl
    | inr (x, e) ↦ rw (e, gate) refl
  ]

  -- No query retrieves what the store enumerates for the root.
  abbrev pub IsHidden : LineageLedger → String → A → Type 0
  IsHidden l root a =
      (query : String)
      → every (λ (hit : Hit). not (contains (enumerated (s.enumerate l a root)) hit.artifact_id))
          (s.recall l a query)
        ≡ true

  hits-hidden :
      (a : A) (ids : List String) (hits : List Hit)
      → every (s.is_quarantined a) ids ≡ true
      → every (λ (hit : Hit). not (s.is_quarantined a hit.artifact_id)) hits ≡ true
      → every (λ (hit : Hit). not (contains ids hit.artifact_id)) hits ≡ true
  unfolding every
  hits-hidden a ids [] g h = refl
  hits-hidden a ids (hit ∷ hits) g h =
      ground (
        arith,
        hits-hidden a ids hits g,
        every-contains (s.is_quarantined a) ids hit.artifact_id,
        g,
      )

  gated-IsHidden :
      (laws : IsLawful s) (l : LineageLedger) (root : String) (adapters : List A)
      → All (IsGated l root) adapters
      → All (IsHidden l root) adapters
  gated-IsHidden laws l root [] h = tt
  gated-IsHidden laws l root (a ∷ adapters) h = (
    λ query.
        hits-hidden a (enumerated (s.enumerate l a root)) (s.recall l a query) h.0
          (laws.hidden l a query),
    gated-IsHidden laws l root adapters h.1,
  )

  module _ (crypto : Crypto) (from_iso : String → Bool) where
    -- The step of a quarantine that gates, in between the observation and the records.
    quarantine-gate :
        (now : String) (e : Erratum) (i i' : Importer A) (c : QuarantineCheckpoint)
        → quarantine s crypto from_iso now e i ≡ (i', ok c)
        → (i1 : Importer A) × (g : Gating) × (i1.ledger ≡ i.ledger)
          × (gate s e.target_root i1 ≡ (i', ok g))
    unfolding quarantine
    quarantine-gate now e i i' c h =
        let (i1, valid, seen, h1) = bind-eq-ok (observe crypto e i) _ h in
        let (i2, g, gated, h2) = bind-eq-ok (gate s valid.target_root i1) _ h1 in
        let (i3, rs, recs, h3) =
          bind-eq-ok (i2, make_records s g (sort_by s.name i2.adapters)) _ h2 in
        let same : valid ≡ e = ((observe_iff crypto i i1 e valid).0 seen).0 in
        let kept : i1.ledger ≡ i.ledger = rw (seen) at (observe-Untouched crypto i e).ledger in
        let last : i2 ≡ i' = ap (λ r. r.0) recs ∙ ap (λ r. r.0) h3 in
        (
          i1,
          g,
          kept,
          subst (λ (v : Erratum). gate s v.target_root i1 ≡ (i', ok g)) same
              (subst (λ j. gate s valid.target_root i1 ≡ (j, ok g)) last gated),
        )

    -- When a quarantine of lawful stores returns a checkpoint, every identifier that a store
    -- enumerates for the root is gated in it, no query retrieves one, and the ledger is as it was.
    pub quarantine-IsHidden :
        (laws : IsLawful s) (now : String) (e : Erratum) (i i' : Importer A)
        (c : QuarantineCheckpoint)
        → quarantine s crypto from_iso now e i ≡ (i', ok c)
        → (i'.ledger ≡ i.ledger)
          × All (IsGated i'.ledger e.target_root) i'.adapters
          × All (IsHidden i'.ledger e.target_root) i'.adapters
    quarantine-IsHidden laws now e i i' c h =
        let (i1, g, kept, gated) = quarantine-gate now e i i' c h in
        let ledger : i'.ledger ≡ i1.ledger = rw (gated) at (gate-ledger e.target_root i1) in
        let all : All (IsGated i1.ledger e.target_root) i'.adapters =
          rw (gated) at (gate-IsGated laws e.target_root i1 (ap (λ r. r.1) gated)) in
        let here = subst (λ l. All (IsGated l e.target_root) i'.adapters) (sym ledger) all in
        (ledger ∙ kept, here, gated-IsHidden laws i'.ledger e.target_root i'.adapters here)
