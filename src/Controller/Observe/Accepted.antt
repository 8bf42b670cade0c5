-- ===== src/Controller/Observe/Accepted.antt =====
-- When an observed erratum is accepted, and what an observation leaves as it was.
use llm_errata.Prelude.{
  ℕ, ◌≡◌, refl, sym, ap, ◌∙◌, ◌↔◌, inl, inr, false, true, Option, none, some, List, [], ◌∷◌, ◌++◌,
  String, Bool-cases, Option-cases, get_at, get_at-put_at, put_at, subst, nat_eq, eq_iff, arith,
}
use llm_errata.Errors.{
  Result, ok, raise, key_error, index_error, value_error, cannot_enumerate, interrupted_repair,
  type_error, schema_error, malformed_schema, recursion_error, feed_error, checkpoint_error,
}
use llm_errata.Json.{Json, obj, field, str, num, end}
use llm_errata.Signing.{Crypto}
use llm_errata.Errata.{Erratum, verify_feed, event_fingerprint, conflicts}
use llm_errata.Errata.Feed.{IsAccepted, verify_feed_iff}
use llm_errata.Controller.{Importer, Phase, log, refused, observe as phase_observe}
use llm_errata.Controller.Observe.{
  observe, after_feed, refusal, having_observed, conflicting, set_default,
}

-- Everything of an importer but its journal and what it has observed.
pub record Untouched {A : Type 0} (i j : Importer A) : Type 0 where
  pub ledger : j.ledger ≡ i.ledger
  pub adapters : j.adapters ≡ i.adapters
  pub last_sequence : j.last_sequence ≡ i.last_sequence
  pub applied : j.applied ≡ i.applied
  pub owner : j.owner ≡ i.owner
  pub roots : j.roots ≡ i.roots
  pub signer : j.signer ≡ i.signer

nat_eq_refl : (n : ℕ) → nat_eq n n ≡ true
nat_eq_refl n = ground arith

set_default_new :
    (k : ℕ) (v : String × String) (d : List (ℕ × (String × String)))
    → get_at d k ≡ none
    → set_default k v d ≡ put_at k v d
set_default_new k v d h = rw (h, set_default) refl

set_default_old :
    (k : ℕ) (v : String × String) (d : List (ℕ × (String × String))) {w : String × String}
    → get_at d k ≡ some w
    → set_default k v d ≡ d
set_default_old k v d h = rw (h, set_default) refl

conflicts_iff :
    (crypto : Crypto) (fingerprint : String) (seen : Option (String × String))
    → (conflicts crypto fingerprint seen ≡ false)
      ↔ ((id other : String) → seen ≡ some (id, other) → other ≡ fingerprint)
conflicts_iff crypto fingerprint none = (λ h id other e. cc, λ h. refl)
conflicts_iff crypto fingerprint (some (id, other)) = (
  λ h _ _ e. let same : other ≡ fingerprint = (eq_iff other fingerprint).0 (ground arith) in cc,
  λ h. let same = (eq_iff other fingerprint).1 (h id other refl) in rw same refl,
)

module _ {A : Type 0} (crypto : Crypto) where
  log-Untouched : (p : Phase) (d : Json) (i : Importer A) → Untouched i (log p d i)
  unfolding log
  log-Untouched p d i = record {
    ledger = refl;
    adapters = refl;
    last_sequence = refl;
    applied = refl;
    owner = refl;
    roots = refl;
    signer = refl;
  }

  Untouched-refl : (i : Importer A) → Untouched i i
  Untouched-refl i = record {
    ledger = refl;
    adapters = refl;
    last_sequence = refl;
    applied = refl;
    owner = refl;
    roots = refl;
    signer = refl;
  }

  having_observed-Untouched :
      (i : Importer A) (e : Erratum) → Untouched i (having_observed crypto i e)
  unfolding having_observed log
  having_observed-Untouched i e = record {
    ledger = refl;
    adapters = refl;
    last_sequence = refl;
    applied = refl;
    owner = refl;
    roots = refl;
    signer = refl;
  }

  after_feed-Untouched :
      (i : Importer A) (e : Erratum) (r : Result (List Erratum))
      → Untouched i (after_feed crypto i e r).0
  unfolding after_feed
  after_feed-Untouched i e (raise (feed_error x)) = log-Untouched refused (refusal e) i
  after_feed-Untouched i e (raise key_error) = Untouched-refl i
  after_feed-Untouched i e (raise index_error) = Untouched-refl i
  after_feed-Untouched i e (raise value_error) = Untouched-refl i
  after_feed-Untouched i e (raise cannot_enumerate) = Untouched-refl i
  after_feed-Untouched i e (raise interrupted_repair) = Untouched-refl i
  after_feed-Untouched i e (raise schema_error) = Untouched-refl i
  after_feed-Untouched i e (raise malformed_schema) = Untouched-refl i
  after_feed-Untouched i e (raise recursion_error) = Untouched-refl i
  after_feed-Untouched i e (raise type_error) = Untouched-refl i
  after_feed-Untouched i e (raise (checkpoint_error x)) = Untouched-refl i
  after_feed-Untouched i e (ok []) = Untouched-refl i
  after_feed-Untouched i e (ok (first ∷ rest)) = having_observed-Untouched i e

  -- Observing never changes the ledger, a store, the last sequence or what was applied.
  pub observe-Untouched : (i : Importer A) (e : Erratum) → Untouched i (observe crypto e i).0
  unfolding observe
  observe-Untouched i e = elim (Bool-cases (conflicting crypto i e)) [
    | inl c ↦ rw c (log-Untouched refused (refusal e) i)
    | inr c ↦
        rw c
          (after_feed-Untouched i e (verify_feed crypto i.owner i.roots i.last_sequence (e ∷ [])))
  ]

  after_feed-ok :
      (i : Importer A) (e : Erratum) (r : Result (List Erratum)) {i' : Importer A} {e' : Erratum}
      → after_feed crypto i e r ≡ (i', ok e')
      → (rest : List Erratum) × (r ≡ ok (e' ∷ rest)) × (i' ≡ having_observed crypto i e)
  unfolding after_feed
  after_feed-ok i e (raise (feed_error x)) h = cc
  after_feed-ok i e (raise key_error) h = cc
  after_feed-ok i e (raise index_error) h = cc
  after_feed-ok i e (raise value_error) h = cc
  after_feed-ok i e (raise cannot_enumerate) h = cc
  after_feed-ok i e (raise interrupted_repair) h = cc
  after_feed-ok i e (raise schema_error) h = cc
  after_feed-ok i e (raise malformed_schema) h = cc
  after_feed-ok i e (raise recursion_error) h = cc
  after_feed-ok i e (raise type_error) h = cc
  after_feed-ok i e (raise (checkpoint_error x)) h = cc
  after_feed-ok i e (ok []) h = cc
  after_feed-ok i e (ok (first ∷ rest)) h = (rest, cc, cc)

  pub observe_iff :
      (i i' : Importer A) (e e' : Erratum)
      → (observe crypto e i ≡ (i', ok e')) ↔ (
          (e' ≡ e)
          × (i' ≡ having_observed crypto i e)
          × (conflicting crypto i e ≡ false)
          × IsAccepted crypto i.owner i.roots i.last_sequence (e ∷ []))
  unfolding observe
  observe_iff i i' e e' = (
    λ h. elim (Bool-cases (conflicting crypto i e)) [
      | inl c ↦ cc (rw c at h)
      | inr c ↦
          let (rest, fed, after) =
            after_feed-ok i e (verify_feed crypto i.owner i.roots i.last_sequence (e ∷ []))
              (rw c at h) in
          let (same, accepted) =
            (verify_feed_iff crypto i.owner i.roots i.last_sequence (e ∷ []) (e' ∷ rest)).0 fed in
          (cc, after, c, accepted)
    ],
    λ (same, after, c, accepted).
        rw
          (
            c,
            after_feed,
            (verify_feed_iff crypto i.owner i.roots i.last_sequence (e ∷ []) (e ∷ [])).1
                (refl, accepted),
          )
          cc,
  )

  -- Whatever was observed under the event's sequence had its fingerprint.
  abbrev pub IsConsistent : Importer A → Erratum → Type 0
  IsConsistent i e =
      (id fingerprint : String)
      → get_at i.observed e.sequence ≡ some (id, fingerprint)
      → fingerprint ≡ event_fingerprint crypto e

  -- The event is in the record under its sequence, by the identifier that stood there or its own,
  -- and nothing else of the record has changed. The journal has one line more.
  pub record IsObserved (i : Importer A) (e : Erratum) (j : Importer A) : Type 0 where
    pub fresh :
        get_at i.observed e.sequence ≡ none
        → get_at j.observed e.sequence ≡ some (e.erratum_id, event_fingerprint crypto e)
    pub known :
        (id : String)
        → get_at i.observed e.sequence ≡ some (id, event_fingerprint crypto e)
        → get_at j.observed e.sequence ≡ some (id, event_fingerprint crypto e)
    pub others : (k : ℕ) → nat_eq e.sequence k ≡ false → get_at j.observed k ≡ get_at i.observed k
    pub logged :
        j.journal
        ≡ i.journal
          ++ record {
            phase = phase_observe;
            detail =
                obj (field "erratum" (str e.erratum_id) (field "sequence" (num e.sequence) end));
          }
            ∷ []
    pub untouched : Untouched i j

  having_observed-IsObserved :
      (i : Importer A) (e : Erratum) → IsObserved i e (having_observed crypto i e)
  unfolding having_observed log
  having_observed-IsObserved i e =
      let v : String × String = (e.erratum_id, event_fingerprint crypto e) in
      record {
        fresh = λ h.
            ap (λ d. get_at d e.sequence) (set_default_new e.sequence v i.observed h)
            ∙ get_at-put_at e.sequence e.sequence v i.observed
            ∙ rw (nat_eq_refl e.sequence) refl;
        known =
            λ id h. ap (λ d. get_at d e.sequence) (set_default_old e.sequence v i.observed h) ∙ h;
        others = λ k h. elim (Option-cases (get_at i.observed e.sequence)) [
          | inl gone ↦
              ap (λ d. get_at d k) (set_default_new e.sequence v i.observed gone)
              ∙ get_at-put_at e.sequence k v i.observed
              ∙ rw h refl
          | inr (seen, there) ↦ ap (λ d. get_at d k) (set_default_old e.sequence v i.observed there)
        ];
        logged = refl;
        untouched = having_observed-Untouched i e;
      }

  -- An event is accepted exactly when what was observed under its sequence, if anything, has its
  -- fingerprint, and the feed of it alone goes on from the last sequence. It is then returned as
  -- it was, is on record under its sequence, and the journal is one line longer; the record of the
  -- other sequences, the ledger, the stores, the last sequence and what was applied are as they
  -- were.
  pub observe-IsObserved :
      (i : Importer A) (e : Erratum)
      → (((j : Importer A) × (observe crypto e i ≡ (j, ok e)))
          ↔ (IsConsistent i e × IsAccepted crypto i.owner i.roots i.last_sequence (e ∷ [])))
        × ((j : Importer A) (returned : Erratum)
            → observe crypto e i ≡ (j, ok returned)
            → (returned ≡ e) × IsObserved i e j)
  observe-IsObserved i e =
      let agree =
        conflicts_iff crypto (event_fingerprint crypto e) (get_at i.observed e.sequence) in
      (
        (
          λ (j, h).
              let (_, _, calm, accepted) = (observe_iff i j e e).0 h in (agree.0 calm, accepted),
          λ (consistent, accepted). (
            having_observed crypto i e,
            (observe_iff i (having_observed crypto i e) e e).1
                (refl, refl, agree.1 consistent, accepted),
          ),
        ),
        λ j returned h.
            let (same, after, _, _) = (observe_iff i j e returned).0 h in
            (same, subst (IsObserved i e) (sym after) (having_observed-IsObserved i e)),
      )
