-- ===== src/Adapters/Vector/Disposal.antt =====
-- What the vector store enumerates, and when it reports that a root is covered.
use llm_errata.Prelude.{
  ◌≡◌, refl, sym, ◌∙◌, ap, ◌↔◌, inl, inr, Bool, true, false, ◌||◌, some, List, [], ◌∷◌, String,
  Dict, get, keys, contains, contains-update, contains-keys, contains-sort, every-contains, eq_iff,
  update, IsUnique, Bool-cases, arith, ◌==◌,
}
use llm_errata.Lineage.{LineageLedger, descendants}
use llm_errata.Lineage.Invariant.{IsLedger}
use llm_errata.Lineage.Exact.{Derived, descendants_exact}
use llm_errata.Adapters.{verified}
use llm_errata.Adapters.Verdicts.{every_of, verdict-verified, gate_verdict-verified}
use llm_errata.Adapters.Vector.{
  Vector, entries_from, enumerate, coverage, quarantine_coverage, lineage_complete,
}

key_twice :
    (d : Dict String) (j k other : String)
    → contains (keys d) j ≡ false
    → j ≡ k
    → get d k ≡ some other
    → ⊥
key_twice d j k other u e found =
    cc (sym u ∙ (ap (contains (keys d)) e ∙ contains-keys d k other found))

first_value :
    (j k source other : String) (d : Dict String)
    → (j == k) ≡ true
    → get ((j, source) ∷ d) k ≡ some other
    → source ≡ other
unfolding get
first_value j k source other d e found = ground (arith, e, found)

later_value :
    (j k source : String) (d : Dict String) → ((j == k) ≡ false) → get ((j, source) ∷ d) k ≡ get d k
unfolding get
later_value j k source d e = rw e refl

contains-entries_from :
    (closure : List String) (d : Dict String) (k : String)
    → IsUnique (keys d)
    → (contains (entries_from closure d) k ≡ true)
      ↔ ((source : String) × (get d k ≡ some source) × (contains closure source ≡ true))
unfolding entries_from contains get keys
contains-entries_from closure [] k u = (λ h. cc, λ h. let (source, e, m) = h in cc)
contains-entries_from closure ((j, source) ∷ d) k u =
    let (there, back) = contains-entries_from closure d k u.1 in
    elim (Bool-cases (j == k)) [
      | inl e ↦ (
        λ h. elim (Bool-cases (contains closure source)) [
          | inl m ↦ (source, rw e refl, m)
          | inr m ↦
              let (other, found, _) = there (rw m at h) in
              absurd (key_twice d j k other u.0 ((eq_iff j k).0 e) found)
        ],
        λ (other, found, m).
            let same : source ≡ other = first_value j k source other d e found in
            let here : contains closure source ≡ true = rw same m in ground (arith, e, here),
      )
      | inr e ↦ (
        λ h.
            let (other, found, m) = there (ground (arith, e)) in
            (other, later_value j k source d e ∙ found, m),
        λ (other, found, m).
            ground (arith, e, back (other, sym (later_value j k source d e) ∙ found, m)),
      )
    ]

-- An entry of the store whose source is reached from the root.
abbrev pub EntryOf : LineageLedger → Vector → String → String → Type 0
EntryOf l v root k = (source : String) × (get v.sources k ≡ some source) × Derived l root source

module _ (l : LineageLedger) (v : Vector) (root : String) (ledger : IsLedger l)
    (unique : IsUnique (keys v.sources)) where
  -- `enumerate` returns exactly the entries whose source recorded derivation reaches from the root.
  pub enumerate_iff : (k : String) → (contains (enumerate l v root) k ≡ true) ↔ EntryOf l v root k
  unfolding enumerate
  enumerate_iff k =
      let closure = descendants l root in
      let (there, back) = contains-entries_from closure v.sources k unique in
      (
        λ h.
            let (source, found, m) =
              there (sym (contains-sort (entries_from closure v.sources) k) ∙ h) in
            (source, found, (descendants_exact l root source ledger).0 m),
        λ (source, found, m).
            contains-sort (entries_from closure v.sources) k
            ∙ back (source, found, (descendants_exact l root source ledger).1 m),
      )

  abbrev pub AllEntries : (String → Bool) → Type 0
  AllEntries p = (k : String) → EntryOf l v root k → p k ≡ true

  -- The coverage after a repair is `verified` exactly when every entry whose source is reached
  -- from the root is retired or rebuilt; that of a gate exactly when the lineage is complete and
  -- every such entry is quarantined.
  pub coverage-verified :
      ((coverage l v root ≡ verified)
        ↔ AllEntries (λ k. contains v.retired k || contains v.rebuilt k))
      × ((quarantine_coverage l v root ≡ verified)
          ↔ ((lineage_complete l v root ≡ true) × AllEntries (contains v.quarantined)))
  unfolding coverage quarantine_coverage
  coverage-verified =
      let ids = enumerate l v root in
      let disposed = update v.retired v.rebuilt in
      let t = verdict-verified ids disposed in
      let q = gate_verdict-verified (lineage_complete l v root) ids v.quarantined in
      (
        (
          λ h k d.
              sym (contains-update v.retired v.rebuilt k)
              ∙ every-contains (contains disposed) ids k (t.0 h) ((enumerate_iff k).1 d),
          λ h. t.1 (
              every_of (contains disposed) ids
                (λ k i. contains-update v.retired v.rebuilt k ∙ h k ((enumerate_iff k).0 i))),
        ),
        (
          λ h. (
            (q.0 h).0,
            λ k d. every-contains (contains v.quarantined) ids k (q.0 h).1 ((enumerate_iff k).1 d),
          ),
          λ (c, h).
              q.1 (c, every_of (contains v.quarantined) ids (λ k i. h k ((enumerate_iff k).0 i))),
        ),
      )
