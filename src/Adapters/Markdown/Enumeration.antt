-- ===== src/Adapters/Markdown/Enumeration.antt =====
-- `enumerate` lists, in ascending order, the markdown artifacts that a root reaches.
use llm_errata.Prelude.{
  ◌≡◌, refl, ◌↔◌, inl, inr, subst, true, false, some, List, [], ◌∷◌, String, get, keys, contains,
  get_of_contains, IsUnique, sort, contains-sort, sort-IsAscending, IsAscending, Bool-cases, eq_iff,
  arith, if◌then◌else◌, ◌==◌,
}
use llm_errata.Errors.{ok}
use llm_errata.Lineage.{Artifact, LineageLedger, descendants, store_of}
use llm_errata.Lineage.Invariant.{IsLedger}
use llm_errata.Lineage.Exact.{Derived, descendants_exact}
use llm_errata.Lineage.Members.{descendants-IsUnique, descendants-registered}
use llm_errata.Adapters.Markdown.{name, stored_here, enumerate}

abbrev pub InStore : LineageLedger → String → Type 0
InStore l id = (a : Artifact) × (get l.artifacts id ≡ some a) × ((a.store == name) ≡ true)

record Filtered (l : LineageLedger) (items ids : List String) : Type 0 where
  members : (k : String) → (contains ids k ≡ true) ↔ ((contains items k ≡ true) × InStore l k)
  unique : IsUnique items → IsUnique ids

module _ (l : LineageLedger) where
  stored_here-cons :
      (item : String) (items ids : List String) (a : Artifact)
      → get l.artifacts item ≡ some a
      → stored_here l items ≡ ok ids
      → stored_here l (item ∷ items) ≡ ok (if a.store == name then item ∷ ids else ids)
  unfolding stored_here store_of
  stored_here-cons item items ids a here rest = ground arith

  at_home :
      (item k : String) (a : Artifact)
      → get l.artifacts item ≡ some a
      → item ≡ k
      → InStore l k
      → (a.store == name) ≡ false
      → ⊥
  at_home item k a here e (b, there, mine) other = cc

  Filtered-cons :
      (item : String) (items ids : List String) (a : Artifact)
      → get l.artifacts item ≡ some a
      → Filtered l items ids
      → Filtered l (item ∷ items) (if a.store == name then item ∷ ids else ids)
  unfolding contains
  Filtered-cons item items ids a here f = elim (Bool-cases (a.store == name)) [
    | inl mine ↦ rw mine (record {
      members = λ k. (
        λ h. elim (Bool-cases (item == k)) [
          | inl e ↦ (
            ground (arith, eq_iff item k),
            (a, subst (λ j. get l.artifacts j ≡ some a) ((eq_iff item k).0 e) here, mine),
          )
          | inr e ↦
              let (m, i) = (f.members k).0 (ground (arith, eq_iff item k)) in
              (ground (arith, eq_iff item k), i)
        ],
        λ h. ground (arith, f.members k, eq_iff item k),
      );
      unique = λ u. (ground (arith, f.members item), f.unique u.1);
    })
    | inr other ↦ rw other (record {
      members = λ k. (
        λ h. let (m, i) = (f.members k).0 h in (ground arith, i),
        λ h. elim (Bool-cases (item == k)) [
          | inl e ↦ absurd (at_home item k a here ((eq_iff item k).0 e) h.1 other)
          | inr e ↦ (f.members k).1 (ground arith, h.1)
        ],
      );
      unique = λ u. f.unique u.1;
    })
  ]

  stored_here-Filtered :
      (items : List String)
      → ((k : String) → contains items k ≡ true → contains (keys l.artifacts) k ≡ true)
      → (ids : List String) × (stored_here l items ≡ ok ids) × Filtered l items ids
  stored_here-Filtered [] known = (
    [],
    unfold stored_here in refl,
    record {
      members = λ k. (λ h. unfold contains in cc, λ h. unfold contains in cc);
      unique = λ u. tt;
    },
  )
  stored_here-Filtered (item ∷ items) known =
      let (a, here) =
        get_of_contains l.artifacts item
          (known item (unfold contains in ground (arith, eq_iff item item))) in
      let (ids, e, f) =
        stored_here-Filtered items (λ k m. known k (unfold contains in ground arith)) in
      (
        (if a.store == name then item ∷ ids else ids),
        stored_here-cons item items ids a here e,
        Filtered-cons item items ids a here f,
      )

  -- On a well-formed ledger, `enumerate` returns, in ascending order and each once, exactly the
  -- artifacts of the markdown store that recorded derivation reaches from the root.
  pub enumerate_exact :
      (root : String)
      → IsLedger l
      → (ids : List String) × (enumerate l root ≡ ok ids)
        × IsAscending ids
        × ((k : String) → (contains ids k ≡ true) ↔ (Derived l root k × InStore l k))
  unfolding enumerate
  enumerate_exact root v =
      let (ids, e, f) =
        stored_here-Filtered (descendants l root) (λ k m. descendants-registered l root k v m) in
      (
        sort ids,
        rw e refl,
        sort-IsAscending ids (f.unique (descendants-IsUnique l root)),
        λ k. (
          λ h.
              let (m, i) = (f.members k).0 (rw (contains-sort ids k) at h) in
              ((descendants_exact l root k v).0 m, i),
          λ h.
              rw (contains-sort ids k)
                ((f.members k).1 ((descendants_exact l root k v).1 h.0, h.1)),
        ),
      )
