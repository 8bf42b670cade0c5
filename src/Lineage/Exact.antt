-- ===== src/Lineage/Exact.antt =====
-- `descendants` computes exactly the artifacts that recorded derivation reaches from a root.
use llm_errata.Prelude.{
  ℕ, zero, suc, ◌≡◌, subst, sym, add, ◌↔◌, inl, inr, Bool, true, false, some, List, [], ◌∷◌, String,
  Dict, get, keys, values, IsUnique, All, All-values, All-get, contains, contains-add, some_of,
  some_of-witness, some_of-contains, contains-keys, Bool-cases, eq_iff, arith, ◌==◌,
}
use llm_errata.Lineage.{Artifact, LineageLedger, direct, visit, sweep, closure_loop, descendants}
use llm_errata.Lineage.Closure.{
  outside-le-length, IsClosed, closure_loop_settles, closure_loop_mono, visit_hit, visit_keeps,
}
use llm_errata.Lineage.Invariant.{IsLedger}

-- What a root reaches: the artifacts imported for it, and those with an input that it reaches.
pub data Derived (l : LineageLedger) (root : String) : String → Type 0 where
  imported : (id : String) → get l.root_of id ≡ some root → Derived l root id
  derived :
      (id : String) (a : Artifact) (item : String)
      → get l.artifacts id ≡ some a
      → contains a.inputs item ≡ true
      → Derived l root item
      → Derived l root id

contains-direct :
    (root : String) (d : Dict String) (id : String)
    → IsUnique (keys d)
    → (contains (direct root d) id ≡ true) ↔ (get d id ≡ some root)
unfolding direct get keys contains
contains-direct root [] id u = ground arith
contains-direct root ((j, owner) ∷ d) id u = ground (
  arith,
  contains-direct root d id u.1,
  contains-add j id (direct root d),
  eq_iff owner root,
  eq_iff j id,
  contains-keys d id root,
)

module _ (l : LineageLedger) (root : String) where
  abbrev IsSound : List String → Type 0
  IsSound c = (k : String) → contains c k ≡ true → Derived l root k

  -- The artifacts that the loop runs over are those of the ledger, under their identifiers.
  abbrev Registered : List Artifact → Type 0
  Registered = All (λ a. get l.artifacts a.artifact_id ≡ some a)

  add-IsSound :
      (a : Artifact) (s : List String × Bool)
      → get l.artifacts a.artifact_id ≡ some a
      → IsSound s.0
      → (k : String) → some_of (contains s.0) a.inputs ≡ true
      → contains (add a.artifact_id s.0) k ≡ true
      → Derived l root k
  add-IsSound a s here h k hit m = elim (Bool-cases (a.artifact_id == k)) [
    | inl e ↦
        let (item, i, d) = some_of-witness (contains s.0) a.inputs hit in
        subst (Derived l root) ((eq_iff a.artifact_id k).0 e)
          (derived a.artifact_id a item here i (h item d))
    | inr e ↦ h k (ground (arith, contains-add a.artifact_id k s.0))
  ]

  visit-IsSound :
      (a : Artifact) (s : List String × Bool)
      → get l.artifacts a.artifact_id ≡ some a
      → IsSound s.0
      → IsSound (visit a s).0
  visit-IsSound a s here h k m = elim (Bool-cases (contains s.0 a.artifact_id)) [
    | inl old ↦ h k (rw (visit_keeps a s.0 s.1 (inl old)) at m)
    | inr new ↦ elim (Bool-cases (some_of (contains s.0) a.inputs)) [
      | inl hit ↦ add-IsSound a s here h k hit (rw (visit_hit a s.0 s.1 new hit) at m)
      | inr miss ↦ h k (rw (visit_keeps a s.0 s.1 (inr miss)) at m)
    ]
  ]

  sweep-IsSound :
      (items : List Artifact) (s : List String × Bool)
      → Registered items
      → IsSound s.0
      → IsSound (sweep items s).0
  unfolding sweep
  sweep-IsSound [] s r h = h
  sweep-IsSound (a ∷ items) s r h = sweep-IsSound items (visit a s) r.1 (visit-IsSound a s r.0 h)

  closure_loop-IsSound :
      (fuel : ℕ) (items : List Artifact) (c : List String)
      → Registered items
      → IsSound c
      → IsSound (closure_loop fuel items c)
  unfolding closure_loop
  closure_loop-IsSound zero items c r h = h
  closure_loop-IsSound (suc fuel) items c r h =
      let more = sweep-IsSound items (c, false) r h in
      elim (Bool-cases (sweep items (c, false)).1) [
        | inl e ↦
            rw (e, closure_loop) (closure_loop-IsSound fuel items (sweep items (c, false)).0 r more)
        | inr e ↦ rw (e, closure_loop) more
      ]

  module _ (v : IsLedger l) where
    descendants-IsClosed : IsClosed (descendants l root) (values l.artifacts)
    unfolding descendants
    descendants-IsClosed =
        (closure_loop_settles _ (values l.artifacts) (direct root l.root_of)
          (omega (arith, outside-le-length (values l.artifacts) (direct root l.root_of)))).0

    sound : (id : String) → contains (descendants l root) id ≡ true → Derived l root id
    unfolding descendants
    sound id m =
        closure_loop-IsSound _ (values l.artifacts) (direct root l.root_of)
          (All-values (λ a. get l.artifacts a.artifact_id ≡ some a) l.artifacts v.unique
            (λ k a here. subst (λ j. get l.artifacts j ≡ some a) (sym (v.keyed k a here)) here))
          (λ k d. imported k ((contains-direct root l.root_of k v.unique_roots).0 d)) id m

    complete : (id : String) → Derived l root id → contains (descendants l root) id ≡ true
    unfolding descendants
    complete id (imported _ h) =
        closure_loop_mono _ (values l.artifacts) (direct root l.root_of) id
          ((contains-direct root l.root_of id v.unique_roots).1 h)
    complete id (derived _ a item here m d) =
        let c = descendants l root in
        let closed =
          All-get (λ a. some_of (contains c) a.inputs ≡ true → contains c a.artifact_id ≡ true)
            l.artifacts id a descendants-IsClosed here in
        rw (← v.keyed id a here)
          (closed (some_of-contains (contains c) a.inputs item m (complete item d)))

-- In a well-formed ledger, `descendants` returns an identifier exactly when recorded derivation
-- reaches it from the root: the loop neither stops early nor adds what has no lineage.
pub descendants_exact :
    (l : LineageLedger) (root id : String)
    → IsLedger l
    → (contains (descendants l root) id ≡ true) ↔ Derived l root id
descendants_exact l root id v = (sound l root v id, complete l root v id)
