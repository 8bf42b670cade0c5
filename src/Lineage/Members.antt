-- ===== src/Lineage/Members.antt =====
-- What `descendants` returns is a set of registered artifacts.
use llm_errata.Prelude.{
  ℕ, zero, suc, ◌≡◌, inl, inr, Bool, true, false, List, [], ◌∷◌, String, Dict, values, keys,
  contains, contains-keys, add-IsUnique, IsUnique, Bool-cases, arith, length,
}
use llm_errata.Lineage.{Artifact, LineageLedger, direct, visit, sweep, closure_loop, descendants}
use llm_errata.Lineage.Invariant.{IsLedger}
use llm_errata.Lineage.Exact.{Derived, imported, derived, descendants_exact}

direct-IsUnique : (root : String) (d : Dict String) → IsUnique (direct root d)
unfolding direct
direct-IsUnique root [] = tt
direct-IsUnique root ((id, owner) ∷ d) =
    ground (arith, direct-IsUnique root d, add-IsUnique id (direct root d))

visit-IsUnique : (a : Artifact) (s : List String × Bool) → IsUnique s.0 → IsUnique (visit a s).0
unfolding visit
visit-IsUnique a s h = ground (arith, add-IsUnique a.artifact_id s.0)

sweep-IsUnique :
    (items : List Artifact) (s : List String × Bool) → IsUnique s.0 → IsUnique (sweep items s).0
unfolding sweep
sweep-IsUnique [] s h = h
sweep-IsUnique (a ∷ items) s h = sweep-IsUnique items (visit a s) (visit-IsUnique a s h)

closure_loop-IsUnique :
    (fuel : ℕ) (items : List Artifact) (c : List String)
    → IsUnique c
    → IsUnique (closure_loop fuel items c)
unfolding closure_loop
closure_loop-IsUnique zero items c h = h
closure_loop-IsUnique (suc fuel) items c h =
    let more = sweep-IsUnique items (c, false) h in
    elim (Bool-cases (sweep items (c, false)).1) [
      | inl e ↦
          rw (e, closure_loop) (closure_loop-IsUnique fuel items (sweep items (c, false)).0 more)
      | inr e ↦ rw (e, closure_loop) more
    ]

pub descendants-IsUnique : (l : LineageLedger) (root : String) → IsUnique (descendants l root)
unfolding descendants
descendants-IsUnique l root =
    closure_loop-IsUnique (suc (length (values l.artifacts))) (values l.artifacts)
      (direct root l.root_of) (direct-IsUnique root l.root_of)

Derived-registered :
    (l : LineageLedger) (root id : String)
    → IsLedger l
    → Derived l root id
    → contains (keys l.artifacts) id ≡ true
Derived-registered l root id v (imported _ h) = v.imported id (contains-keys l.root_of id root h)
Derived-registered l root id v (derived _ a item here m d) = contains-keys l.artifacts id a here

pub descendants-registered :
    (l : LineageLedger) (root id : String)
    → IsLedger l
    → contains (descendants l root) id ≡ true
    → contains (keys l.artifacts) id ≡ true
descendants-registered l root id v m =
    Derived-registered l root id v ((descendants_exact l root id v).0 m)
