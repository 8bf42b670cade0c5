-- ===== src/Lineage/Content.antt =====
-- Rewriting an artifact's content leaves the lineage alone.
use llm_errata.Prelude.{
  ℕ, zero, suc, ◌≡◌, refl, ap, ◌∙◌, inl, inr, Bool, false, some, List, [], ◌∷◌, String, Dict, get,
  put, values, length, Bool-cases, arith, ◌==◌,
}
use llm_errata.Errors.{ok}
use llm_errata.Lineage.{
  Artifact, LineageLedger, visit, sweep, closure_loop, descendants, set_content,
}
use llm_errata.Lineage.Invariant.{set_content-eq-ok}

-- The same identifiers with the same inputs, in the same order.
abbrev SameShape : List Artifact → List Artifact → Type 0
SameShape [] [] = Unit
SameShape (a ∷ items) (b ∷ others) =
    (a.artifact_id ≡ b.artifact_id) × (a.inputs ≡ b.inputs) × SameShape items others
SameShape _ _ = ⊥

SameShape-refl : (items : List Artifact) → SameShape items items
SameShape-refl [] = tt
SameShape-refl (a ∷ items) = (refl, refl, SameShape-refl items)

visit-shape :
    (a b : Artifact) (s : List String × Bool)
    → a.artifact_id ≡ b.artifact_id
    → a.inputs ≡ b.inputs
    → visit a s ≡ visit b s
unfolding visit
visit-shape a b s h k = rw (h, k)

sweep-shape :
    (items others : List Artifact) (s : List String × Bool)
    → SameShape items others
    → sweep items s ≡ sweep others s
unfolding sweep
sweep-shape [] [] s h = refl
sweep-shape [] (b ∷ others) s h = absurd h
sweep-shape (a ∷ items) [] s h = absurd h
sweep-shape (a ∷ items) (b ∷ others) s h =
    rw (visit-shape a b s h.0 h.1) (sweep-shape items others (visit b s) h.2)

length-shape :
    (items others : List Artifact) → SameShape items others → length items ≡ length others
length-shape [] [] h = refl
length-shape [] (b ∷ others) h = absurd h
length-shape (a ∷ items) [] h = absurd h
length-shape (a ∷ items) (b ∷ others) h = ap suc (length-shape items others h.2)

closure_loop-shape :
    (fuel : ℕ) (items others : List Artifact) (c : List String)
    → SameShape items others
    → closure_loop fuel items c ≡ closure_loop fuel others c
unfolding closure_loop
closure_loop-shape zero items others c h = refl
closure_loop-shape (suc fuel) items others c h =
    let e = sweep-shape items others (c, false) h in
    elim (Bool-cases (sweep others (c, false)).1) [
      | inl more ↦
          rw (e, closure_loop)
            (rw (more, closure_loop)
              (ap (λ (r : List String × Bool). closure_loop fuel items r.0) e
                ∙ closure_loop-shape fuel items others (sweep others (c, false)).0 h))
      | inr done ↦
          rw (e, closure_loop) (rw (done, closure_loop) (ap (λ (r : List String × Bool). r.0) e))
    ]

put-shape :
    (id : String) (a b : Artifact) (d : Dict Artifact)
    → get d id ≡ some a
    → b.artifact_id ≡ a.artifact_id
    → b.inputs ≡ a.inputs
    → SameShape (values (put id b d)) (values d)
unfolding get put values
put-shape id a b [] h e f = cc
put-shape id a b ((j, w) ∷ d) h e f = elim (Bool-cases (j == id)) [
  | inl hit ↦ rw hit (ground arith, ground arith, SameShape-refl (values d))
  | inr miss ↦ rw miss (refl, refl, put-shape id a b d (rw miss at h) e f)
]

-- What a root reaches does not depend on what the artifacts say.
pub descendants-set_content :
    (id content root : String) (l : LineageLedger) {l' : LineageLedger}
    → set_content id content l ≡ ok l'
    → descendants l' root ≡ descendants l root
unfolding descendants
descendants-set_content id content root l h =
    let (a, here, e) = set_content-eq-ok id content l h in
    let shape = put-shape id a (record a { content = content }) l.artifacts here refl refl in
    rw (e, length-shape _ _ shape) (closure_loop-shape _ _ _ _ shape)
