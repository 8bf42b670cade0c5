-- ===== src/Lineage/Closure.antt =====
-- The loop of `descendants`: it ends, and where it ends nothing more can be added.
use llm_errata.Prelude.{
  ℕ, zero, suc, ◌≤◌, ◌<◌, ◌≡◌, refl, ◌⊎◌, inl, inr, Bool, true, false, List, [], ◌∷◌, String,
  length, contains, add, contains-add, some_of, Bool-cases, eq_refl, All, arith, if◌then◌else◌, ◌+◌,
  ap, ◌∙◌,
}
use llm_errata.Lineage.{Artifact, visit, sweep, closure_loop}

-- The artifacts that are not in the closure.
abbrev pub outside : List Artifact → List String → ℕ
outside [] c = 0
outside (a ∷ items) c = (if contains c a.artifact_id then 0 else 1) + outside items c

pub outside-le-length : (items : List Artifact) (c : List String) → outside items c ≤ length items
outside-le-length [] c = omega arith
outside-le-length (a ∷ items) c = ground (arith, outside-le-length items c)

visit_mono :
    (a : Artifact) (s : List String × Bool) (k : String)
    → contains s.0 k ≡ true
    → contains (visit a s).0 k ≡ true
unfolding visit
visit_mono a s k h = ground (arith, contains-add a.artifact_id k s.0)

pub sweep_mono :
    (items : List Artifact) (s : List String × Bool) (k : String)
    → contains s.0 k ≡ true
    → contains (sweep items s).0 k ≡ true
unfolding sweep
sweep_mono [] s k h = h
sweep_mono (a ∷ items) s k h = sweep_mono items (visit a s) k (visit_mono a s k h)

outside-visit :
    (b : Artifact) (items : List Artifact) (s : List String × Bool)
    → outside items (visit b s).0 ≤ outside items s.0
outside-visit b [] s = omega arith
outside-visit b (a ∷ items) s =
    ground (arith, outside-visit b items s, visit_mono b s a.artifact_id)

visit_progress :
    (a : Artifact) (s : List String × Bool)
    → (visit a s ≡ s)
      ⊎ (contains s.0 a.artifact_id ≡ false)
        × ((visit a s).1 ≡ true)
        × (contains (visit a s).0 a.artifact_id ≡ true)
unfolding visit
visit_progress a s =
    ground (arith, contains-add a.artifact_id a.artifact_id s.0, eq_refl a.artifact_id)

abbrev Progress : List Artifact → List String × Bool → List String × Bool → Type 0
Progress items s t = (t ≡ s) ⊎ (t.1 ≡ true) × (outside items t.0 < outside items s.0)

Progress-cons :
    (a : Artifact) (items : List Artifact) (s t u : List String × Bool)
    → (t ≡ s)
      ⊎ (contains s.0 a.artifact_id ≡ false) × (t.1 ≡ true) × (contains t.0 a.artifact_id ≡ true)
    → outside items t.0 ≤ outside items s.0
    → (contains t.0 a.artifact_id ≡ true → contains u.0 a.artifact_id ≡ true)
    → Progress items t u
    → Progress (a ∷ items) s u
Progress-cons a items s t u (inl e) fewer kept (inl q) = inl (q ∙ e)
Progress-cons a items s t u (inl e) fewer kept (inr q) =
    let held = ap (λ (r : List String × Bool). contains r.0 a.artifact_id) e in
    let left = ap (λ (r : List String × Bool). outside items r.0) e in
    inr (q.0, ground (arith, q.1))
Progress-cons a items s t u (inr v) fewer kept (inl q) =
    inr (ap (λ (r : List String × Bool). r.1) q ∙ v.1, rw q (ground arith))
Progress-cons a items s t u (inr v) fewer kept (inr q) = inr (q.0, ground arith)

-- A sweep either changes nothing, or sets the flag and adds an artifact that was outside.
pub sweep-Progress :
    (items : List Artifact) (s : List String × Bool) → Progress items s (sweep items s)
unfolding sweep
sweep-Progress [] s = inl refl
sweep-Progress (a ∷ items) s =
    Progress-cons a items s (visit a s) (sweep items (visit a s)) (visit_progress a s)
      (outside-visit a items s) (sweep_mono items (visit a s) a.artifact_id)
      (sweep-Progress items (visit a s))

sweep-changed :
    (items : List Artifact) (s : List String × Bool) → s.1 ≡ true → (sweep items s).1 ≡ true
sweep-changed items s h = elim (sweep-Progress items s) [
  | inl e ↦ ap (λ (r : List String × Bool). r.1) e ∙ h
  | inr p ↦ p.0
]

-- A closure to which no round adds: every artifact with an input in it is in it.
abbrev pub IsClosed : List String → List Artifact → Type 0
IsClosed c = All (λ a. some_of (contains c) a.inputs ≡ true → contains c a.artifact_id ≡ true)

module _ (a : Artifact) (c : List String) (changed : Bool) where
  pub visit_hit :
      contains c a.artifact_id ≡ false
      → some_of (contains c) a.inputs ≡ true
      → visit a (c, changed) ≡ (add a.artifact_id c, true)
  unfolding visit
  visit_hit new hit = rw (new, hit)

  pub visit_keeps :
      (contains c a.artifact_id ≡ true) ⊎ (some_of (contains c) a.inputs ≡ false)
      → visit a (c, changed) ≡ (c, changed)
  unfolding visit
  visit_keeps h = ground arith

-- A sweep that leaves the flag down has found a closed set.
sweep-IsClosed :
    (items : List Artifact) (c : List String)
    → (sweep items (c, false)).1 ≡ false
    → IsClosed c items
unfolding sweep
sweep-IsClosed [] c h = tt
sweep-IsClosed (a ∷ items) c h = elim (Bool-cases (contains c a.artifact_id)) [
  | inl old ↦ (λ _. old, sweep-IsClosed items c (rw (visit_keeps a c false (inl old), sweep) at h))
  | inr new ↦ elim (Bool-cases (some_of (contains c) a.inputs)) [
    | inl hit ↦ cc (
      sweep-changed items (add a.artifact_id c, true) refl,
      rw (visit_hit a c false new hit, sweep) at h,
    )
    | inr miss ↦
        (λ hit. cc, sweep-IsClosed items c (rw (visit_keeps a c false (inr miss), sweep) at h))
  ]
]

closure_loop-last :
    (fuel : ℕ) (items : List Artifact) (c : List String)
    → sweep items (c, false) ≡ (c, false)
    → closure_loop (suc fuel) items c ≡ c
unfolding closure_loop
closure_loop-last fuel items c e =
    rw (ap (λ (r : List String × Bool). r.1) e, closure_loop)
      (ap (λ (r : List String × Bool). r.0) e)

-- With more rounds than artifacts outside, the loop ends by its test, on a closed set that holds
-- what it began with and that a further sweep does not change.
pub closure_loop_settles :
    (fuel : ℕ) (items : List Artifact) (c : List String)
    → outside items c < fuel
    → IsClosed (closure_loop fuel items c) items
      × (sweep items (closure_loop fuel items c, false) ≡ (closure_loop fuel items c, false))
unfolding closure_loop
closure_loop_settles zero items c h = absurd (omega arith)
closure_loop_settles (suc fuel) items c h = elim (sweep-Progress items (c, false)) [
  | inl e ↦
      rw (closure_loop-last fuel items c e)
        (sweep-IsClosed items c (ap (λ (r : List String × Bool). r.1) e), e)
  | inr p ↦
      rw (p.0, closure_loop)
        (closure_loop_settles fuel items (sweep items (c, false)).0 (omega (arith, p.1)))
]

pub closure_loop_mono :
    (fuel : ℕ) (items : List Artifact) (c : List String) (k : String)
    → contains c k ≡ true
    → contains (closure_loop fuel items c) k ≡ true
unfolding closure_loop
closure_loop_mono zero items c k h = h
closure_loop_mono (suc fuel) items c k h =
    let more = sweep_mono items (c, false) k h in
    elim (Bool-cases (sweep items (c, false)).1) [
      | inl e ↦
          rw (e, closure_loop) (closure_loop_mono fuel items (sweep items (c, false)).0 k more)
      | inr e ↦ rw (e, closure_loop) more
    ]
