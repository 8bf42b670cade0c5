-- ===== src/Semantic/Evidence/Judged.antt =====
-- The observations that count, and what the tests on the groups and on the probes say of them.
use mathlib.Core.List.{Memᴰ}
use mathlib.Core.List.Memᴰ
use llm_errata.Prelude.{
  ◌≡◌, refl, sym, ap, subst, ◌∙◌, ◌↔◌, inl, inr, true, Option, none, some, List, [], ◌∷◌, String,
  get, select, IsUnique, Bool-cases, Option-cases, ◌==◌, eq_iff, eq_refl, arith,
}
use llm_errata.Semantic.{
  SemanticProbe, SemanticObservation, ObservationVerdict, pass, fail, inconclusive, error,
}
use llm_errata.Semantic.Evidence.{declare, probe_ids, group, answers, is_fail}
use llm_errata.Semantic.Evidence.Groups.{of_id, get-grouped, get-grouped_none}
use llm_errata.Semantic.Evidence.Weighing.{answer, fails}
use llm_errata.Semantic.Evidence.Declared.{same_operation_iff, get-declare_iff}

-- `o` is the one observation of the declared probe `p`, and it is for its operation and for the
-- configuration.
pub record Counts (probes : List SemanticProbe) (observations : List SemanticObservation)
    (digest : String) (p : SemanticProbe) (o : SemanticObservation) : Type 0 where
  pub declared : Memᴰ p probes
  pub only : of_id observations p.probe_id ≡ o ∷ []
  pub operation : o.operation ≡ p.operation
  pub configuration : o.config_digest ≡ digest

pub answers_iff :
    (digest : String) (p : SemanticProbe) (o : SemanticObservation)
    → (answers digest p o ≡ true) ↔ ((o.operation ≡ p.operation) × (o.config_digest ≡ digest))
answers_iff digest p o =
    ground (arith, same_operation_iff o.operation p.operation, eq_iff o.config_digest digest)

pub answer-eq-some :
    (digest : String) (d : Option SemanticProbe) (rs : List SemanticObservation)
    (o : SemanticObservation)
    → answer digest d rs ≡ some o
    → (p : SemanticProbe) × (d ≡ some p) × (rs ≡ o ∷ []) × (answers digest p o ≡ true)
answer-eq-some digest none rs o h = cc
answer-eq-some digest (some p) [] o h = cc
answer-eq-some digest (some p) (q ∷ []) o h = elim (Bool-cases (answers digest p q)) [
  | inl e ↦
      let same : q ≡ o = ground arith in
      (p, refl, ap (λ x. x ∷ []) same, subst (λ x. answers digest p x ≡ true) same e)
  | inr e ↦ absurd (ground arith)
]
answer-eq-some digest (some p) (q ∷ (r ∷ rs)) o h = cc

pub fails-eq-true :
    (digest : String) (d : Option SemanticProbe) (rs : List SemanticObservation)
    → fails digest d rs ≡ true
    → (p : SemanticProbe) × (o : SemanticObservation) × (d ≡ some p)
      × (rs ≡ o ∷ [])
      × (answers digest p o ≡ true)
      × (o.verdict ≡ fail)
      × (p.required ≡ true)
fails-eq-true digest none rs h = cc
fails-eq-true digest (some p) [] h = cc
fails-eq-true digest (some p) (o ∷ []) h =
    (p, o, refl, refl, ground arith, is_fail-eq o.verdict (ground arith), ground arith)
  where
    is_fail-eq : (v : ObservationVerdict) → is_fail v ≡ true → v ≡ fail
    is_fail-eq fail h = refl
    is_fail-eq pass h = cc
    is_fail-eq inconclusive h = cc
    is_fail-eq error h = cc
fails-eq-true digest (some p) (o ∷ (r ∷ rs)) h = cc

-- Members of the list.
pub mem_of_of_id :
    (os : List SemanticObservation) (k : String) (o : SemanticObservation)
    (rest : List SemanticObservation)
    → of_id os k ≡ o ∷ rest
    → Memᴰ o os × (o.probe_id ≡ k)
unfolding of_id select
mem_of_of_id [] k o rest h = cc
mem_of_of_id (q ∷ os) k o rest h = elim (Bool-cases (q.probe_id == k)) [
  | inl e ↦
      let same : q ≡ o = ground arith in
      (Memᴰ.head (sym same), ap (λ x. x.probe_id) (sym same) ∙ (eq_iff q.probe_id k).0 e)
  | inr e ↦ let (m, i) = mem_of_of_id os k o rest (rw e at h) in (Memᴰ.tail m, i)
]

pub mem_of_id :
    {o : SemanticObservation} {os : List SemanticObservation}
    → Memᴰ o os
    → Memᴰ o (of_id os o.probe_id)
unfolding of_id select
mem_of_id {o} (Memᴰ.head {x = q} {xs = os} e) =
    let same = ap (λ x. q.probe_id == x.probe_id) e ∙ eq_refl q.probe_id in rw same (Memᴰ.head e)
mem_of_id {o} (Memᴰ.tail {x = q} {xs = os} m) = elim (Bool-cases (q.probe_id == o.probe_id)) [
  | inl e ↦ rw e (Memᴰ.tail (mem_of_id m))
  | inr e ↦ rw e (mem_of_id m)
]

pub eq_of_mem_one : {A : Type 0} {a b : A} → Memᴰ a (b ∷ []) → a ≡ b
eq_of_mem_one (Memᴰ.head e) = e
eq_of_mem_one (Memᴰ.tail m) = absurd (Memᴰ.not-nil m)

module _ (probes : List SemanticProbe) (observations : List SemanticObservation) (digest : String)
    (unique : IsUnique (probe_ids probes)) where
  -- What an answering group says.
  pub Counts-of_group :
      (k : String) (p : SemanticProbe) (o : SemanticObservation) (rs : List SemanticObservation)
      → get (group observations []) k ≡ some rs
      → get (declare probes []) k ≡ some p
      → rs ≡ o ∷ []
      → answers digest p o ≡ true
      → Counts probes observations digest p o
  Counts-of_group k p o rs found declared one answered =
      let (m, i) = (get-declare_iff probes k p unique).0 declared in
      let (same, under) = (answers_iff digest p o).0 answered in
      record {
        declared = m;
        only = ap (of_id observations) i ∙ sym (get-grouped observations k rs found) ∙ one;
        operation = same;
        configuration = under;
      }

  -- And the other way.
  pub group_of_Counts :
      (p : SemanticProbe) (o : SemanticObservation)
      → Counts probes observations digest p o
      → (get (group observations []) p.probe_id ≡ some (o ∷ []))
        × (get (declare probes []) p.probe_id ≡ some p)
        × (answers digest p o ≡ true)
  group_of_Counts p o c = (
    elim (Option-cases (get (group observations []) p.probe_id)) [
      | inl gone ↦ absurd (cc (get-grouped_none observations p.probe_id gone, c.only))
      | inr (rs, found) ↦ found ∙ ap some (get-grouped observations p.probe_id rs found ∙ c.only)
    ],
    (get-declare_iff probes p.probe_id p unique).1 (c.declared, refl),
    (answers_iff digest p o).1 (c.operation, c.configuration),
  )
