-- ===== src/Semantic/Evidence/Declared.antt =====
-- The probes that a report declares: what `declared` finds, and what is required of them.
use mathlib.Core.List.{Memᴰ}
use mathlib.Core.List.Memᴰ
use llm_errata.Prelude.{
  ◌≡◌, refl, sym, ap, subst, ◌∙◌, ◌⊎◌, ◌↔◌, inl, inr, true, false, some, List, [], ◌∷◌, String,
  Dict, get, put, contains, get-put, IsUnique, IsUnique-ids_iff, Bool-cases, ◌==◌, eq_iff, eq_refl,
  arith,
}
use llm_errata.Errors.{ok}
use llm_errata.Errata.{Operation, correct, supersede, erase}
use llm_errata.Semantic.{SemanticProbe}
use llm_errata.Semantic.Evidence.{required_triad, declare, probe_ids, same_operation}

pub same_operation_iff : (a b : Operation) → (same_operation a b ≡ true) ↔ (a ≡ b)
same_operation_iff correct correct = ground arith
same_operation_iff correct supersede = ground arith
same_operation_iff correct erase = ground arith
same_operation_iff supersede correct = ground arith
same_operation_iff supersede supersede = ground arith
same_operation_iff supersede erase = ground arith
same_operation_iff erase correct = ground arith
same_operation_iff erase supersede = ground arith
same_operation_iff erase erase = ground arith

pub required_triad-IsUnique :
    (probes : List SemanticProbe) {op : Operation}
    → required_triad probes ≡ ok op
    → IsUnique (probe_ids probes)
unfolding required_triad
required_triad-IsUnique [] h = cc
required_triad-IsUnique (p ∷ ps) h = (IsUnique-ids_iff (probe_ids (p ∷ ps))).0 (ground arith)

contains-probe_ids :
    {p : SemanticProbe} {ps : List SemanticProbe}
    → Memᴰ p ps
    → contains (probe_ids ps) p.probe_id ≡ true
unfolding contains
contains-probe_ids {p} (Memᴰ.head {x = q} {xs = ps} e) = rw e (rw (eq_refl q.probe_id) refl)
contains-probe_ids {p} (Memᴰ.tail {x = q} {xs = ps} m) = ground (arith, contains-probe_ids m)

get-declare_other :
    (ps : List SemanticProbe) (d : Dict SemanticProbe) (k : String)
    → contains (probe_ids ps) k ≡ false
    → get (declare ps d) k ≡ get d k
unfolding declare contains
get-declare_other [] d k h = refl
get-declare_other (q ∷ ps) d k h =
    get-declare_other ps (put q.probe_id q d) k (ground arith)
    ∙ ground (arith, get-put q.probe_id k q d)

get-declare_of_mem :
    (p : SemanticProbe) (ps : List SemanticProbe) (d : Dict SemanticProbe)
    → IsUnique (probe_ids ps)
    → Memᴰ p ps
    → get (declare ps d) p.probe_id ≡ some p
unfolding declare
get-declare_of_mem p [] d u m = absurd (Memᴰ.not-nil m)
get-declare_of_mem p (q ∷ ps) d u (Memᴰ.head e) =
    subst (λ x. get (declare (q ∷ ps) d) x.probe_id ≡ some x) (sym e)
      (get-declare_other ps (put q.probe_id q d) q.probe_id u.0
        ∙ get-put q.probe_id q.probe_id q d
        ∙ rw (eq_refl q.probe_id) refl)
get-declare_of_mem p (q ∷ ps) d u (Memᴰ.tail m) = get-declare_of_mem p ps (put q.probe_id q d) u.1 m

mem_of_get-declare :
    (ps : List SemanticProbe) (d : Dict SemanticProbe) (k : String) (p : SemanticProbe)
    → get (declare ps d) k ≡ some p
    → (Memᴰ p ps × (p.probe_id ≡ k)) ⊎ (get d k ≡ some p)
unfolding declare
mem_of_get-declare [] d k p h = inr h
mem_of_get-declare (q ∷ ps) d k p h = elim (mem_of_get-declare ps (put q.probe_id q d) k p h) [
  | inl (m, e) ↦ inl (Memᴰ.tail m, e)
  | inr e ↦ elim (Bool-cases (q.probe_id == k)) [
    | inl same ↦
        let here : q ≡ p = ground (arith, e, get-put q.probe_id k q d) in
        inl (Memᴰ.head (sym here), ap (λ x. x.probe_id) (sym here) ∙ (eq_iff q.probe_id k).0 same)
    | inr other ↦ inr (ground (arith, get-put q.probe_id k q d))
  ]
]

-- `declared` finds exactly the probes of the report, by their identifiers.
pub get-declare_iff :
    (ps : List SemanticProbe) (k : String) (p : SemanticProbe)
    → IsUnique (probe_ids ps)
    → (get (declare ps []) k ≡ some p) ↔ (Memᴰ p ps × (p.probe_id ≡ k))
get-declare_iff ps k p u = (
  λ h. elim (mem_of_get-declare ps [] k p h) [ inl found ↦ found | inr e ↦ (unfold get in cc) ],
  λ (m, e). rw (sym e) (get-declare_of_mem p ps [] u m),
)
