-- ===== src/Semantic/Evidence/Required.antt =====
-- What the tests that decide the coverage say of the probes and of the observations.
use mathlib.Core.List.{Memᴰ}
use mathlib.Core.List.Memᴰ
use llm_errata.Prelude.{
  ◌≡◌, refl, sym, ap, subst, ◌∙◌, ◌↔◌, inl, inr, Bool, true, false, not, ◌&&◌, Option, none, some,
  List, [], ◌∷◌, ◌++◌, String, Dict, get, ap₂, update, sort, IsUnique, every, every-get,
  every_of_get, not-every-get, is_empty, is_empty-append, is_empty-parts, nat_eq, Bool-cases,
  Option-cases, if◌then◌else◌, arith,
}
use llm_errata.Semantic.{
  SemanticProbe, SemanticObservation, ObservationVerdict, fail, verified, unknown, failed,
}
use llm_errata.Semantic.Evidence.{
  declare, probe_ids, group, answers, is_open, required_limit, required_limits, unexpected_limit,
  weigh_all, unweighed, Weighed, assess,
}
use llm_errata.Semantic.Evidence.Groups.{
  get-grouped, get-grouped_none, grouped-IsUnique, grouped-full, get-grouped_full,
}
use llm_errata.Semantic.Evidence.Weighing.{
  answer, fails, is_some, all_answered, none_fails, clean-weigh_all, fails-weigh_all, get-weighed,
  answer_in,
}
use llm_errata.Semantic.Evidence.Declared.{get-declare_iff}
use llm_errata.Semantic.Evidence.Judged.{
  Counts, answer-eq-some, fails-eq-true, mem_of_of_id, mem_of_id, eq_of_mem_one, Counts-of_group,
  group_of_Counts,
}

-- A required probe whose one observation that counts has a verdict.
abbrev pub SomeRequired :
    List SemanticProbe → List SemanticObservation → String → ObservationVerdict → Type 0
SomeRequired probes observations digest verdict =
    (p : SemanticProbe) × (o : SemanticObservation) × Counts probes observations digest p o
    × (p.required ≡ true)
    × (o.verdict ≡ verdict)

-- Every required probe has an observation that counts and has the verdict.
abbrev pub AllRequired :
    List SemanticProbe → List SemanticObservation → String → ObservationVerdict → Type 0
AllRequired probes observations digest verdict =
    (p : SemanticProbe)
    → Memᴰ p probes
    → p.required ≡ true
    → (o : SemanticObservation) × Counts probes observations digest p o × (o.verdict ≡ verdict)

-- Every observation counts.
abbrev pub AllCount : List SemanticProbe → List SemanticObservation → String → Type 0
AllCount probes observations digest =
    (o : SemanticObservation)
    → Memᴰ o observations
    → (p : SemanticProbe) × Counts probes observations digest p o

abbrev pub required_ok : SemanticProbe → Option SemanticObservation → Bool
required_ok p none = not p.required
required_ok p (some o) = not (p.required && is_open o.verdict)

is_empty-required_limit :
    (p : SemanticProbe) (o : Option SemanticObservation)
    → is_empty (required_limit p o) ≡ required_ok p o
is_empty-required_limit p none = ground arith
is_empty-required_limit p (some o) = ground arith

is_empty-required_limits :
    (ps : List SemanticProbe) (d : Dict SemanticObservation)
    → is_empty (required_limits ps d) ≡ every (λ p. required_ok p (get d p.probe_id)) ps
unfolding required_limits every
is_empty-required_limits [] d = refl
is_empty-required_limits (p ∷ ps) d =
    is_empty-append (required_limit p (get d p.probe_id)) (required_limits ps d)
    ∙ ap₂ ◌&&◌ (is_empty-required_limit p (get d p.probe_id)) (is_empty-required_limits ps d)

is_empty-unexpected_limit : (w : Weighed) → is_empty (unexpected_limit w) ≡ nat_eq w.unexpected 0
unfolding unexpected_limit
is_empty-unexpected_limit w = ground arith

combine :
    {u r e : Bool} (l n a : Bool)
    → u ≡ n
    → r ≡ e
    → (l && n) ≡ (true && a)
    → (l && u && r) ≡ (a && e)
combine l n a p q h = ground arith

module _ (probes : List SemanticProbe) (observations : List SemanticObservation)
    (digest : String) where
  abbrev pub groups : Dict (List SemanticObservation)
  groups = group observations []

  abbrev pub declared : Dict SemanticProbe
  declared = declare probes []

  abbrev pub weighed : Weighed
  weighed = weigh_all digest declared groups unweighed

  -- The coverage, by the tests on the groups and on the probes.
  pub coverage_tests : (assess probes observations digest).coverage ≡ (
      if not (none_fails digest declared groups)
      then failed
      else if all_answered digest declared groups
          && every (λ p. required_ok p (get weighed.accepted_by_id p.probe_id)) probes
      then verified
      else unknown)
  unfolding assess
  coverage_tests =
      let w = weighed in
      let clean = clean-weigh_all digest declared groups unweighed (grouped-full observations) in
      let failing = fails-weigh_all digest declared groups unweighed in
      let limits : is_empty (
            sort (
              update
                (w.limitations ++ unexpected_limit w ++ required_limits probes w.accepted_by_id)
                []))
          ≡ (all_answered digest declared groups
              && every (λ p. required_ok p (get w.accepted_by_id p.probe_id)) probes) =
        is_empty-parts w.limitations (unexpected_limit w) (required_limits probes w.accepted_by_id)
        ∙ combine (is_empty w.limitations) (nat_eq w.unexpected 0)
            (all_answered digest declared groups) (is_empty-unexpected_limit w)
            (is_empty-required_limits probes w.accepted_by_id) clean in
      ap₂ (λ a b. if a then failed else if b then verified else unknown) (ap not failing) limits

  abbrev pub the_answer : SemanticProbe → Option SemanticObservation
  the_answer p = get weighed.accepted_by_id p.probe_id

  not_failing :
      (p : SemanticProbe) (o : SemanticObservation)
      → answers digest p o ≡ true
      → o.verdict ≡ fail
      → p.required ≡ true
      → not (fails digest (some p) (o ∷ [])) ≡ true
      → ⊥
  not_failing p o a v r h = cc

  module _ (unique : IsUnique (probe_ids probes)) where
    -- The observation that the last loop looks at is the one that counts.
    pub answer_iff :
        (p : SemanticProbe) (o : SemanticObservation)
        → Memᴰ p probes
        → (the_answer p ≡ some o) ↔ Counts probes observations digest p o
    answer_iff p o m =
        let told = get-weighed digest declared groups p.probe_id (grouped-IsUnique observations) in
        let d : get declared p.probe_id ≡ some p =
          (get-declare_iff probes p.probe_id p unique).1 (m, refl) in
        (
          λ h. elim (Option-cases (get groups p.probe_id)) [
            | inl gone ↦
                let nothing : the_answer p ≡ none =
                  told ∙ ap (λ g. answer_in digest declared g p.probe_id) gone in
                cc
            | inr (rs, found) ↦
                let (p', d', one, answered) =
                  answer-eq-some digest (get declared p.probe_id) rs o
                    (sym (told ∙ ap (λ g. answer_in digest declared g p.probe_id) found) ∙ h) in
                let same : p' ≡ p = cc in
                Counts-of_group probes observations digest unique p.probe_id p o rs found d one
                  (rw same at answered)
          ],
          λ c.
              let (found, _, answered) = group_of_Counts probes observations digest unique p o c in
              told ∙ rw (found, d, answered) refl,
        )

    pub none_fails_iff :
        (none_fails digest declared groups ≡ false) ↔ SomeRequired probes observations digest fail
    none_fails_iff = (
      λ h.
          let (k, rs, found, bad) = not-every-get _ groups (grouped-IsUnique observations) h in
          let (p, o, d, one, answered, v, r) =
            fails-eq-true digest (get declared k) rs (ground arith) in
          (
            p,
            o,
            Counts-of_group probes observations digest unique k p o rs found d one answered,
            r,
            v,
          ),
      λ (p, o, c, r, v).
          let (found, d, answered) = group_of_Counts probes observations digest unique p o c in
          elim (Bool-cases (none_fails digest declared groups)) [
            | inl t ↦
                let good =
                  every-get (λ item. not (fails digest (get declared item.0) item.1)) groups
                    p.probe_id (o ∷ []) t found in
                absurd (not_failing p o answered v r (rw d at good))
            | inr e ↦ e
          ],
    )

    answered_group :
        AllCount probes observations digest
        → (k : String) (rs : List SemanticObservation) → get groups k ≡ some rs
        → is_some (answer digest (get declared k) rs) ≡ true
    answered_group all k [] found = cc (get-grouped_full observations k [] found)
    answered_group all k (r ∷ rest) found =
        let (m, i) =
          mem_of_of_id observations k r rest (sym (get-grouped observations k (r ∷ rest) found)) in
        let (p, c) = all r m in
        let (here, d, answered) = group_of_Counts probes observations digest unique p r c in
        let (_, j) = mem_of_of_id observations p.probe_id r [] c.only in
        let same : p.probe_id ≡ k = sym j ∙ i in
        let there : get groups k ≡ some (r ∷ []) = rw (← same) here in
        let declared_here : get declared k ≡ some p = rw (← same) d in
        let one : r ∷ rest ≡ r ∷ [] = cc in
        ap₂ (λ a b. is_some (answer digest a b)) declared_here one ∙ rw answered refl

    pub all_answered_iff :
        (all_answered digest declared groups ≡ true) ↔ AllCount probes observations digest
    all_answered_iff = (
      λ h o m. elim (Option-cases (get groups o.probe_id)) [
        | inl gone ↦ absurd (
            Memᴰ.not-nil
              (subst (Memᴰ o) (get-grouped_none observations o.probe_id gone) (mem_of_id m)))
        | inr (rs, found) ↦
            let good =
              every-get (λ item. is_some (answer digest (get declared item.0) item.1)) groups
                o.probe_id rs h found in
            elim (Option-cases (answer digest (get declared o.probe_id) rs)) [
              | inl e ↦ cc
              | inr (q, e) ↦
                  let (p, d, one, answered) =
                    answer-eq-some digest (get declared o.probe_id) rs q e in
                  let same : o ≡ q = eq_of_mem_one (
                    subst (Memᴰ o) (sym (get-grouped observations o.probe_id rs found) ∙ one)
                      (mem_of_id m)) in
                  (
                    p,
                    subst (Counts probes observations digest p) (sym same) (
                        Counts-of_group probes observations digest unique o.probe_id p q rs found d
                          one answered),
                  )
            ]
      ],
      λ all.
          every_of_get _ groups (grouped-IsUnique observations)
            (λ k rs found. answered_group all k rs found),
    )
