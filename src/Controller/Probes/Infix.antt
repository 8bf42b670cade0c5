-- ===== src/Controller/Probes/Infix.antt =====
-- When a text stands in another.
use llm_errata.Prelude.{
  ℕ, ◌≡◌, refl, ap, ◌↔◌, inl, inr, true, List, [], ◌∷◌, ◌++◌, Bool-cases, arith,
}
use llm_errata.Controller.Probes.{is_prefix, is_infix}

-- `part in whole` finds the part wherever it stands.
is_prefix_iff : (bs cs : List ℕ) → (is_prefix bs cs ≡ true) ↔ ((rest : List ℕ) × (cs ≡ bs ++ rest))
unfolding is_prefix
is_prefix_iff [] cs = (λ h. (cs, refl), λ h. refl)
is_prefix_iff (b ∷ bs) [] = (λ h. cc, λ h. cc h.1)
is_prefix_iff (b ∷ bs) (c ∷ cs) = (
  λ h. let (rest, e) = (is_prefix_iff bs cs).0 (ground arith) in (rest, ground (arith, e)),
  λ (rest, e). ground (arith, (is_prefix_iff bs cs).1 (rest, cc)),
)

prefix-infix : (bs cs : List ℕ) → is_prefix bs cs ≡ true → is_infix bs cs ≡ true
unfolding is_infix
prefix-infix bs [] h = h
prefix-infix bs (c ∷ cs) h = ground arith

infix_of : (bs cs before rest : List ℕ) → cs ≡ before ++ (bs ++ rest) → is_infix bs cs ≡ true
unfolding is_infix
infix_of bs cs [] rest e = prefix-infix bs cs ((is_prefix_iff bs cs).1 (rest, e))
infix_of bs [] (b ∷ before) rest e = cc
infix_of bs (c ∷ cs) (b ∷ before) rest e = ground (arith, infix_of bs cs before rest cc)

-- A text is found in another exactly when it stands somewhere in it.
pub is_infix_iff :
    (bs cs : List ℕ)
    → (is_infix bs cs ≡ true)
      ↔ ((before : List ℕ) × ((rest : List ℕ) × (cs ≡ before ++ (bs ++ rest))))
unfolding is_infix
is_infix_iff bs [] = (
  λ h. let (rest, e) = (is_prefix_iff bs []).0 h in ([], (rest, e)),
  λ (before, (rest, e)). infix_of bs [] before rest e,
)
is_infix_iff bs (c ∷ cs) = (
  λ h. elim (Bool-cases (is_prefix bs (c ∷ cs))) [
    | inl p ↦ let (rest, e) = (is_prefix_iff bs (c ∷ cs)).0 p in ([], (rest, e))
    | inr p ↦
        let (before, (rest, e)) = (is_infix_iff bs cs).0 (rw p at h) in
        (c ∷ before, (rest, ap (λ xs. c ∷ xs) e))
  ],
  λ (before, (rest, e)). infix_of bs (c ∷ cs) before rest e,
)
