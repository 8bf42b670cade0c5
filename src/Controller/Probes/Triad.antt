-- ===== src/Controller/Probes/Triad.antt =====
-- What the probes say of an erratum of the right shape.
use llm_errata.Prelude.{
  ℕ, ◌≡◌, refl, sym, subst, ◌↔◌, inl, inr, Bool, true, false, not, some, List, [], ◌∷◌, String,
  Dict, get, put, values, contains, keys, get_of_contains, every, All, Bool-cases, eq_iff, arith,
}
use llm_errata.Errors.{ok}
use llm_errata.Errata.{Erratum, RootRegistry, Operation, correct, supersede, erase, is_erase}
use llm_errata.Errata.Shape.{IsWellShaped}
use llm_errata.Adapters.{StoreAdapter}
use llm_errata.Controller.{Importer}
use llm_errata.Controller.Gate.{item}
use llm_errata.Controller.Probes.Split.{
  IsSplit, Retrieved, recalls_iff, split_bar-IsSplit, split_bar-eq,
}
use llm_errata.Controller.Probes.{recalls, run_triad, split_bar, verdict}

every-All_true :
    (p : String → Bool) (xs : List String) → (every p xs ≡ true) ↔ All (λ x. p x ≡ true) xs
unfolding every
every-All_true p [] = (λ h. tt, λ h. refl)
every-All_true p (x ∷ xs) = (
  λ h. (ground arith, (every-All_true p xs).0 (ground arith)),
  λ h. ground (arith, h.0, (every-All_true p xs).1 h.1),
)

verdict-pass : (b : Bool) → (verdict b ≡ "pass") ↔ (b ≡ true)
verdict-pass true = (λ h. refl, λ h. refl)
verdict-pass false = (λ h. (eq_iff "fail" "pass").1 h, λ h. cc)

stated_iff :
    (e : Erratum) (key : String) (P : String → Type 0) (term : String)
    → get e.postconditions key ≡ some term
    → P term ↔ ((t : String) × (get e.postconditions key ≡ some t) × P t)
stated_iff e key P term here =
    (λ p. (term, here, p), λ (t, there, p). let same : t ≡ term = cc in subst P same p)

item_of : (d : Dict String) (k : String) {v : String} → get d k ≡ some v → item d k ≡ ok v
unfolding item
item_of d k h = rw (h, item) refl

module _ {A : Type 0} (s : StoreAdapter A) (lower : String → List ℕ) (i : Importer A) where
  abbrev SurfacesTest : String → Type 0
  SurfacesTest term = recalls s lower i.ledger i.adapters term ≡ true

  abbrev RetiredTest : Erratum → Type 0
  RetiredTest e =
      (term : String) × (get e.postconditions "negative" ≡ some term)
      × (recalls s lower i.ledger i.adapters term ≡ false)

  abbrev ReplacingTest : Operation → Erratum → Type 0
  ReplacingTest erase e = Unit
  ReplacingTest _ e =
      (term : String) × (get e.postconditions "positive" ≡ some term) × SurfacesTest term

  abbrev PreservingTest : Erratum → Type 0
  PreservingTest e =
      (text : String) × (get e.postconditions "preserve" ≡ some text)
      × All SurfacesTest (split_bar text)

  probes :
      (e : Erratum) (negative preserve : String)
      → get e.postconditions "negative" ≡ some negative
      → get e.postconditions "preserve" ≡ some preserve
      → ((verdict (not (recalls s lower i.ledger i.adapters negative)) ≡ "pass") ↔ RetiredTest e)
        × ((verdict (every (recalls s lower i.ledger i.adapters) (split_bar preserve)) ≡ "pass")
            ↔ PreservingTest e)
  probes e negative preserve n p =
      let v = verdict-pass (not (recalls s lower i.ledger i.adapters negative)) in
      let w = verdict-pass (every (recalls s lower i.ledger i.adapters) (split_bar preserve)) in
      let a = every-All_true (recalls s lower i.ledger i.adapters) (split_bar preserve) in
      let r =
        stated_iff e "negative" (λ t. recalls s lower i.ledger i.adapters t ≡ false) negative n in
      let q = stated_iff e "preserve" (λ t. All SurfacesTest (split_bar t)) preserve p in
      (
        (λ h. r.0 (ground (arith, v)), λ h. v.1 (ground (arith, r.1 h))),
        (λ h. q.0 (a.0 (w.0 h)), λ h. w.1 (a.1 (q.1 h))),
      )

  run_triad_of :
      (o : Operation) (e : Erratum)
      → e.operation ≡ o
      → contains (keys e.postconditions) "negative" ≡ true
      → contains (keys e.postconditions) "preserve" ≡ true
      → (is_erase o ≡ false → contains (keys e.postconditions) "positive" ≡ true)
      → (triad : Dict String) × (run_triad s lower i e ≡ ok triad)
        × (All (λ result. result ≡ "pass") (values triad)
            ↔ (RetiredTest e × ReplacingTest o e × PreservingTest e))
  unfolding run_triad item put values
  run_triad_of erase e is n p q =
      let (negative, nn) = get_of_contains e.postconditions "negative" n in
      let (preserve, pp) = get_of_contains e.postconditions "preserve" p in
      let (r, k) = probes e negative preserve nn pp in
      (
        ("negative", verdict (not (recalls s lower i.ledger i.adapters negative)))
            ∷ (
              "preserve",
              verdict (every (recalls s lower i.ledger i.adapters) (split_bar preserve)),
            )
            ∷ [],
        rw
            (
              item_of e.postconditions "negative" nn,
              item_of e.postconditions "preserve" pp,
              is,
              run_triad,
            )
            refl,
        (λ h. (r.0 h.0, tt, k.0 h.1.0), λ h. (r.1 h.0, (k.1 h.2, tt))),
      )
  run_triad_of correct e is n p q =
      let (negative, nn) = get_of_contains e.postconditions "negative" n in
      let (preserve, pp) = get_of_contains e.postconditions "preserve" p in
      let (positive, oo) = get_of_contains e.postconditions "positive" (q refl) in
      let (r, k) = probes e negative preserve nn pp in
      let v = verdict-pass (recalls s lower i.ledger i.adapters positive) in
      let w = stated_iff e "positive" SurfacesTest positive oo in
      (
        ("negative", verdict (not (recalls s lower i.ledger i.adapters negative)))
            ∷ ("positive", verdict (recalls s lower i.ledger i.adapters positive))
            ∷ (
              "preserve",
              verdict (every (recalls s lower i.ledger i.adapters) (split_bar preserve)),
            )
            ∷ [],
        rw
            (
              item_of e.postconditions "negative" nn,
              item_of e.postconditions "preserve" pp,
              item_of e.postconditions "positive" oo,
              is,
              run_triad,
            )
            refl,
        (
          λ h. (r.0 h.0, w.0 (v.0 h.1.0), k.0 h.1.1.0),
          λ h. (r.1 h.0, (v.1 (w.1 h.1), (k.1 h.2, tt))),
        ),
      )
  run_triad_of supersede e is n p q =
      let (negative, nn) = get_of_contains e.postconditions "negative" n in
      let (preserve, pp) = get_of_contains e.postconditions "preserve" p in
      let (positive, oo) = get_of_contains e.postconditions "positive" (q refl) in
      let (r, k) = probes e negative preserve nn pp in
      let v = verdict-pass (recalls s lower i.ledger i.adapters positive) in
      let w = stated_iff e "positive" SurfacesTest positive oo in
      (
        ("negative", verdict (not (recalls s lower i.ledger i.adapters negative)))
            ∷ ("positive", verdict (recalls s lower i.ledger i.adapters positive))
            ∷ (
              "preserve",
              verdict (every (recalls s lower i.ledger i.adapters) (split_bar preserve)),
            )
            ∷ [],
        rw
            (
              item_of e.postconditions "negative" nn,
              item_of e.postconditions "preserve" pp,
              item_of e.postconditions "positive" oo,
              is,
              run_triad,
            )
            refl,
        (
          λ h. (r.0 h.0, w.0 (v.0 h.1.0), k.0 h.1.1.0),
          λ h. (r.1 h.0, (v.1 (w.1 h.1), (k.1 h.2, tt))),
        ),
      )

  abbrev pub Surfaces : String → Type 0
  Surfaces term = Retrieved s lower i.ledger i.adapters term

  abbrev pub IsRetired : Erratum → Type 0
  IsRetired e = (term : String) × (get e.postconditions "negative" ≡ some term) × ¬ Surfaces term

  abbrev pub IsReplacing : Operation → Erratum → Type 0
  IsReplacing erase e = Unit
  IsReplacing _ e = (term : String) × (get e.postconditions "positive" ≡ some term) × Surfaces term

  abbrev pub IsPreserving : Erratum → Type 0
  IsPreserving e =
      (text : String) × (get e.postconditions "preserve" ≡ some text)
      × (parts : List String) × IsSplit text parts
      × All Surfaces parts

  Surfaces-iff : (term : String) → SurfacesTest term ↔ Surfaces term
  Surfaces-iff term = recalls_iff s lower i.ledger i.adapters term

  Surfaces-All : (parts : List String) → All SurfacesTest parts ↔ All Surfaces parts
  Surfaces-All [] = (λ h. tt, λ h. tt)
  Surfaces-All (p ∷ parts) =
      let (there, back) = Surfaces-All parts in
      let (a, b) = Surfaces-iff p in (λ h. (a h.0, there h.1), λ h. (b h.0, back h.1))

  IsRetired-iff : (e : Erratum) → RetiredTest e ↔ IsRetired e
  IsRetired-iff e = (
    λ (term, here, h). (term, here, λ r. let t = (Surfaces-iff term).1 r in cc),
    λ (term, here, h). (
      term,
      here,
      elim (Bool-cases (recalls s lower i.ledger i.adapters term)) [
        | inl t ↦ absurd (h ((Surfaces-iff term).0 t))
        | inr f ↦ f
      ],
    ),
  )

  IsReplacing-iff : (o : Operation) (e : Erratum) → ReplacingTest o e ↔ IsReplacing o e
  IsReplacing-iff erase e = (λ h. tt, λ h. tt)
  IsReplacing-iff correct e = (
    λ (term, here, h). (term, here, (Surfaces-iff term).0 h),
    λ (term, here, h). (term, here, (Surfaces-iff term).1 h),
  )
  IsReplacing-iff supersede e = (
    λ (term, here, h). (term, here, (Surfaces-iff term).0 h),
    λ (term, here, h). (term, here, (Surfaces-iff term).1 h),
  )

  IsPreserving-iff : (e : Erratum) → PreservingTest e ↔ IsPreserving e
  IsPreserving-iff e = (
    λ (text, here, h).
        (text, here, split_bar text, split_bar-IsSplit text, (Surfaces-All (split_bar text)).0 h),
    λ (text, here, parts, split, h). (
      text,
      here,
      subst (All SurfacesTest) (sym (split_bar-eq text parts split)) ((Surfaces-All parts).1 h),
    ),
  )

  -- For an erratum of the right shape the probes return a result. All of them pass exactly when
  -- no store retrieves an item with the retired proposition in it, some store retrieves one with
  -- the replacement in it unless the operation is an erasure, and for every proposition to
  -- preserve, between the bars of that postcondition, some store retrieves one with it. Texts
  -- stand in one another up to lower case.
  pub run_triad_iff :
      (roots : RootRegistry) (e : Erratum)
      → IsWellShaped roots e
      → (triad : Dict String) × (run_triad s lower i e ≡ ok triad)
        × (All (λ result. result ≡ "pass") (values triad)
            ↔ (IsRetired e × IsReplacing e.operation e × IsPreserving e))
  run_triad_iff roots e w =
      let (triad, h, (there, back)) =
        run_triad_of e.operation e refl w.negative w.preserve w.positive in
      let (r, r') = IsRetired-iff e in
      let (q, q') = IsReplacing-iff e.operation e in
      let (k, k') = IsPreserving-iff e in
      (
        triad,
        h,
        (λ pass. let t = there pass in (r t.0, q t.1, k t.2), λ (a, b, c). back (r' a, q' b, k' c)),
      )
