-- ===== src/Controller/Probes/Split.antt =====
-- What `recalls` and `split_bar` of the probes compute, said without them.
use Prim.Native.Char.{Char, code}
use mathlib.Core.List.{Memᴰ}
use mathlib.Core.List.Memᴰ
use text.Mathlib.TextEquality.{Char-path}
use llm_errata.Prelude.{
  ℕ, ◌≡◌, refl, ap, ap₂, ◌∙◌, ◌↔◌, inl, inr, Bool, true, false, not, ◌&&◌, List, [], ◌∷◌, ◌++◌,
  String, All, some_of, nat_eq, if◌then◌else◌, Bool-cases, arith,
}
use llm_errata.Lineage.{LineageLedger}
use llm_errata.Adapters.{Hit, StoreAdapter}
use llm_errata.Controller.Probes.{recalls, split_bar, surfaces}
use llm_errata.Controller.Probes.Infix.{is_infix_iff}

-- part + "|" + rest
abbrev pub with_bar : String → String → String
with_bar String.[] rest = String.◌∷◌ "|" rest
with_bar (String.◌∷◌ c part) rest = String.◌∷◌ c (with_bar part rest)

-- "|".join(parts), for at least one part
abbrev pub join_bar : String → List String → String
join_bar part [] = part
join_bar part (next ∷ parts) = with_bar part (join_bar next parts)

-- No bar stands in the text.
abbrev pub has_no_bar : String → Bool
has_no_bar String.[] = true
has_no_bar (String.◌∷◌ c s) = not (nat_eq (code c) b'|') && has_no_bar s

-- The text is the parts with bars between them, and no part has a bar.
abbrev pub IsSplit : String → List String → Type 0
IsSplit text [] = ⊥
IsSplit text (part ∷ parts) =
    (text ≡ join_bar part parts) × All (λ p. has_no_bar p ≡ true) (part ∷ parts)

-- The parts that a text is split into, with a text put in front of the first.
onto : Char → List String → List String
onto c [] = []
onto c (first ∷ others) = String.◌∷◌ c first ∷ others

onto-IsSplit :
    (c : Char) (s : String) (parts : List String)
    → nat_eq (code c) b'|' ≡ false
    → IsSplit s parts
    → IsSplit (String.◌∷◌ c s) (onto c parts)
unfolding onto
onto-IsSplit c s [] other h = elim h [ ]
onto-IsSplit c s (p ∷ []) other (e, (free, others)) =
    (ap (String.◌∷◌ c) e, (ground (arith, other, free), others))
onto-IsSplit c s (p ∷ q ∷ ps) other (e, (free, others)) =
    (ap (String.◌∷◌ c) e, (ground (arith, other, free), others))

bar-IsSplit :
    (c : Char) (s : String) (parts : List String)
    → c ≡ "|"
    → IsSplit s parts
    → IsSplit (String.◌∷◌ c s) ("" ∷ parts)
bar-IsSplit c s [] same h = elim h [ ]
bar-IsSplit c s (p ∷ ps) same (e, free) = (ap₂ String.◌∷◌ same e, (refl, free))

IsSplit-step :
    (c : Char) (s : String) (parts : List String) (b : Bool)
    → nat_eq (code c) b'|' ≡ b
    → IsSplit s parts
    → IsSplit (String.◌∷◌ c s) (if b then "" ∷ parts else onto c parts)
IsSplit-step c s parts true e h = bar-IsSplit c s parts (Char-path c "|" (ground (arith, e))) h
IsSplit-step c s parts false e h = onto-IsSplit c s parts e h

pub split_bar-IsSplit : (s : String) → IsSplit s (split_bar s)
unfolding split_bar onto
split_bar-IsSplit String.[] = (refl, (refl, tt))
split_bar-IsSplit (String.◌∷◌ c s) =
    IsSplit-step c s (split_bar s) (nat_eq (code c) b'|') refl (split_bar-IsSplit s)

split_last : (p : String) → has_no_bar p ≡ true → split_bar p ≡ p ∷ []
unfolding split_bar
split_last String.[] free = refl
split_last (String.◌∷◌ c p) free =
    let other : nat_eq (code c) b'|' ≡ false = ground (arith, free) in
    rw (other, split_last p (ground (arith, free))) refl

split_part : (p t : String) → has_no_bar p ≡ true → split_bar (with_bar p t) ≡ p ∷ split_bar t
unfolding split_bar
split_part String.[] t free = refl
split_part (String.◌∷◌ c p) t free =
    let other : nat_eq (code c) b'|' ≡ false = ground (arith, free) in
    rw (other, split_part p t (ground (arith, free))) refl

split_joined :
    (part : String) (parts : List String)
    → All (λ p. has_no_bar p ≡ true) (part ∷ parts)
    → split_bar (join_bar part parts) ≡ part ∷ parts
split_joined part [] (free, _) = split_last part free
split_joined part (next ∷ parts) (free, others) =
    split_part part (join_bar next parts) free
    ∙ ap (λ ps. part ∷ ps) (split_joined next parts others)

-- `split_bar` gives the one way to split a text.
pub split_bar-eq :
    (text : String) (parts : List String) → IsSplit text parts → split_bar text ≡ parts
split_bar-eq text [] h = elim h [ ]
split_bar-eq text (part ∷ parts) (e, free) = ap split_bar e ∙ split_joined part parts free

some_of-mem {ℓ} :
    {X : Type ℓ} (p : X → Bool) {x : X} {xs : List X} → Memᴰ x xs → p x ≡ true → some_of p xs ≡ true
unfolding some_of
some_of-mem p (Memᴰ.head {x = y} e) f = rw (← e) (ground (arith, f))
some_of-mem p (Memᴰ.tail m) f = ground (arith, some_of-mem p m f)

some_of_iff {ℓ} :
    {X : Type ℓ} (p : X → Bool) (xs : List X)
    → (some_of p xs ≡ true) ↔ ((x : X) × Memᴰ x xs × (p x ≡ true))
unfolding some_of
some_of_iff p [] = (λ h. cc, λ (x, m, _). absurd (Memᴰ.not-nil m))
some_of_iff p (x ∷ xs) = (
  λ h. elim (Bool-cases (p x)) [
    | inl e ↦ (x, Memᴰ.head refl, e)
    | inr e ↦ let (y, m, f) = (some_of_iff p xs).0 (ground (arith, e, h)) in (y, Memᴰ.tail m, f)
  ],
  λ (y, m, f). some_of-mem p m f,
)

module _ {A : Type 0} (s : StoreAdapter A) (lower : String → List ℕ) (l : LineageLedger) where
  -- A store retrieves, for the text, an item whose content has it somewhere, in lower case.
  abbrev pub Retrieved : List A → String → Type 0
  Retrieved adapters term =
      (a : A) × Memᴰ a adapters
      × (hit : Hit) × Memᴰ hit (s.recall l a term)
      × (before rest : List ℕ) × (lower hit.content ≡ before ++ (lower term ++ rest))

  recalls_of :
      {term : String} (b : A) {adapters : List A}
      → Memᴰ b adapters
      → (hit : Hit) → Memᴰ hit (s.recall l b term)
      → surfaces s lower term hit ≡ true
      → recalls s lower l adapters term ≡ true
  unfolding recalls
  recalls_of {term} b (Memᴰ.head {x = y} e) hit m h =
      let here : some_of (surfaces s lower term) (s.recall l b term) ≡ true =
        some_of-mem (surfaces s lower term) m h in
      rw (← e) (ground (arith, here))
  recalls_of b (Memᴰ.tail n) hit m h = ground (arith, recalls_of b n hit m h)

  pub recalls_iff :
      (adapters : List A) (term : String)
      → (recalls s lower l adapters term ≡ true) ↔ Retrieved adapters term
  unfolding recalls
  recalls_iff [] term = (λ h. cc, λ (a, m, hit, n, before, rest, e). absurd (Memᴰ.not-nil m))
  recalls_iff (a ∷ rest) term =
      let (found, back) = some_of_iff (surfaces s lower term) (s.recall l a term) in
      let (later, again) = recalls_iff rest term in
      (
        λ h. elim (Bool-cases (some_of (surfaces s lower term) (s.recall l a term))) [
          | inl e ↦
              let (hit, m, stands) = found e in
              let (before, (after, e)) = (is_infix_iff (lower term) (lower hit.content)).0 stands in
              (a, Memᴰ.head refl, hit, m, before, after, e)
          | inr e ↦
              let (b, n, hit, m, before, after, f) = later (ground (arith, e, h)) in
              (b, Memᴰ.tail n, hit, m, before, after, f)
        ],
        λ (b, n, hit, m, before, after, f).
            recalls_of b n hit m
              ((is_infix_iff (lower term) (lower hit.content)).1 (before, (after, f))),
      )
