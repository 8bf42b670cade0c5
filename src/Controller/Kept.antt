-- ===== src/Controller/Kept.antt =====
-- Steps that leave the sequence that was applied last alone.
use llm_errata.Prelude.{◌≡◌, refl, ◌∙◌}
use llm_errata.Errors.{Result, ok, raise, Exception}
use llm_errata.Step.{Step, bind, ◌>>=◌}
use llm_errata.Controller.{Importer}

pub record Kept {A : Type 0} (i j : Importer A) : Type 0 where
  pub last_sequence : j.last_sequence ≡ i.last_sequence
  pub applied : j.applied ≡ i.applied

pub Kept-refl : {A : Type 0} (i : Importer A) → Kept i i
Kept-refl i = record { last_sequence = refl; applied = refl }

pub Kept-trans : {A : Type 0} {i j k : Importer A} → Kept i j → Kept j k → Kept i k
Kept-trans a b = record {
  last_sequence = b.last_sequence ∙ a.last_sequence;
  applied = b.applied ∙ a.applied;
}

-- Whatever the step returns, and only when it raises.
abbrev pub Keeps : {A : Type 0} {B : Type 0} → Step (Importer A) B → Type 0
Keeps {A} m = (i : Importer A) → Kept i (m i).0

abbrev pub KeepsOnRaise : {A : Type 0} {B : Type 0} → Step (Importer A) B → Type 0
KeepsOnRaise {A} m = (i : Importer A) (x : Exception) → (m i).1 ≡ raise x → Kept i (m i).0

module _ {A : Type 0} {B : Type 0} {C : Type 0} where
  bind-Kept :
      (i : Importer A) (r : Importer A × Result B) (f : B → Step (Importer A) C)
      → Kept i r.0
      → ((b : B) → Keeps (f b))
      → Kept i (bind r f).0
  bind-Kept i (j, ok b) f h k = Kept-trans h (k b j)
  bind-Kept i (j, raise e) f h k = h

  pub chain-Keeps :
      (m : Step (Importer A) B) (f : B → Step (Importer A) C)
      → Keeps m
      → ((b : B) → Keeps (f b))
      → Keeps (m >>= f)
  chain-Keeps m f h k i = bind-Kept i (m i) f (h i) k

  bind-KeptOnRaise :
      (i : Importer A) (r : Importer A × Result B) (f : B → Step (Importer A) C) (x : Exception)
      → Kept i r.0
      → ((b : B) → KeepsOnRaise (f b))
      → (bind r f).1 ≡ raise x
      → Kept i (bind r f).0
  bind-KeptOnRaise i (j, ok b) f x h k e = Kept-trans h (k b j x e)
  bind-KeptOnRaise i (j, raise y) f x h k e = h

  pub chain-KeepsOnRaise :
      (m : Step (Importer A) B) (f : B → Step (Importer A) C)
      → Keeps m
      → ((b : B) → KeepsOnRaise (f b))
      → KeepsOnRaise (m >>= f)
  chain-KeepsOnRaise m f h k i x e = bind-KeptOnRaise i (m i) f x (h i) k e
