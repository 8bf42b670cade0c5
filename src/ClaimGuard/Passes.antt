-- ===== src/ClaimGuard/Passes.antt =====
-- When the guard of scripts/claim_guard.py passes.
use llm_errata.Prelude.{
  ◌≡◌, refl, ◌∙◌, ◌↔◌, Bool, true, false, ◌&&◌, Option, none, some, List, [], ◌∷◌, ◌++◌, String,
  Dict, get, get-put, contains, every, is_empty, concat, if◌then◌else◌, ◌==◌, arith, eq_iff,
}
use llm_errata.ClaimGuard.Tables.{Anchor, Ordering}
use llm_errata.ClaimGuard.{
  Guard, finish, exit_ok, FileText, missing, unreadable, text, pass, fail, labelled, load, load_all,
  when_read, has_anchor, check_anchors, is_ordered, check_orderings,
}

abbrev pub passes : Guard → Bool
passes g = is_empty g.failures && is_empty g.blocked

abbrev pub is_text : FileText → Bool
is_text missing = false
is_text unreadable = false
is_text (text t) = true

-- What was read of a file.
abbrev pub contents : FileText → Option String
contents missing = none
contents unreadable = none
contents (text t) = some t

pub finish_lem : (g : Guard) → (finish g ≡ exit_ok) ↔ (passes g ≡ true)
unfolding finish
finish_lem g = ground arith

pub is_empty-snoc {ℓ} : {A : Type ℓ} (xs : List A) (x : A) → is_empty (xs ++ x ∷ []) ≡ false
is_empty-snoc [] x = refl
is_empty-snoc (y ∷ xs) x = refl

when_read-passes :
    (test : String → Bool) (name : String) (g : Guard) (t : Option String)
    → passes (when_read (λ t. if test t then pass g else fail name g) g t)
      ≡ (passes g && when_read test true t)
when_read-passes test name g none = ground arith
when_read-passes test name g (some t) = ground (arith, is_empty-snoc g.failures name)

pub check_anchors-passes :
    (d : Dict String) (items : List Anchor) (g : Guard)
    → passes (check_anchors d items g)
      ≡ (passes g && every (λ a. when_read (has_anchor a) true (get d a.file)) items)
unfolding check_anchors every
check_anchors-passes d [] g = ground arith
check_anchors-passes d (a ∷ items) g =
    check_anchors-passes d items _
    ∙ ground
        (arith, when_read-passes (has_anchor a) (labelled "anchor" a.file a.why) g (get d a.file))

pub check_orderings-passes :
    (d : Dict String) (items : List Ordering) (g : Guard)
    → passes (check_orderings d items g)
      ≡ (passes g && every (λ o. when_read (is_ordered o) true (get d o.file)) items)
unfolding check_orderings every
check_orderings-passes d [] g = ground arith
check_orderings-passes d (o ∷ items) g =
    check_orderings-passes d items _
    ∙ ground
        (arith, when_read-passes (is_ordered o) (labelled "ordering" o.file o.why) g (get d o.file))

load-passes :
    (name : String) (t : FileText) (g : Guard) (d : Dict String)
    → passes (load name t (g, d)).0 ≡ (passes g && is_text t)
load-passes name missing g d =
    ground (arith, is_empty-snoc g.blocked (concat ("read " ∷ name ∷ [])))
load-passes name unreadable g d =
    ground (arith, is_empty-snoc g.blocked (concat ("read " ∷ name ∷ [])))
load-passes name (text t) g d = ground arith

load-get :
    (name : String) (t : FileText) (g : Guard) (d : Dict String) (k : String)
    → get (load name t (g, d)).1 k ≡ (if name == k && is_text t then contents t else get d k)
load-get name missing g d k = ground arith
load-get name unreadable g d k = ground arith
load-get name (text t) g d k = ground (arith, get-put name k t d)

module _ (files : String → FileText) where
  pub load_all-passes :
      (names : List String) (g : Guard) (d : Dict String)
      → passes (load_all files names (g, d)).0 ≡ (passes g && every (λ k. is_text (files k)) names)
  unfolding load_all every
  load_all-passes [] g d = ground arith
  load_all-passes (k ∷ names) g d =
      load_all-passes names (load k (files k) (g, d)).0 (load k (files k) (g, d)).1
      ∙ ground (arith, load-passes k (files k) g d)

  -- What the documents hold under a name that was loaded is what the file holds.
  pub load_all-get :
      (names : List String) (g : Guard) (d : Dict String) (k : String)
      → get (load_all files names (g, d)).1 k
        ≡ (if contains names k && is_text (files k) then contents (files k) else get d k)
  unfolding load_all contains
  load_all-get [] g d k = ground arith
  load_all-get (j ∷ names) g d k =
      load_all-get names (load j (files j) (g, d)).0 (load j (files j) (g, d)).1 k
      ∙ ground (arith, load-get j (files j) g d k, eq_iff j k)
