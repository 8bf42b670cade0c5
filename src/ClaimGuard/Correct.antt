-- ===== src/ClaimGuard/Correct.antt =====
-- When scripts/claim_guard.py succeeds, in terms of the files.
use llm_errata.Prelude.{
  ℕ, ◌≡◌, refl, sym, ◌∙◌, ◌↔◌, ap, Bool, true, false, ◌&&◌, none, List, [], ◌∷◌, String, Dict, get,
  contains, every, some_of, if◌then◌else◌, arith, sort_by, update, add,
}
use llm_errata.ClaimGuard.Tables.{
  Anchor, Ordering, Pattern, Quotation, anchors, orderings, forbidden, guarded_files,
  allowed_quotations,
}
use llm_errata.ClaimGuard.{
  Guard, exit_ok, FileText, missing, unreadable, text, load_all, when_read, has_anchor,
  check_anchors, is_ordered, check_orderings, check_forbidden, main, guarded_names,
}
use llm_errata.ClaimGuard.Passes.{
  passes, is_text, contents, finish_lem, check_anchors-passes, check_orderings-passes,
  load_all-passes, load_all-get,
}
use llm_errata.ClaimGuard.Forbidden.{
  is_bounded_text, is_quoted_text, keeps, quotes, check_forbidden-passes, every_cong,
}

every_cong_where {ℓ} :
    {A : Type ℓ} (inside p q : A → Bool) (xs : List A)
    → every inside xs ≡ true
    → ((x : A) → inside x ≡ true → p x ≡ q x)
    → every p xs ≡ every q xs
unfolding every
every_cong_where inside p q [] h e = refl
every_cong_where inside p q (x ∷ xs) h e =
    ground (arith, e x, every_cong_where inside p q xs (ground arith) e)

some_of_cong_where {ℓ} :
    {A : Type ℓ} (inside p q : A → Bool) (xs : List A)
    → every inside xs ≡ true
    → ((x : A) → inside x ≡ true → p x ≡ q x)
    → some_of p xs ≡ some_of q xs
unfolding every some_of
some_of_cong_where inside p q [] h e = refl
some_of_cong_where inside p q (x ∷ xs) h e =
    ground (arith, e x, some_of_cong_where inside p q xs (ground arith) e)

some_of_cong {ℓ} :
    {A : Type ℓ} (p q : A → Bool) (xs : List A)
    → ((x : A) → p x ≡ q x)
    → some_of p xs ≡ some_of q xs
unfolding some_of
some_of_cong p q [] e = refl
some_of_cong p q (x ∷ xs) e = ground (arith, e x, some_of_cong p q xs e)

five_true :
    (a b c d e : Bool)
    → ((a && b && c && d && e) ≡ true)
      ↔ ((a ≡ true) × (b ≡ true) × (c ≡ true) × (d ≡ true) × (e ≡ true))
five_true a b c d e = ground arith

text_or_none : (t : FileText) → (if is_text t then contents t else none) ≡ contents t
text_or_none missing = refl
text_or_none unreadable = refl
text_or_none (text t) = refl

module _ (search : String → List ℕ → Bool) (files : String → FileText) where
  abbrev start : Guard
  start = record { passed = 0; failures = []; blocked = [] }

  abbrev loaded : Guard × Dict String
  loaded = load_all files guarded_names (start, [])

  read : (k : String) → contains guarded_names k ≡ true → get loaded.1 k ≡ contents (files k)
  unfolding get
  read k m = load_all-get files guarded_names start [] k ∙ rw (m) (text_or_none (files k))

  -- The anchored text stands in the file, up to white space.
  abbrev pub is_anchored : Anchor → Bool
  is_anchored a = when_read (has_anchor a) true (contents (files a.file))

  -- One step stands before the other in the file.
  abbrev pub is_in_order : Ordering → Bool
  is_in_order o = when_read (is_ordered o) true (contents (files o.file))

  -- Each line of the file that matches is a reviewed exception.
  abbrev pub is_unclaimed : Pattern → String → Bool
  is_unclaimed p name =
      when_read (is_bounded_text search p.expression name) true (contents (files name))

  -- The quoted line stands in the file, and matches.
  abbrev pub is_anchored_quotation : Quotation → Pattern → String → Bool
  is_anchored_quotation q p name =
      when_read (is_quoted_text search p.expression name q) false (contents (files name))

  anchors_named : every (λ a. contains guarded_names a.file) anchors ≡ true
  unfolding guarded_names contains every sort_by update add
  anchors_named = refl

  orderings_named : every (λ o. contains guarded_names o.file) orderings ≡ true
  unfolding guarded_names contains every sort_by update add
  orderings_named = refl

  files_named : every (contains guarded_names) guarded_files ≡ true
  unfolding guarded_names contains every sort_by update add
  files_named = refl

  same_anchors :
      every (λ a. when_read (has_anchor a) true (get loaded.1 a.file)) anchors
      ≡ every is_anchored anchors
  same_anchors =
      every_cong_where (λ a. contains guarded_names a.file) _ _ anchors anchors_named
        (λ a m. ap (when_read (has_anchor a) true) (read a.file m))

  same_orderings :
      every (λ o. when_read (is_ordered o) true (get loaded.1 o.file)) orderings
      ≡ every is_in_order orderings
  same_orderings =
      every_cong_where (λ o. contains guarded_names o.file) _ _ orderings orderings_named
        (λ o m. ap (when_read (is_ordered o) true) (read o.file m))

  same_patterns :
      every (λ p. every (keeps search loaded.1 p) guarded_files) forbidden
      ≡ every (λ p. every (is_unclaimed p) guarded_files) forbidden
  same_patterns = every_cong _ _ forbidden (λ p.
      every_cong_where (contains guarded_names) _ _ guarded_files files_named
        (λ k m. ap (when_read (is_bounded_text search p.expression k) true) (read k m)))

  same_quotations :
      every
        (λ q. some_of (λ p. some_of (quotes search loaded.1 q p) guarded_files) forbidden)
        allowed_quotations
      ≡ every
          (λ q. some_of (λ p. some_of (is_anchored_quotation q p) guarded_files) forbidden)
          allowed_quotations
  same_quotations = every_cong _ _ allowed_quotations (λ q. some_of_cong _ _ forbidden (λ p.
      some_of_cong_where (contains guarded_names) _ _ guarded_files files_named
        (λ k m. ap (when_read (is_quoted_text search p.expression k q) false) (read k m))))

  main_passes :
      passes (
        check_forbidden search loaded.1
          (check_orderings loaded.1 orderings (check_anchors loaded.1 anchors loaded.0)))
      ≡ (every (λ k. is_text (files k)) guarded_names
          && every is_anchored anchors
          && every is_in_order orderings
          && every (λ p. every (is_unclaimed p) guarded_files) forbidden
          && every
              (λ q. some_of (λ p. some_of (is_anchored_quotation q p) guarded_files) forbidden)
              allowed_quotations)
  main_passes = ground (
    arith,
    check_forbidden-passes search loaded.1
        (check_orderings loaded.1 orderings (check_anchors loaded.1 anchors loaded.0)),
    check_orderings-passes loaded.1 orderings (check_anchors loaded.1 anchors loaded.0),
    check_anchors-passes loaded.1 anchors loaded.0,
    load_all-passes files guarded_names start [],
    same_anchors,
    same_orderings,
    same_patterns,
    same_quotations,
  )

  -- The guard exits with success exactly when every guarded file could be read, each anchor stands
  -- in its file up to white space, in each file the steps of the loop are there and in order, each
  -- line of a guarded file that matches a forbidden pattern is a reviewed exception, and each
  -- reviewed exception is still a line that matches.
  pub main_iff : (main search files ≡ exit_ok) ↔ (
      (every (λ k. is_text (files k)) guarded_names ≡ true)
      × (every is_anchored anchors ≡ true)
      × (every is_in_order orderings ≡ true)
      × (every (λ p. every (is_unclaimed p) guarded_files) forbidden ≡ true)
      × (every
            (λ q. some_of (λ p. some_of (is_anchored_quotation q p) guarded_files) forbidden)
            allowed_quotations
          ≡ true))
  unfolding main
  main_iff =
      let (success, back) = finish_lem (
        check_forbidden search loaded.1
          (check_orderings loaded.1 orderings (check_anchors loaded.1 anchors loaded.0))) in
      let (parts, whole) = five_true _ _ _ _ _ in
      (λ h. parts (sym main_passes ∙ success h), λ h. back (main_passes ∙ whole h))
