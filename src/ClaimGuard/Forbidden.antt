-- ===== src/ClaimGuard/Forbidden.antt =====
-- What `check_forbidden` of scripts/claim_guard.py finds in the documents.
use llm_errata.Prelude.{
  ℕ, ◌+◌, ◌≡◌, refl, ap, ◌∙◌, Bool, true, false, not, ◌&&◌, ◌||◌, Option, none, some, List, [], ◌∷◌,
  String, Dict, get, every, some_of, select, is_empty, ◌==◌, arith, concat, number_text,
}
use llm_errata.Json.{codes}
use llm_errata.Adapters.{same_word}
use llm_errata.ClaimGuard.Texts.{splitlines, strip}
use llm_errata.ClaimGuard.Tables.{Pattern, Quotation, forbidden, guarded_files, allowed_quotations}
use llm_errata.ClaimGuard.{
  Guard, when_read, has_pair, exceptions, Found, check_line, check_lines, check_files,
  check_patterns, check_forbidden,
}
use llm_errata.ClaimGuard.Passes.{passes, is_empty-snoc}

is_empty-select {ℓ} :
    {A : Type ℓ} (p : A → Bool) (xs : List A) → is_empty (select (λ x. not (p x)) xs) ≡ every p xs
unfolding select every
is_empty-select p [] = refl
is_empty-select p (x ∷ xs) = ground (arith, is_empty-select p xs)

pub every_cong {ℓ} :
    {A : Type ℓ} (p q : A → Bool) (xs : List A) → ((x : A) → p x ≡ q x) → every p xs ≡ every q xs
unfolding every
every_cong p q [] h = refl
every_cong p q (x ∷ xs) h = ground (arith, h x, every_cong p q xs h)

or_assoc : (a b c : Bool) → ((a || b) || c) ≡ (a || (b || c))
or_assoc true b c = refl
or_assoc false b c = refl

has_pair-cons :
    (name file : String) (line quoted : List ℕ) (pairs : List (String × List ℕ))
    → has_pair ((name, line) ∷ pairs) file quoted
      ≡ (name == file && same_word line quoted || has_pair pairs file quoted)
unfolding has_pair some_of
has_pair-cons name file line quoted pairs = refl

module _ (search : String → List ℕ → Bool) where
  -- The line does not match, or it is a reviewed exception.
  abbrev pub is_bounded : String → String → List ℕ → Bool
  is_bounded expression name line =
      not (search expression line) || has_pair exceptions name (strip line)

  abbrev pub is_bounded_text : String → String → String → Bool
  is_bounded_text expression name t = every (is_bounded expression name) (splitlines (codes t))

  -- The line matches, and is the exception that is quoted.
  unfoldable pub is_quoted : String → String → Quotation → List ℕ → Bool
  is_quoted expression name q line =
      search expression line
      && has_pair exceptions name (strip line)
      && name == q.file
      && same_word (strip line) (codes q.line)

  abbrev pub is_quoted_text : String → String → Quotation → String → Bool
  is_quoted_text expression name q t = some_of (is_quoted expression name q) (splitlines (codes t))

  abbrev is_used : Quotation → Found → Bool
  is_used q f = has_pair f.used q.file (codes q.line)

  check_line-hits :
      (e name : String) (i : ℕ) (line : List ℕ) (f : Found)
      → is_empty (check_line search e name i line f).hits
        ≡ (is_empty f.hits && is_bounded e name line)
  unfolding check_line
  check_line-hits e name i line f =
      ground (arith, is_empty-snoc f.hits (concat (name ∷ ":" ∷ number_text i ∷ [])))

  check_line-used :
      (e name : String) (q : Quotation) (i : ℕ) (line : List ℕ) (f : Found)
      → is_used q (check_line search e name i line f) ≡ (is_used q f || is_quoted e name q line)
  unfolding check_line is_quoted
  check_line-used e name q i line f =
      ground (arith, has_pair-cons name q.file (strip line) (codes q.line) f.used)

  check_lines-hits :
      (e name : String) (i : ℕ) (lines : List (List ℕ)) (f : Found)
      → is_empty (check_lines search e name i lines f).hits
        ≡ (is_empty f.hits && every (is_bounded e name) lines)
  unfolding check_lines every
  check_lines-hits e name i [] f = ground arith
  check_lines-hits e name i (line ∷ lines) f =
      check_lines-hits e name (i + 1) lines (check_line search e name i line f)
      ∙ ground (arith, check_line-hits e name i line f)

  check_lines-used :
      (e name : String) (q : Quotation) (i : ℕ) (lines : List (List ℕ)) (f : Found)
      → is_used q (check_lines search e name i lines f)
        ≡ (is_used q f || some_of (is_quoted e name q) lines)
  unfolding check_lines some_of
  check_lines-used e name q i [] f = ground arith
  check_lines-used e name q i (line ∷ lines) f =
      check_lines-used e name q (i + 1) lines (check_line search e name i line f)
      ∙ ap (λ b. b || some_of (is_quoted e name q) lines) (check_line-used e name q i line f)
      ∙ or_assoc (is_used q f) (is_quoted e name q line) (some_of (is_quoted e name q) lines)

  module _ (d : Dict String) where
    -- The body of the loop over the documents.
    abbrev checked : String → String → Option String → Found → Found
    checked e name t f = when_read (λ t. check_lines search e name 1 (splitlines (codes t)) f) f t

    checked-hits :
        (e name : String) (t : Option String) (f : Found)
        → is_empty (checked e name t f).hits
          ≡ (is_empty f.hits && when_read (is_bounded_text e name) true t)
    checked-hits e name none f = ground arith
    checked-hits e name (some t) f = check_lines-hits e name 1 (splitlines (codes t)) f

    checked-used :
        (e name : String) (q : Quotation) (t : Option String) (f : Found)
        → is_used q (checked e name t f)
          ≡ (is_used q f || when_read (is_quoted_text e name q) false t)
    checked-used e name q none f = ground arith
    checked-used e name q (some t) f = check_lines-used e name q 1 (splitlines (codes t)) f

    abbrev pub keeps : Pattern → String → Bool
    keeps p name = when_read (is_bounded_text p.expression name) true (get d name)

    abbrev pub quotes : Quotation → Pattern → String → Bool
    quotes q p name = when_read (is_quoted_text p.expression name q) false (get d name)

    check_files-hits :
        (p : Pattern) (names : List String) (f : Found)
        → is_empty (check_files search p.expression d names f).hits
          ≡ (is_empty f.hits && every (keeps p) names)
    unfolding check_files every
    check_files-hits p [] f = ground arith
    check_files-hits p (name ∷ names) f =
        check_files-hits p names (checked p.expression name (get d name) f)
        ∙ ground (arith, checked-hits p.expression name (get d name) f)

    check_files-used :
        (q : Quotation) (p : Pattern) (names : List String) (f : Found)
        → is_used q (check_files search p.expression d names f)
          ≡ (is_used q f || some_of (quotes q p) names)
    unfolding check_files some_of
    check_files-used q p [] f = ground arith
    check_files-used q p (name ∷ names) f =
        check_files-used q p names (checked p.expression name (get d name) f)
        ∙ ground (arith, checked-used p.expression name q (get d name) f)

    abbrev used_after : Quotation → List (String × List ℕ) → Bool
    used_after q used = has_pair used q.file (codes q.line)

    check_patterns-passes :
        (ps : List Pattern) (g : Guard) (used : List (String × List ℕ))
        → passes (check_patterns search d ps (g, used)).0
          ≡ (passes g && every (λ p. every (keeps p) guarded_files) ps)
    unfolding check_patterns every
    check_patterns-passes [] g used = ground arith
    check_patterns-passes (p ∷ ps) g used =
        let found : Found =
          check_files search p.expression d guarded_files (record { hits = []; used = used }) in
        check_patterns-passes ps _ found.used
        ∙ ground (
          arith,
          check_files-hits p guarded_files (record { hits = []; used = used }),
          is_empty-snoc g.failures (concat ("overclaim — " ∷ p.why ∷ [])),
        )

    check_patterns-used :
        (q : Quotation) (ps : List Pattern) (g : Guard) (used : List (String × List ℕ))
        → used_after q (check_patterns search d ps (g, used)).1
          ≡ (used_after q used || some_of (λ p. some_of (quotes q p) guarded_files) ps)
    unfolding check_patterns some_of
    check_patterns-used q [] g used = ground arith
    check_patterns-used q (p ∷ ps) g used =
        let found : Found =
          check_files search p.expression d guarded_files (record { hits = []; used = used }) in
        check_patterns-used q ps _ found.used
        ∙ ground (arith, check_files-used q p guarded_files (record { hits = []; used = used }))

    nothing_used : (b : Bool) (q : Quotation) → (used_after q [] || b) ≡ b
    unfolding has_pair some_of
    nothing_used b q = refl

    pub check_forbidden-passes :
        (g : Guard)
        → passes (check_forbidden search d g) ≡ (
            passes g
            && every (λ p. every (keeps p) guarded_files) forbidden
            && every
                (λ q. some_of (λ p. some_of (quotes q p) guarded_files) forbidden)
                allowed_quotations)
    unfolding check_forbidden
    check_forbidden-passes g =
        let used : List (String × List ℕ) = (check_patterns search d forbidden (g, [])).1 in
        let g' : Guard = (check_patterns search d forbidden (g, [])).0 in
        ground (
          arith,
          check_patterns-passes forbidden g [],
          is_empty-select (λ q. used_after q used) allowed_quotations,
          every_cong (λ q. used_after q used)
              (λ q. some_of (λ p. some_of (quotes q p) guarded_files) forbidden) allowed_quotations
              (λ q. check_patterns-used q forbidden g [] ∙ nothing_used _ q),
          is_empty-snoc g'.failures "reviewed exceptions",
        )
