-- ===== src/ClaimGuard.antt =====
-- scripts/claim_guard.py: what the published documents must say and must not say. `files` is what
-- reading a file of the repository gives, and `search` is `re.search` under IGNORECASE. What is
-- printed is left out.
pub mod Texts
pub mod Tables
mod Passes
mod Forbidden
mod Correct
mod Tests
use llm_errata.Prelude.{
  ℕ, ◌+◌, Bool, true, false, not, ◌&&◌, ◌||◌, Option, none, some, List, [], ◌∷◌, ◌++◌, String, Dict,
  get, put, map, update, sort, concat, number_text, some_of, every, select, is_empty, ltb,
  if◌then◌else◌, ◌==◌,
}
use llm_errata.Json.{codes}
use llm_errata.Adapters.{same_word}
use llm_errata.Controller.Probes.{is_infix}
use llm_errata.ClaimGuard.Texts.{normalise, find_from, splitlines, strip}
use llm_errata.ClaimGuard.Tables.{
  Anchor, Ordering, Pattern, Quotation, anchors, orderings, forbidden, guarded_files,
  allowed_quotations,
}

abbrev pub exit_ok : ℕ
exit_ok = 0

abbrev pub exit_fail : ℕ
exit_fail = 1

abbrev pub exit_inconclusive : ℕ
exit_inconclusive = 2

pub record Guard : Type 0 where
  pub passed : ℕ
  pub failures : List String
  pub blocked : List String

-- Guard.ok
abbrev pub pass : Guard → Guard
pass g = record g { passed = g.passed + 1 }

abbrev pub fail : String → Guard → Guard
fail name g = record g { failures = g.failures ++ name ∷ [] }

abbrev pub block : String → Guard → Guard
block name g = record g { blocked = g.blocked ++ name ∷ [] }

unfoldable pub finish : Guard → ℕ
finish g =
    if not (is_empty g.blocked)
    then exit_inconclusive
    else if not (is_empty g.failures)
    then exit_fail
    else exit_ok

-- What `is_file` and `read_text` give: no file, an OSError or a UnicodeDecodeError, or the text.
pub data FileText : Type 0 where
  missing unreadable : FileText
  text : String → FileText

-- `load`, and the document it adds.
abbrev pub load : String → FileText → Guard × Dict String → Guard × Dict String
load name missing (g, documents) = (block (concat ("read " ∷ name ∷ [])) g, documents)
load name unreadable (g, documents) = (block (concat ("read " ∷ name ∷ [])) g, documents)
load name (text t) (g, documents) = (g, put name t documents)

unfoldable pub load_all :
    (String → FileText) → List String → Guard × Dict String → Guard × Dict String
unfolding concat
load_all files [] state = state
load_all files (name ∷ names) state = load_all files names (load name (files name) state)

-- The body of a loop over the documents, where the document was read.
abbrev pub when_read : {A : Type 0} → (String → A) → A → Option String → A
when_read body otherwise none = otherwise
when_read body otherwise (some t) = body t

abbrev pub has_anchor : Anchor → String → Bool
has_anchor a t = is_infix (normalise (codes a.wanted)) (normalise (codes t))

abbrev pub labelled : String → String → String → String
labelled kind file why = concat (kind ∷ " — " ∷ file ∷ " (" ∷ why ∷ ")" ∷ [])

unfoldable pub check_anchors : Dict String → List Anchor → Guard → Guard
unfolding is_infix normalise concat
check_anchors documents [] g = g
check_anchors documents (a ∷ rest) g = check_anchors documents rest (
    when_read (λ t. if has_anchor a t then pass g else fail (labelled "anchor" a.file a.why) g) g
      (get documents a.file))

-- first < second, where both were found
abbrev pub before : Option ℕ → Option ℕ → Bool
before none second = false
before (some i) none = false
before (some i) (some j) = ltb i j

abbrev pub is_ordered : Ordering → String → Bool
is_ordered o t =
    before (find_from 0 (codes o.earlier) (codes t)) (find_from 0 (codes o.later) (codes t))

unfoldable pub check_orderings : Dict String → List Ordering → Guard → Guard
unfolding find_from concat
check_orderings documents [] g = g
check_orderings documents (o ∷ rest) g = check_orderings documents rest (
    when_read (λ t. if is_ordered o t then pass g else fail (labelled "ordering" o.file o.why) g) g
      (get documents o.file))

-- (name, text) in exceptions, or in used
unfoldable pub has_pair : List (String × List ℕ) → String → List ℕ → Bool
unfolding same_word
has_pair pairs name line = some_of (λ (file, quoted). file == name && same_word quoted line) pairs

abbrev pub exceptions : List (String × List ℕ)
exceptions = map (λ q. (q.file, codes q.line)) allowed_quotations

-- The local variables of `check_forbidden`.
pub record Found : Type 0 where
  pub hits : List String
  pub used : List (String × List ℕ)

unfoldable pub guarded_names : List String
guarded_names =
    sort (update (map (λ a. a.file) anchors ++ map (λ o. o.file) orderings ++ guarded_files) [])

module _ (search : String → List ℕ → Bool) where
  unfoldable pub check_line : String → String → ℕ → List ℕ → Found → Found
  unfolding has_pair strip number_text concat
  check_line expression name number line f =
      if not (search expression line)
      then f
      else if has_pair exceptions name (strip line)
      then record f { used = (name, strip line) ∷ f.used }
      else record f { hits = f.hits ++ concat (name ∷ ":" ∷ number_text number ∷ []) ∷ [] }

  unfoldable pub check_lines : String → String → ℕ → List (List ℕ) → Found → Found
  unfolding check_line
  check_lines expression name number [] f = f
  check_lines expression name number (line ∷ lines) f =
      check_lines expression name (number + 1) lines (check_line expression name number line f)

  unfoldable pub check_files : String → Dict String → List String → Found → Found
  unfolding check_lines splitlines
  check_files expression documents [] f = f
  check_files expression documents (name ∷ names) f = check_files expression documents names (
      when_read (λ t. check_lines expression name 1 (splitlines (codes t)) f) f
        (get documents name))

  unfoldable pub check_patterns :
      Dict String → List Pattern → Guard × List (String × List ℕ) → Guard × List (String × List ℕ)
  unfolding check_files
  check_patterns documents [] state = state
  check_patterns documents (p ∷ rest) (g, used) =
      let f =
        check_files p.expression documents guarded_files (record { hits = []; used = used }) in
      check_patterns documents rest (
        (if is_empty f.hits then pass g else fail (concat ("overclaim — " ∷ p.why ∷ [])) g),
        f.used,
      )

  unfoldable pub check_forbidden : Dict String → Guard → Guard
  unfolding check_patterns
  check_forbidden documents g =
      let (g', used) = check_patterns documents forbidden (g, []) in
      let stale = select (λ q. not (has_pair used q.file (codes q.line))) allowed_quotations in
      if is_empty stale then pass g' else fail "reviewed exceptions" g'

  -- `main`, with the exit code it returns.
  unfoldable pub main : (String → FileText) → ℕ
  unfolding load_all check_anchors check_orderings check_forbidden finish guarded_names
  main files =
      let (g, documents) =
        load_all files guarded_names (record { passed = 0; failures = []; blocked = [] }, []) in
      finish (
        check_forbidden documents
          (check_orderings documents orderings (check_anchors documents anchors g)))
