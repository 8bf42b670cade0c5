-- ===== src/ClaimGuard/Tests.antt =====
-- Runs of the guard on small repositories, and its theorem at one.
use llm_errata.Prelude.{
  ◌≡◌, refl, ◌↔◌, Bool, true, false, List, [], ◌∷◌, ◌++◌, String, ℕ, every, some_of, select, get,
  sort_by, update, add, put, concat, map, ◌==◌, if◌then◌else◌, some, none,
}
use llm_errata.Json.{codes}
use llm_errata.Adapters.{same_word}
use llm_errata.ClaimGuard.Texts.{normalise, splitlines, strip, find_from}
use llm_errata.ClaimGuard.Tables.{anchors, orderings, forbidden, guarded_files, allowed_quotations}
use llm_errata.ClaimGuard.{FileText, missing, text, main, exit_ok, exit_inconclusive, guarded_names}
use llm_errata.ClaimGuard.Passes.{is_text}
use llm_errata.ClaimGuard.Correct.{
  is_anchored, is_in_order, is_unclaimed, is_anchored_quotation, main_iff,
}

abbrev no_match : String → List ℕ → Bool
no_match expression line = false

abbrev one_file : String → FileText
one_file name = if name == "README.md" then text "2. **Quarantine:** then" else missing

normalised : normalise (codes "a \n\n b\t") ≡ codes "a b "
unfolding normalise
normalised = refl

split : splitlines (codes "a\r\nb\n\nc") ≡ codes "a" ∷ codes "b" ∷ [] ∷ codes "c" ∷ []
unfolding splitlines
split = refl

split_ended : splitlines (codes "a\n") ≡ codes "a" ∷ []
unfolding splitlines
split_ended = refl

stripped : strip (codes "  a b \n") ≡ codes "a b"
unfolding strip
stripped = refl

found :
    (find_from 0 (codes "bc") (codes "abcbc") ≡ some 1)
    × (find_from 0 (codes "d") (codes "abc") ≡ none)
unfolding find_from
found = (refl, refl)

-- A missing file is never a pass.
inconclusive : main no_match one_file ≡ exit_inconclusive
unfolding main select some_of get sort_by update add put
inconclusive = refl

-- A repository in which each file has its anchors and its steps, and RESEARCH.md the quotations.
abbrev wanted_in : String → List String
wanted_in name =
    map (λ a. concat (a.wanted ∷ "\n" ∷ [])) (select (λ a. a.file == name) anchors)
    ++ map (λ o. concat (o.earlier ∷ o.later ∷ "\n" ∷ [])) (select (λ o. o.file == name) orderings)
    ++ map (λ q. concat (q.line ∷ "\n" ∷ [])) (select (λ q. q.file == name) allowed_quotations)

abbrev good : String → FileText
good name = text (concat (wanted_in name))

abbrev matches : String → List ℕ → Bool
matches expression line = some_of (λ q. same_word (codes q.line) line) allowed_quotations

passed : main matches good ≡ exit_ok
unfolding main select some_of get sort_by update add put concat same_word
passed = refl

main_iff_example : (main matches good ≡ exit_ok) ↔ (
    (every (λ k. is_text (good k)) guarded_names ≡ true)
    × (every (is_anchored matches good) anchors ≡ true)
    × (every (is_in_order matches good) orderings ≡ true)
    × (every (λ p. every (is_unclaimed matches good p) guarded_files) forbidden ≡ true)
    × (every
          (λ q.
            some_of (λ p. some_of (is_anchored_quotation matches good q p) guarded_files) forbidden)
          allowed_quotations
        ≡ true))
main_iff_example = main_iff matches good
