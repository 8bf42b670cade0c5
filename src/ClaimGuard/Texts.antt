-- ===== src/ClaimGuard/Texts.antt =====
-- Python's operations on texts that scripts/claim_guard.py uses, on code points.
use llm_errata.Prelude.{
  ℕ, ◌+◌, Bool, true, false, ◌&&◌, ◌||◌, Option, none, some, List, [], ◌∷◌, ◌++◌, leb, nat_eq,
  is_empty, if◌then◌else◌,
}
use llm_errata.Checkpoints.{is_blank}
use llm_errata.Controller.Probes.{is_prefix}

-- re.sub(r"\s+", " ", text): `inside` tells whether a blank was just read.
unfoldable pub collapse : Bool → List ℕ → List ℕ
collapse inside [] = []
collapse inside (c ∷ cs) =
    let after_blank = collapse true cs in
    let after = collapse false cs in
    if is_blank c then (if inside then after_blank else b' ' ∷ after_blank) else c ∷ after

unfoldable pub normalise : List ℕ → List ℕ
unfolding collapse
normalise text = collapse false text

-- text.find(needle), with `none` for -1; `i` is where the rest of the text begins.
unfoldable pub find_from : ℕ → List ℕ → List ℕ → Option ℕ
unfolding is_prefix
find_from i needle [] = if is_prefix needle [] then some i else none
find_from i needle (c ∷ cs) =
    let later = find_from (i + 1) needle cs in if is_prefix needle (c ∷ cs) then some i else later

abbrev is_break : ℕ → Bool
is_break c =
    (leb 10 c && leb c 13)
    || (leb 28 c && leb c 30)
    || nat_eq c 0x85
    || nat_eq c 0x2028
    || nat_eq c 0x2029

-- text.splitlines(): `line` is the line that is being read, and `returned` tells whether "\r" was
-- just read.
unfoldable pub lines_from : Bool → List ℕ → List ℕ → List (List ℕ)
lines_from returned line [] = if is_empty line then [] else line ∷ []
lines_from returned line (c ∷ cs) =
    let skipped = lines_from false line cs in
    let ended = line ∷ lines_from (nat_eq c 13) [] cs in
    let longer = lines_from false (line ++ c ∷ []) cs in
    if returned && nat_eq c 10 then skipped else if is_break c then ended else longer

unfoldable pub splitlines : List ℕ → List (List ℕ)
unfolding lines_from
splitlines text = lines_from false [] text

unfoldable pub lstrip : List ℕ → List ℕ
lstrip [] = []
lstrip (c ∷ cs) = let rest = lstrip cs in if is_blank c then rest else c ∷ cs

unfoldable pub rstrip : List ℕ → List ℕ
rstrip [] = []
rstrip (c ∷ cs) = let rest = rstrip cs in if is_blank c && is_empty rest then [] else c ∷ rest

unfoldable pub strip : List ℕ → List ℕ
unfolding lstrip rstrip
strip text = rstrip (lstrip text)
