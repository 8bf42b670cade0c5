-- ===== src/Adapters.antt =====
-- prototype/adapters.py: coverage results, hits, the adapter protocol, and the search terms of a
-- text. The three stores are the modules below.
pub mod Markdown
pub mod Vector
pub mod Opaque
pub mod Verdicts
pub mod Reference
pub mod Lawful
use Prim.Native.String.{◌++◌ as str_append}
use llm_errata.Prelude.{
  ℕ, ◌+◌, ◌*◌, Bool, true, false, not, ◌&&◌, ◌||◌, Option, none, some, List, [], ◌∷◌, ◌++◌, String,
  Dict, leb, ltb, nat_eq, str_lt, some_of, length, if◌then◌else◌, ◌==◌,
}
use llm_errata.Errors.{Result, ok, raise, ◌>>=◌}
use llm_errata.Lineage.{Artifact, LineageLedger, artifact}

pub data Coverage : Type 0 where
  verified partial unknown failed : Coverage

abbrev pub coverage_value : Coverage → String
coverage_value verified = "verified"
coverage_value partial = "partial"
coverage_value unknown = "unknown"
coverage_value failed = "failed"

-- The similarity |a & b| / sqrt(|a| * |b|), kept as the two whole numbers that it is made of.
pub record Score : Type 0 where
  pub common : ℕ
  pub product : ℕ

pub record Hit : Type 0 where
  pub artifact_id : String
  pub content : String
  pub score : Score

abbrev pub full_score : Score
full_score = record { common = 1; product = 1 }

pub record HistoricalHit : Type 0 where
  pub artifact_id : String
  pub content : String
  pub valid_until : String

-- What a call of an optional method gives the controller: the method may be missing, raise, or
-- return something of another type.
pub data Reported {ℓ} (A : Type ℓ) : Type ℓ where
  absent raised malformed : Reported A
  reported : A → Reported A

-- The `StoreAdapter` protocol, over the states `A` of a store. The stores share the ledger, which
-- only `rebuild` writes to. What `rebuild` did to the store before it raised stays done. Stores
-- whose `acknowledge`, `quarantine`, `is_quarantined` or `recall` raises are left out: none of the
-- four in the repository does.
pub record StoreAdapter (A : Type 0) : Type 0 where
  pub name : A → String
  pub required : A → Bool
  pub enumerate : LineageLedger → A → String → Result (List String)
  pub lineage_complete : LineageLedger → A → String → Reported Bool
  pub acknowledge : A → String → A
  pub quarantine : A → List String → A
  pub is_quarantined : A → String → Bool
  pub quarantine_coverage : LineageLedger → A → String → Reported Coverage
  pub source_artifact : A → String → Result String
  pub repair_inputs : LineageLedger → A → String → Result (List String)
  pub retire : LineageLedger → A → String → Option String → Result A
  pub rebuild : LineageLedger → A → String → List String → Option String → A × Result LineageLedger
  pub recall : LineageLedger → A → String → List Hit
  pub snapshot : LineageLedger → A → Option (Dict String)
  pub coverage : LineageLedger → A → String → Result Coverage
  pub dispositions : LineageLedger → A → String → Result (Dict String)

-- A method that has changed nothing where it raises.
abbrev pub unless_raised : {A : Type 0} → A → Result (A × LineageLedger) → A × Result LineageLedger
unless_raised a (ok (a', l)) = (a', ok l)
unless_raised a (raise e) = (a, raise e)

-- "; ".join(parts)
unfoldable pub join : List String → String
join [] = ""
join (p ∷ []) = p
join (p ∷ q ∷ ps) = str_append p (str_append "; " (join (q ∷ ps)))

-- [self._ledger.artifact(item).content for item in inputs]
unfoldable pub contents_of : LineageLedger → List String → Result (List String)
contents_of l [] = ok []
contents_of l (item ∷ items) = do
  a ← artifact l item
  rest ← contents_of l items
  ok (a.content ∷ rest)

-- if replacement: parts.insert(0, replacement)
unfoldable pub with_replacement : Option String → List String → List String
with_replacement none parts = parts
with_replacement (some r) parts = if r == "" then parts else r ∷ parts

unfoldable pub rebuilt_content : LineageLedger → List String → Option String → Result String
unfolding contents_of with_replacement
rebuilt_content l inputs replacement = do
  parts ← contents_of l inputs
  ok (join (with_replacement replacement parts))

-- The pattern [a-z0-9] on a code point.
abbrev is_word : ℕ → Bool
is_word c = (leb b'a' c && leb c b'z') || (leb b'0' c && leb c b'9')

unfoldable pub same_word : List ℕ → List ℕ → Bool
same_word [] [] = true
same_word (m ∷ ms) (n ∷ ns) = nat_eq m n && same_word ms ns
same_word _ _ = false

unfoldable pub has_word : List (List ℕ) → List ℕ → Bool
unfolding same_word
has_word [] w = false
has_word (v ∷ vs) w = same_word v w || has_word vs w

add_word : List ℕ → List (List ℕ) → List (List ℕ)
unfolding has_word
add_word [] ws = ws
add_word (c ∷ w) ws = if has_word ws (c ∷ w) then ws else (c ∷ w) ∷ ws

-- set(re.findall("[a-z0-9]+", …)): `word` is the word that is being read.
words : List ℕ → List ℕ → List (List ℕ)
unfolding add_word
words word [] = add_word word []
words word (c ∷ cs) =
    let inside = words (word ++ c ∷ []) cs in
    let after = add_word word (words [] cs) in if is_word c then inside else after

-- `str.lower` follows the Unicode tables, which are not here: it is a parameter, from a text to
-- the code points of the lowered text.
module _ (lower : String → List ℕ) where
  -- _terms
  unfoldable pub terms : String → List (List ℕ)
  unfolding words
  terms text = words [] (lower text)

  -- terms & _terms(content), as a truth value
  unfoldable pub shares_term : String → String → Bool
  unfolding terms has_word
  shares_term query content = some_of (has_word (terms content)) (terms query)

common_words : List (List ℕ) → List (List ℕ) → ℕ
common_words [] vs = 0
common_words (w ∷ ws) vs = (if has_word vs w then 1 else 0) + common_words ws vs

-- _similarity; two empty sets of words have the score 0.0
unfoldable pub similarity : List (List ℕ) → List (List ℕ) → Score
unfolding common_words
similarity [] vs = record { common = 0; product = 1 }
similarity ws [] = record { common = 0; product = 1 }
similarity ws vs = record { common = common_words ws vs; product = length ws * length vs }

-- score >= 0.2: c / sqrt(n) >= 1 / 5 exactly when 25 * c ^ 2 >= n
unfoldable pub reaches_threshold : Score → Bool
reaches_threshold s = leb s.product (25 * (s.common * s.common))

-- s > t, by the squares
abbrev above : Score → Score → Bool
above s t = ltb (t.common * t.common * s.product) (s.common * s.common * t.product)

-- The order of the key (-score, artifact_id).
abbrev pub ranks_before : Hit → Hit → Bool
ranks_before h k =
    above h.score k.score || (not (above k.score h.score) && str_lt h.artifact_id k.artifact_id)
