-- ===== src/Controller/Probes.antt =====
-- Importer._run_triad and `_recalls`: the behavioural probes.
pub mod Infix
pub mod Split
pub mod Triad
use llm_errata.Prelude.{
  ℕ, Bool, true, false, not, ◌&&◌, ◌||◌, Option, none, some, List, [], ◌∷◌, ◌++◌, String, Dict,
  some_of, every, nat_eq, put, if◌then◌else◌, ◌==◌,
}
use Prim.Native.Char.{code}
use llm_errata.Errors.{Result, ok, raise, ◌>>=◌}
use llm_errata.Lineage.{LineageLedger}
use llm_errata.Errata.{Erratum, is_erase}
use llm_errata.Adapters.{Hit, StoreAdapter}
use llm_errata.Controller.{Importer}
use llm_errata.Controller.Gate.{item}

-- Whether the first text begins the second.
unfoldable pub is_prefix : List ℕ → List ℕ → Bool
is_prefix [] cs = true
is_prefix (b ∷ bs) [] = false
is_prefix (b ∷ bs) (c ∷ cs) = nat_eq b c && is_prefix bs cs

-- `part in whole`, on texts
unfoldable pub is_infix : List ℕ → List ℕ → Bool
unfolding is_prefix
is_infix bs [] = is_prefix bs []
is_infix bs (c ∷ cs) = is_prefix bs (c ∷ cs) || is_infix bs cs

-- text.split("|")
unfoldable pub split_bar : String → List String
split_bar String.[] = "" ∷ []
split_bar (String.◌∷◌ c s) =
    let rest = split_bar s in
    if nat_eq (code c) b'|'
    then "" ∷ rest
    else elim rest [ [] ↦ [] | first ∷ others ↦ String.◌∷◌ c first ∷ others ]

abbrev pub verdict : Bool → String
verdict b = if b then "pass" else "fail"

module _ {A : Type 0} (s : StoreAdapter A) (lower : String → List ℕ) where
  abbrev pub surfaces : String → Hit → Bool
  surfaces term hit = is_infix (lower term) (lower hit.content)

  -- `_recalls`
  unfoldable pub recalls : LineageLedger → List A → String → Bool
  unfolding is_infix
  recalls l [] term = false
  recalls l (a ∷ rest) term = some_of (surfaces term) (s.recall l a term) || recalls l rest term

  -- `_run_triad`
  unfoldable pub run_triad : Importer A → Erratum → Result (Dict String)
  unfolding recalls split_bar item
  run_triad i e = do
    negative ← item e.postconditions "negative"
    let rows = ("negative", verdict (not (recalls i.ledger i.adapters negative))) ∷ []
    rows' ← if is_erase e.operation then ok rows else (do
      positive ← item e.postconditions "positive"
      ok (put "positive" (verdict (recalls i.ledger i.adapters positive)) rows))
    preserve ← item e.postconditions "preserve"
    ok (put "preserve" (verdict (every (recalls i.ledger i.adapters) (split_bar preserve))) rows')
