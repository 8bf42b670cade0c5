-- ===== src/Adapters/Markdown.antt =====
-- adapters.py, class MarkdownAdapter: a store with exact lineage.
pub mod Enumeration
pub mod Disposal
pub mod Gate
use llm_errata.Prelude.{
  ℕ, Bool, true, false, not, ◌&&◌, ◌||◌, Option, none, some, List, [], ◌∷◌, ◌++◌, String, Dict, put,
  contains, add, update, discard, subset, intersects, minus, every, select, is_empty, sort,
  if◌then◌else◌, ◌==◌, map,
}
use llm_errata.Errors.{Result, ok, raise, ◌>>=◌}
use llm_errata.Lineage.{
  Artifact, LineageLedger, artifact, artifacts, roots_seen, descendants, store_of, set_content,
}
use llm_errata.Adapters.{
  Coverage, verified, partial, unknown, failed, Hit, HistoricalHit, full_score, rebuilt_content,
  shares_term,
}

pub record Markdown : Type 0 where
  pub quarantined : List String
  pub retired : List String
  pub rebuilt : List String
  pub history : List HistoricalHit

abbrev pub new : Markdown
new = record { quarantined = []; retired = []; rebuilt = []; history = [] }

abbrev pub name : String
name = "markdown"

-- item for item in … if self._ledger.store_of(item) == self.name
unfoldable pub stored_here : LineageLedger → List String → Result (List String)
stored_here l [] = ok []
stored_here l (item ∷ items) = do
  store ← store_of l item
  rest ← stored_here l items
  ok (if store == name then item ∷ rest else rest)

unfoldable pub enumerate : LineageLedger → String → Result (List String)
unfolding stored_here
enumerate l root = do items ← stored_here l (descendants l root); ok (sort items)

abbrev is_root : Artifact → String → Bool
is_root a root = elim a.root [ none ↦ false | some r ↦ r == root ]

unfoldable pub lineage_complete : LineageLedger → String → Bool
lineage_complete l root =
    contains (roots_seen l) root
    && every (λ a. contains (descendants l root) a.artifact_id)
        (select (λ a. a.store == name && is_root a root) (artifacts l))

unfoldable pub quarantine : List String → Markdown → Markdown
quarantine ids m = record m { quarantined = update ids m.quarantined }

unfoldable pub is_quarantined : Markdown → String → Bool
is_quarantined m id = contains m.quarantined id

unfoldable pub quarantine_coverage : LineageLedger → Markdown → String → Result Coverage
quarantine_coverage l m root = do
  found ← enumerate l root
  ok (
      if not (lineage_complete l root)
      then unknown
      else if subset found m.quarantined
      then verified
      else if intersects found m.quarantined
      then partial
      else failed)

-- Only a supersession gives `superseded_at`; it keeps the old content as history.
unfoldable pub remember : LineageLedger → String → Option String → Markdown → Result Markdown
remember l id none m = ok m
remember l id (some superseded_at) m = do
  a ← artifact l id
  ok (record m {
    history =
        m.history
        ++ (record { artifact_id = id; content = a.content; valid_until = superseded_at }) ∷ [];
  })

unfoldable pub retire : LineageLedger → String → Option String → Markdown → Result Markdown
unfolding remember
retire l id superseded_at m = do
  m' ← remember l id superseded_at m
  ok (record m' { retired = add id m'.retired })

unfoldable pub rebuild :
    String
    → List String
    → Option String
    → LineageLedger
    → Markdown
    → Result (Markdown × LineageLedger)
rebuild id inputs replacement l m = do
  content ← rebuilt_content l inputs replacement
  l' ← set_content id content l
  ok (record m { rebuilt = add id m.rebuilt; quarantined = discard id m.quarantined }, l')

unfoldable pub content : LineageLedger → String → Result String
content l id = do a ← artifact l id; ok a.content

unfoldable pub repair_inputs : LineageLedger → String → Result (List String)
repair_inputs l id = do a ← artifact l id; ok a.inputs

unfoldable pub release : String → Markdown → Markdown
release id m = record m { quarantined = discard id m.quarantined }

unfoldable pub mark_rebuilt : String → Markdown → Markdown
mark_rebuilt id m = record m { rebuilt = add id m.rebuilt }

unfoldable pub snapshot : LineageLedger → Markdown → Dict String
snapshot l m =
    map (λ a. (a.artifact_id, a.content))
      (select (λ a. a.store == name && not (contains m.retired a.artifact_id)) (artifacts l))

unfoldable pub coverage : LineageLedger → Markdown → String → Result Coverage
coverage l m root = do
  found ← enumerate l root
  let disposed = update m.retired m.rebuilt
  ok (
      if is_empty found
      then verified
      else if is_empty (minus found disposed)
      then verified
      else if intersects disposed found
      then partial
      else failed)

unfoldable pub disposition : Markdown → String → String
disposition m id =
    if contains m.retired id
    then "retired"
    else if contains m.rebuilt id
    then "rebuilt"
    else if contains m.quarantined id
    then "quarantined-only"
    else "untouched"

unfoldable pub dispositions : LineageLedger → Markdown → String → Result (Dict String)
unfolding disposition
dispositions l m root = do found ← enumerate l root; ok (map (λ id. (id, disposition m id)) found)

module _ (lower : String → List ℕ) where
  unfoldable pub recall_history : Markdown → String → List HistoricalHit
  recall_history m query = select (λ entry. shares_term lower query entry.content) m.history

  -- The tests of the loop of `recall`, in its order.
  abbrev pub recalled : Markdown → String → Artifact → Bool
  recalled m query a =
      a.store == name
      && not (contains m.quarantined a.artifact_id)
      && not (contains m.retired a.artifact_id)
      && shares_term lower query a.content

  unfoldable pub recall : LineageLedger → Markdown → String → List Hit
  recall l m query =
      map (λ a. record { artifact_id = a.artifact_id; content = a.content; score = full_score })
        (select (recalled m query) (artifacts l))
