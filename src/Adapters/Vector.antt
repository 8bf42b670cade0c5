-- ===== src/Adapters/Vector.antt =====
-- adapters.py, class VectorAdapter: entries with derivation metadata, retrieved by similarity.
pub mod Laws
pub mod Disposal
use llm_errata.Prelude.{
  ℕ, Bool, true, false, not, ◌&&◌, Option, none, some, List, [], ◌∷◌, String, Dict, get, put, pop,
  keys, values, contains, add, update, discard, subset, intersects, minus, every, select, is_empty,
  sort, if◌then◌else◌, map,
}
use llm_errata.Errors.{Result, ok, raise, ◌>>=◌, key_error}
use llm_errata.Lineage.{Artifact, LineageLedger, artifact, artifact_ids, roots_seen, descendants}
use llm_errata.Adapters.{
  Coverage, verified, partial, unknown, failed, Hit, rebuilt_content, terms, similarity,
  reaches_threshold, ranks_before,
}

pub record Vector : Type 0 where
  pub sources : Dict String
  pub text : Dict String
  pub quarantined : List String
  pub retired : List String
  pub rebuilt : List String

abbrev pub new : Vector
new = record { sources = []; text = []; quarantined = []; retired = []; rebuilt = [] }

abbrev pub name : String
name = "vector"

unfoldable pub index : String → String → String → Vector → Vector
index id source text v = record v { sources = put id source v.sources; text = put id text v.text }

-- entry_id for entry_id, source in self._source_of.items() if source in closure
unfoldable pub entries_from : List String → Dict String → List String
entries_from closure [] = []
entries_from closure ((id, source) ∷ d) =
    let rest = entries_from closure d in if contains closure source then id ∷ rest else rest

unfoldable pub enumerate : LineageLedger → Vector → String → List String
unfolding entries_from
enumerate l v root = sort (entries_from (descendants l root) v.sources)

unfoldable pub lineage_complete : LineageLedger → Vector → String → Bool
lineage_complete l v root =
    contains (roots_seen l) root
    && subset (keys v.text) (keys v.sources)
    && every (contains (artifact_ids l)) (values v.sources)

unfoldable pub quarantine : List String → Vector → Vector
quarantine ids v = record v { quarantined = update ids v.quarantined }

unfoldable pub is_quarantined : Vector → String → Bool
is_quarantined v id = contains v.quarantined id

unfoldable pub quarantine_coverage : LineageLedger → Vector → String → Coverage
quarantine_coverage l v root =
    let found = enumerate l v root in
    if not (lineage_complete l v root)
    then unknown
    else if subset found v.quarantined
    then verified
    else if intersects found v.quarantined
    then partial
    else failed

-- The text goes; the source stays, so that the entry still enumerates.
unfoldable pub retire : String → Vector → Vector
retire id v = record v { retired = add id v.retired; text = pop id v.text }

unfoldable pub rebuild :
    String → List String → Option String → LineageLedger → Vector → Result Vector
rebuild id inputs replacement l v = do
  text ← rebuilt_content l inputs replacement
  ok (record v {
    text = put id text v.text;
    rebuilt = add id v.rebuilt;
    quarantined = discard id v.quarantined;
  })

abbrev found_source : Option String → Result String
found_source none = raise key_error
found_source (some source) = ok source

unfoldable pub source_of : Vector → String → Result String
source_of v id = found_source (get v.sources id)

unfoldable pub repair_inputs : LineageLedger → Vector → String → Result (List String)
unfolding source_of
repair_inputs l v id = do source ← source_of v id; a ← artifact l source; ok a.inputs

unfoldable pub release : String → Vector → Vector
release id v = record v { quarantined = discard id v.quarantined }

unfoldable pub mark_rebuilt : String → Vector → Vector
mark_rebuilt id v = record v { rebuilt = add id v.rebuilt }

unfoldable pub snapshot : Vector → Dict String
snapshot v = v.text

unfoldable pub coverage : LineageLedger → Vector → String → Coverage
coverage l v root =
    let found = enumerate l v root in
    let disposed = update v.retired v.rebuilt in
    if is_empty found
    then verified
    else if is_empty (minus found disposed)
    then verified
    else if intersects disposed found
    then partial
    else failed

unfoldable pub disposition : Vector → String → String
disposition v id =
    if contains v.retired id
    then "retired"
    else if contains v.rebuilt id
    then "rebuilt"
    else if contains v.quarantined id
    then "quarantined-only"
    else "untouched"

unfoldable pub dispositions : LineageLedger → Vector → String → Dict String
unfolding disposition
dispositions l v root = map (λ id. (id, disposition v id)) (enumerate l v root)

insert_hit : Hit → List Hit → List Hit
insert_hit h [] = h ∷ []
insert_hit h (k ∷ ks) = if ranks_before k h then k ∷ insert_hit h ks else h ∷ k ∷ ks

rank : List Hit → List Hit
unfolding insert_hit
rank [] = []
rank (h ∷ hs) = insert_hit h (rank hs)

module _ (lower : String → List ℕ) where
  -- The loop of `recall`, before the hits are ranked.
  unfoldable pub matches : Vector → String → Dict String → List Hit
  matches v query [] = []
  matches v query ((id, text) ∷ d) =
      let rest = matches v query d in
      let score = similarity (terms lower query) (terms lower text) in
      if contains v.quarantined id
      then rest
      else if reaches_threshold score
      then (record { artifact_id = id; content = text; score = score }) ∷ rest
      else rest

  unfoldable pub recall : Vector → String → List Hit
  unfolding matches rank
  recall v query = rank (matches v query v.text)
