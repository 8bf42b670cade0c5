-- ===== src/Sqlite.antt =====
-- prototype/sqlite_store.py: the store over a database. A transaction of one UPDATE is that update:
-- errors of the database are left out. `disk` is what the store's files read as, and `lower` is
-- `str.lower`.
pub mod Rows
mod Laws
mod Covered
mod Tests
use llm_errata.Prelude.{
  ℕ, Bool, true, false, not, ◌&&◌, ◌||◌, Option, none, some, List, [], ◌∷◌, ◌++◌, String, Dict, put,
  contains, add, update, sort, select, subset, minus, is_empty, every, some_of, nat_eq,
  if◌then◌else◌, ◌==◌, map,
}
use llm_errata.Errors.{Result, ok, raise, ◌>>=◌}
use llm_errata.Lineage.{Artifact, LineageLedger, artifacts, descendants, roots_seen, set_content}
use llm_errata.Adapters.{
  Coverage, verified, partial, unknown, failed, Hit, full_score, Reported, absent, reported,
  StoreAdapter, rebuilt_content, has_word,
}
use llm_errata.Checkpoints.{is_blank}
use llm_errata.Residue.{StoreFile, ResidueReport, scan_files, blocks_verified}
use llm_errata.Sqlite.Rows.{
  Row, Table, Update, gate, erase, replace, row_ids, row_where, execute, insert_or_ignore,
  fresh_row,
}

pub record Sqlite : Type 0 where
  pub name : String
  pub table : Table
  pub retired_values : List String

-- SqliteAdapter._sync_from_ledger
unfoldable pub sync : String → List Artifact → Table → Table
unfolding insert_or_ignore
sync name [] t = t
sync name (a ∷ rest) t =
    sync name rest (if a.store == name then insert_or_ignore (fresh_row a) t else t)

-- SqliteAdapter.__init__, on a database that has the table
unfoldable pub open_store : String → LineageLedger → Table → Sqlite
unfolding sync
open_store name l t = record { name = name; table = sync name (artifacts l) t; retired_values = [] }

-- … and on one that is new
unfoldable pub new : String → LineageLedger → Sqlite
unfolding open_store
new name l = open_store name l (record { rows = []; primary = tt })

unfoldable pub enumerate : LineageLedger → Sqlite → String → List String
enumerate l s root =
    let closure = descendants l root in sort (select (contains closure) (row_ids s.table.rows))

abbrev pub same_set : List String → List String → Bool
same_set xs ys = subset xs ys && subset ys xs

unfoldable pub lineage_complete : LineageLedger → Sqlite → String → Bool
lineage_complete l s root =
    let expected = map (λ a. a.artifact_id) (select (λ a. a.store == s.name) (artifacts l)) in
    contains (roots_seen l) root && same_set (row_ids s.table.rows) expected

unfoldable pub gate_all : List String → Table → Table
gate_all [] t = t
gate_all (id ∷ ids) t = gate_all ids (execute id gate t)

unfoldable pub quarantine : List String → Sqlite → Sqlite
unfolding gate_all
quarantine ids s = record s { table = gate_all ids s.table }

-- bool(row and row[0])
abbrev pub flag : (Row → Bool) → Option Row → Bool
flag test none = false
flag test (some r) = test r

unfoldable pub is_quarantined : Sqlite → String → Bool
is_quarantined s id = flag (λ r. r.quarantined) (row_where s.table.rows id)

unfoldable pub quarantine_coverage : LineageLedger → Sqlite → String → Coverage
unfolding enumerate lineage_complete is_quarantined
quarantine_coverage l s root =
    let found = enumerate l s root in
    let gated = select (is_quarantined s) found in
    if not (lineage_complete l s root)
    then unknown
    else if same_set gated found
    then verified
    else if not (is_empty gated)
    then partial
    else failed

unfoldable pub repair_inputs : Sqlite → String → List String
repair_inputs s id = elim (row_where s.table.rows id) [ none ↦ [] | some r ↦ r.inputs ]

abbrev content_of : Option Row → Option String
content_of none = none
content_of (some r) = r.content

unfoldable pub content : Sqlite → String → Option String
content s id = content_of (row_where s.table.rows id)

-- if row and row[0]: self._retired_values.append(row[0])
abbrev pub remembered : Option String → List String → List String
remembered none values = values
remembered (some text) values = if text == "" then values else values ++ text ∷ []

unfoldable pub retire : String → Sqlite → Sqlite
unfolding content
retire id s = record s {
  retired_values = remembered (content s id) s.retired_values;
  table = execute id erase s.table;
}

-- The UPDATE of `rebuild`, and then `set_content`: the row is no longer gated when that raises.
unfoldable pub rebuild_row :
    String → LineageLedger → Sqlite → Result String → Sqlite × Result LineageLedger
rebuild_row id l s (raise e) = (s, raise e)
rebuild_row id l s (ok text) =
    (record s { table = execute id (replace text) s.table }, set_content id text l)

unfoldable pub rebuild :
    String → List String → Option String → LineageLedger → Sqlite → Sqlite × Result LineageLedger
unfolding rebuild_row
rebuild id inputs replacement l s = rebuild_row id l s (rebuilt_content l inputs replacement)

-- The words between white space, of a text that was lowered.
add_chunk : List ℕ → List (List ℕ) → List (List ℕ)
unfolding has_word
add_chunk [] ws = ws
add_chunk (c ∷ w) ws = if has_word ws (c ∷ w) then ws else (c ∷ w) ∷ ws

unfoldable pub chunks : List ℕ → List ℕ → List (List ℕ)
unfolding add_chunk
chunks word [] = add_chunk word []
chunks word (c ∷ cs) =
    let inside = chunks (word ++ c ∷ []) cs in
    let after = add_chunk word (chunks [] cs) in if is_blank c then after else inside

-- text.replace(";", " ")
abbrev spaced : List ℕ → List ℕ
spaced codes = map (λ c. if nat_eq c b';' then b' ' else c) codes

-- The row's hit, where its content is `text` or NULL.
unfoldable pub row_hit : (List (List ℕ) → Bool) → (String → List ℕ) → Row → Option String → List Hit
unfolding chunks
row_hit asked lower r none = []
row_hit asked lower r (some text) =
    if not r.quarantined && not r.retired && asked (chunks [] (spaced (lower text)))
    then record { artifact_id = r.artifact_id; content = text; score = full_score } ∷ []
    else []

unfoldable pub hits : (List (List ℕ) → Bool) → (String → List ℕ) → List Row → List Hit
unfolding row_hit
hits asked lower [] = []
hits asked lower (r ∷ rows) = row_hit asked lower r r.content ++ hits asked lower rows

-- terms & words
unfoldable pub meets : List (List ℕ) → List (List ℕ) → Bool
meets terms words = some_of (has_word words) terms

unfoldable pub snapshot_rows : List Row → Dict String → Dict String
snapshot_rows [] d = d
snapshot_rows (r ∷ rows) d =
    snapshot_rows rows
      (if r.retired then d else elim r.content [ none ↦ d | some text ↦ put r.artifact_id text d ])

unfoldable pub snapshot : Sqlite → Dict String
unfolding snapshot_rows
snapshot s = snapshot_rows s.table.rows []

abbrev disposition : Row → String
disposition r =
    if r.retired
    then "retired"
    else if r.rebuilt
    then "rebuilt"
    else if r.quarantined
    then "quarantined-only"
    else "untouched"

-- An enumerated row is there.
dispositions_of : List Row → List String → Dict String → Dict String
dispositions_of rows [] d = d
dispositions_of rows (id ∷ ids) d =
    dispositions_of rows ids
      (elim (row_where rows id) [ none ↦ d | some r ↦ put id (disposition r) d ])

unfoldable pub dispositions : LineageLedger → Sqlite → String → Dict String
unfolding dispositions_of enumerate
dispositions l s root = dispositions_of s.table.rows (enumerate l s root) []

unfoldable pub unscanned : ResidueReport
unscanned = record {
  scanned = false;
  found = false;
  place = "";
  detail = "nothing has been retired, so there is no value to scan for";
  files_scanned = [];
}

-- The loop over the needles, after the report of the one before.
unfoldable pub scan_needles : List StoreFile → List String → ResidueReport → ResidueReport
unfolding scan_files
scan_needles files [] last = last
scan_needles files (needle ∷ needles) last =
    let report = scan_files files needle in
    let rest = scan_needles files needles report in
    if report.found || not report.scanned then report else rest

abbrev needles_of : Option String → List String → List String
needles_of none values = values
needles_of (some value) values = if value == "" then values else value ∷ []

unfoldable pub residue_scan : List StoreFile → Sqlite → Option String → ResidueReport
unfolding scan_needles unscanned
residue_scan files s value =
    let needles = needles_of value s.retired_values in
    if is_empty needles
    then unscanned
    else scan_needles files needles (record unscanned { detail = "" })

unfoldable pub is_disposed : Sqlite → String → Bool
is_disposed s id = flag (λ r. r.retired || r.rebuilt) (row_where s.table.rows id)

-- SqliteAdapter.coverage, with the store's files as they are then.
unfoldable pub coverage : LineageLedger → List StoreFile → Sqlite → String → Coverage
unfolding enumerate is_disposed residue_scan blocks_verified
coverage l files s root =
    let found = enumerate l s root in
    let disposed = select (is_disposed s) found in
    let report = residue_scan files s none in
    if is_empty found
    then verified
    else if not (is_empty (minus found disposed))
    then (if is_empty disposed then failed else partial)
    else if report.found
    then failed
    else if blocks_verified report && not (is_empty s.retired_values)
    then partial
    else verified

module _ (disk : Sqlite → List StoreFile) (lower : String → List ℕ) where
  unfoldable pub recall : Sqlite → String → List Hit
  unfolding hits meets
  recall s query = hits (meets (chunks [] (lower query))) lower s.table.rows

  -- The store as an implementation of the protocol. It has no method `acknowledge`.
  abbrev pub store : StoreAdapter Sqlite
  store = record {
    name = λ s. s.name;
    required = λ s. true;
    enumerate = λ l s root. ok (enumerate l s root);
    lineage_complete = λ l s root. reported (lineage_complete l s root);
    acknowledge = λ s root. s;
    quarantine = λ s ids. quarantine ids s;
    is_quarantined = is_quarantined;
    quarantine_coverage = λ l s root. reported (quarantine_coverage l s root);
    source_artifact = λ s id. ok id;
    repair_inputs = λ l s id. ok (repair_inputs s id);
    retire = λ l s id at. ok (retire id s);
    rebuild = λ l s id inputs replacement. rebuild id inputs replacement l s;
    recall = λ l s query. recall s query;
    snapshot = λ l s. some (snapshot s);
    coverage = λ l s root. ok (coverage l (disk s) s root);
    dispositions = λ l s root. ok (dispositions l s root);
  }
