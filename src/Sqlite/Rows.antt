-- ===== src/Sqlite/Rows.antt =====
-- The table `artifacts` of prototype/sqlite_store.py: rows whose primary keys are different, and the
-- statements on it.
use llm_errata.Prelude.{
  ◌≡◌, refl, sym, ap, subst, Bool, true, false, Option, none, some, List, [], ◌∷◌, ◌++◌, String,
  contains, contains-append, IsUnique, if◌then◌else◌, ◌==◌, map, arith, eq_iff,
}
use llm_errata.Lineage.{Artifact}

-- A row of the table `artifacts`; `inputs` is the JSON text of the list.
pub record Row : Type 0 where
  pub artifact_id : String
  pub root : Option String
  pub content : Option String
  pub inputs : List String
  pub quarantined : Bool
  pub retired : Bool
  pub rebuilt : Bool

abbrev pub row_ids : List Row → List String
row_ids rows = map (λ r. r.artifact_id) rows

-- The SET parts of the three UPDATE statements.
pub data Update : Type 0 where
  gate erase : Update
  replace : String → Update

abbrev pub applied : Update → Row → Row
applied gate r = record r { quarantined = true }
applied erase r = record r { content = none; retired = true; quarantined = true }
applied (replace text) r = record r { content = some text; rebuilt = true; quarantined = false }

-- UPDATE artifacts SET … WHERE artifact_id=?
unfoldable pub update_where : String → Update → List Row → List Row
update_where id u [] = []
update_where id u (r ∷ rows) =
    (if r.artifact_id == id then applied u r else r) ∷ update_where id u rows

-- SELECT … FROM artifacts WHERE artifact_id=?, with fetchone
unfoldable pub row_where : List Row → String → Option Row
row_where [] id = none
row_where (r ∷ rows) id = if r.artifact_id == id then some r else row_where rows id

pub applied-artifact_id : (u : Update) (r : Row) → (applied u r).artifact_id ≡ r.artifact_id
applied-artifact_id gate r = refl
applied-artifact_id erase r = refl
applied-artifact_id (replace text) r = refl

pub row_ids-update_where :
    (id : String) (u : Update) (rows : List Row) → row_ids (update_where id u rows) ≡ row_ids rows
unfolding update_where
row_ids-update_where id u [] = refl
row_ids-update_where id u (r ∷ rows) =
    ground (arith, row_ids-update_where id u rows, applied-artifact_id u r)

-- The table, with its primary key.
pub record Table : Type 0 where
  pub rows : List Row
  pub primary : IsUnique (row_ids rows)

unfoldable pub execute : String → Update → Table → Table
unfolding update_where
execute id u t = record {
  rows = update_where id u t.rows;
  primary = subst IsUnique (sym (row_ids-update_where id u t.rows)) t.primary;
}

abbrev pub fresh_row : Artifact → Row
fresh_row a = record {
  artifact_id = a.artifact_id;
  root = a.root;
  content = some a.content;
  inputs = a.inputs;
  quarantined = false;
  retired = false;
  rebuilt = false;
}

pub append-IsUnique :
    (xs : List String) (k : String) → contains xs k ≡ false → IsUnique xs → IsUnique (xs ++ k ∷ [])
unfolding contains
append-IsUnique [] k h u = (refl, tt)
append-IsUnique (x ∷ xs) k h u = ground (
  arith,
  contains-append xs (k ∷ []) x,
  eq_iff k x,
  eq_iff x k,
  append-IsUnique xs k (ground arith) u.1,
)

pub row_ids-append :
    (rows : List Row) (r : Row) → row_ids (rows ++ r ∷ []) ≡ row_ids rows ++ r.artifact_id ∷ []
row_ids-append [] r = refl
row_ids-append (x ∷ rows) r = ap (λ ids. x.artifact_id ∷ ids) (row_ids-append rows r)

-- INSERT OR IGNORE INTO artifacts
insert_step :
    (t : Table) (r : Row) (held : Bool) → contains (row_ids t.rows) r.artifact_id ≡ held → Table
insert_step t r true h = t
insert_step t r false h = record {
  rows = t.rows ++ r ∷ [];
  primary =
      subst IsUnique (sym (row_ids-append t.rows r))
        (append-IsUnique (row_ids t.rows) r.artifact_id h t.primary);
}

unfoldable pub insert_or_ignore : Row → Table → Table
unfolding insert_step
insert_or_ignore r t = insert_step t r (contains (row_ids t.rows) r.artifact_id) refl
