-- ===== src/Sqlite/Laws.antt =====
-- The store of prototype/sqlite_store.py keeps the laws of a store.
use llm_errata.Prelude.{
  ℕ, ◌≡◌, refl, ◌∙◌, Bool, true, false, not, ◌&&◌, ◌||◌, List, [], ◌∷◌, String, contains, every,
  ◌==◌, IsUnique, arith, eq_refl, eq_iff, Option, none, some, contains-select, contains-sort,
  every-append, every_mono, every-contains_self, and_of, ap,
}
use llm_errata.Errors.{ok, ok-injective}
use llm_errata.Lineage.{LineageLedger, descendants}
use llm_errata.Adapters.{Hit, full_score}
use llm_errata.Adapters.Lawful.{IsLawful}
use llm_errata.Residue.{StoreFile}
use llm_errata.Sqlite.Rows.{
  Row, Table, gate, row_ids, row_where, update_where, row_ids-update_where, execute,
}
use llm_errata.Sqlite.{
  Sqlite, flag, is_quarantined, enumerate, quarantine, gate_all, row_hit, hits, recall, store,
  meets, chunks,
}

abbrev gated : List Row → String → Bool
gated rows k = flag (λ r. r.quarantined) (row_where rows k)

gated-update_where :
    (id k : String) (rows : List Row)
    → gated (update_where id gate rows) k ≡ (gated rows k || k == id && contains (row_ids rows) k)
unfolding update_where row_where contains
gated-update_where id k [] = ground arith
gated-update_where id k (r ∷ rows) = ground (
  arith,
  eq_iff r.artifact_id id,
  eq_iff r.artifact_id k,
  eq_iff k id,
  gated-update_where id k rows,
)

row_ids-execute : (id : String) (t : Table) → row_ids (execute id gate t).rows ≡ row_ids t.rows
unfolding execute
row_ids-execute id t = row_ids-update_where id gate t.rows

row_ids-gate_all : (ids : List String) (t : Table) → row_ids (gate_all ids t).rows ≡ row_ids t.rows
unfolding gate_all
row_ids-gate_all [] t = refl
row_ids-gate_all (id ∷ ids) t = row_ids-gate_all ids (execute id gate t) ∙ row_ids-execute id t

gated-execute :
    (id k : String) (t : Table)
    → gated (execute id gate t).rows k ≡ (gated t.rows k || k == id && contains (row_ids t.rows) k)
unfolding execute
gated-execute id k t = gated-update_where id k t.rows

-- What is gated after the transaction: what was, and the rows it names.
pub gated-gate_all :
    (ids : List String) (k : String) (t : Table)
    → gated (gate_all ids t).rows k
      ≡ (gated t.rows k || contains ids k && contains (row_ids t.rows) k)
unfolding gate_all contains
gated-gate_all [] k t = ground arith
gated-gate_all (id ∷ ids) k t =
    gated-gate_all ids k (execute id gate t)
    ∙ ground (arith, eq_iff k id, eq_iff id k, gated-execute id k t, row_ids-execute id t)

module _ (asked : List (List ℕ) → Bool) (lower : String → List ℕ) where
  every-row_hit :
      (test : Hit → Bool) (r : Row) (text : Option String)
      → ((text : String)
          → r.quarantined ≡ false
          → test (record { artifact_id = r.artifact_id; content = text; score = full_score })
            ≡ true)
      → every test (row_hit asked lower r text) ≡ true
  unfolding row_hit every
  every-row_hit test r none h = refl
  every-row_hit test r (some text) h = ground (arith, h text)

  -- A row that is not gated is the row with its key, as the key is primary.
  hits_hidden :
      (rows : List Row)
      → IsUnique (row_ids rows)
      → every
          (λ (hit : Hit).
            not (gated rows hit.artifact_id) && contains (row_ids rows) hit.artifact_id)
          (hits asked lower rows)
        ≡ true
  unfolding hits row_where contains every
  hits_hidden [] u = refl
  hits_hidden (r ∷ rows) u =
      every-append _ (row_hit asked lower r r.content) (hits asked lower rows)
      ∙ and_of (every-row_hit _ r r.content (λ text e. ground (arith, eq_refl r.artifact_id))) (
          every_mono _ _ (hits asked lower rows)
            (λ hit e. ground (arith, eq_iff r.artifact_id hit.artifact_id)) (hits_hidden rows u.1))

  recall-hidden :
      (t : Table)
      → every (λ (hit : Hit). not (gated t.rows hit.artifact_id)) (hits asked lower t.rows) ≡ true
  recall-hidden t =
      every_mono _ _ (hits asked lower t.rows) (λ hit e. ground arith)
        (hits_hidden t.rows t.primary)

contains-enumerate :
    (l : LineageLedger) (s : Sqlite) (root k : String)
    → contains (enumerate l s root) k
      ≡ (contains (descendants l root) k && contains (row_ids s.table.rows) k)
unfolding enumerate
contains-enumerate l s root k =
    contains-sort _ k ∙ contains-select (contains (descendants l root)) (row_ids s.table.rows) k

enumerate_same :
    (l : LineageLedger) (s : Sqlite) (ids : List String) (root : String)
    → enumerate l (quarantine ids s) root ≡ enumerate l s root
unfolding enumerate quarantine
enumerate_same l s ids root = rw (row_ids-gate_all ids s.table)

-- Every enumerated row is gated by a transaction that names it.
gated_all :
    (l : LineageLedger) (s : Sqlite) (root : String) (ids : List String)
    → enumerate l s root ≡ ids
    → every (is_quarantined (quarantine ids s)) ids ≡ true
unfolding is_quarantined quarantine
gated_all l s root ids h =
    every_mono (contains ids) (is_quarantined (quarantine ids s)) ids
      (λ k e.
        gated-gate_all ids k s.table
        ∙ ground (arith, ap (λ xs. contains xs k) h, contains-enumerate l s root k, e))
      (every-contains_self ids)

module _ (disk : Sqlite → List StoreFile) (lower : String → List ℕ) where
  stored_hidden :
      (s : Sqlite) (query : String)
      → every (λ (hit : Hit). not (gated s.table.rows hit.artifact_id)) (recall disk lower s query)
        ≡ true
  unfolding recall chunks
  stored_hidden s query = recall-hidden (meets (chunks [] (lower query))) lower s.table

  -- The store over the database enumerates what it did before it was gated, gates all that it
  -- enumerates, and retrieves no row that is gated, whatever its files hold.
  pub store-IsLawful : IsLawful (store disk lower)
  unfolding is_quarantined quarantine
  store-IsLawful = record {
    enumerate-quarantine = λ l s ids root. ap ok (enumerate_same l s ids root);
    enumerate-acknowledge = λ l s to root. refl;
    name-quarantine = λ s ids. refl;
    name-acknowledge = λ s to. refl;
    gated = λ l s root ids h. gated_all l s root ids (ok-injective h);
    hidden = λ l s query. stored_hidden s query;
  }
