-- ===== src/Sqlite/Tests.antt =====
-- Runs of the store over a database, and the theorems about it at one.
use llm_errata.Prelude.{
  ◌≡◌, refl, Bool, true, false, ◌↔◌, ◌⊎◌, List, [], ◌∷◌, String, every, is_empty, All, none, some,
}
use llm_errata.Json.{codes, encode}
use llm_errata.Lineage.{LineageLedger, empty_ledger, register_import}
use llm_errata.Adapters.{verified, partial, failed, full_score}
use llm_errata.Adapters.Lawful.{IsLawful}
use llm_errata.Residue.{StoreFile, bytes}
use llm_errata.Sqlite.{
  Sqlite, new, open_store, enumerate, quarantine, is_quarantined, retire, recall, coverage,
  quarantine_coverage, is_disposed, store, snapshot, content, dispositions, rebuild, rebuild_row,
}
use llm_errata.Adapters.{rebuilt_content}
use llm_errata.Lineage.{set_content}
use llm_errata.Sqlite.Laws.{store-IsLawful}
use llm_errata.Sqlite.Covered.{Lacked, coverage-Lacked, retire-Lacked}

abbrev ledger : LineageLedger
unfolding register_import
ledger =
    register_import "mem_01HX" "fact:diet" "sqlite" "is vegetarian"
      (register_import "mem_02KP" "fact:venue" "sqlite" "quiet; cheap" empty_ledger)

abbrev ids : List String
ids = "fact:diet" ∷ []

abbrev opened : Sqlite
opened = new "sqlite" ledger

abbrev gated : Sqlite
gated = quarantine ids opened

abbrev retired : Sqlite
retired = retire "fact:diet" gated

abbrev file : String → List StoreFile
file text = record { name = "store.db"; exists = true; reading = bytes (encode text) } ∷ []

-- Before the gate, and after it.
gated_run :
    (enumerate ledger opened "mem_01HX" ≡ ids)
    × (coverage ledger [] opened "mem_01HX" ≡ failed)
    × (quarantine_coverage ledger gated "mem_01HX" ≡ verified)
    × (recall (λ s. []) codes gated "cheap vegetarian"
        ≡ record { artifact_id = "fact:venue"; content = "quiet; cheap"; score = full_score } ∷ [])
unfolding ledger enumerate coverage quarantine_coverage recall llm_errata.Prelude.sort_by
    llm_errata.Prelude.select llm_errata.Sqlite.new llm_errata.Sqlite.open_store
    llm_errata.Sqlite.sync llm_errata.Lineage.artifacts llm_errata.Prelude.values
    llm_errata.Prelude.put llm_errata.Prelude.contains llm_errata.Lineage.descendants
    llm_errata.Lineage.closure_loop llm_errata.Lineage.sweep llm_errata.Lineage.visit
    llm_errata.Lineage.direct llm_errata.Prelude.add llm_errata.Prelude.some_of
    llm_errata.Sqlite.Rows.row_where llm_errata.Lineage.roots_seen llm_errata.Prelude.update
    llm_errata.Adapters.has_word llm_errata.Adapters.same_word llm_errata.Controller.Probes.is_infix
    llm_errata.Controller.Probes.is_prefix llm_errata.Json.encode llm_errata.Json.utf8
    llm_errata.Json.utf8_char llm_errata.Lineage.register_import llm_errata.Prelude.concat
    llm_errata.Prelude.every llm_errata.Residue.blocks_verified llm_errata.Residue.scan
    llm_errata.Residue.scan_files llm_errata.Sqlite.Rows.insert_or_ignore llm_errata.Sqlite.chunks
    llm_errata.Sqlite.hits llm_errata.Sqlite.is_disposed llm_errata.Sqlite.is_quarantined
    llm_errata.Sqlite.lineage_complete llm_errata.Sqlite.meets llm_errata.Sqlite.residue_scan
    llm_errata.Sqlite.row_hit llm_errata.Sqlite.scan_needles llm_errata.Sqlite.unscanned
    llm_errata.Sqlite.Rows.execute llm_errata.Sqlite.Rows.update_where llm_errata.Sqlite.gate_all
    llm_errata.Sqlite.quarantine llm_errata.Sqlite.add_chunk llm_errata.Sqlite.snapshot_rows
gated_run = (refl, refl, refl, refl)

-- After the row was retired, while its text is still on a free page, and then not any more. Opened
-- again, the store has forgotten what it retired, and scans for nothing.
retired_run :
    (content retired "fact:diet" ≡ none)
    × (snapshot retired ≡ ("fact:venue", "quiet; cheap") ∷ [])
    × (dispositions ledger retired "mem_01HX" ≡ ("fact:diet", "retired") ∷ [])
    × (coverage ledger (file "page: is vegetarian") retired "mem_01HX" ≡ failed)
    × (coverage ledger [] retired "mem_01HX" ≡ partial)
    × (coverage ledger (file "page: quiet") retired "mem_01HX" ≡ verified)
    × (coverage ledger
          (file "page: is vegetarian")
          (open_store "sqlite" ledger retired.table)
          "mem_01HX"
        ≡ verified)
unfolding ledger enumerate content snapshot dispositions coverage retire
    llm_errata.Sqlite.dispositions_of llm_errata.Prelude.sort_by llm_errata.Prelude.select
    llm_errata.Sqlite.new llm_errata.Sqlite.open_store llm_errata.Sqlite.sync
    llm_errata.Lineage.artifacts llm_errata.Prelude.values llm_errata.Prelude.put
    llm_errata.Prelude.contains llm_errata.Lineage.descendants llm_errata.Lineage.closure_loop
    llm_errata.Lineage.sweep llm_errata.Lineage.visit llm_errata.Lineage.direct
    llm_errata.Prelude.add llm_errata.Prelude.some_of llm_errata.Sqlite.Rows.row_where
    llm_errata.Lineage.roots_seen llm_errata.Prelude.update llm_errata.Adapters.has_word
    llm_errata.Adapters.same_word llm_errata.Controller.Probes.is_infix
    llm_errata.Controller.Probes.is_prefix llm_errata.Json.encode llm_errata.Json.utf8
    llm_errata.Json.utf8_char llm_errata.Lineage.register_import llm_errata.Prelude.concat
    llm_errata.Prelude.every llm_errata.Residue.blocks_verified llm_errata.Residue.scan
    llm_errata.Residue.scan_files llm_errata.Sqlite.Rows.insert_or_ignore llm_errata.Sqlite.chunks
    llm_errata.Sqlite.hits llm_errata.Sqlite.is_disposed llm_errata.Sqlite.is_quarantined
    llm_errata.Sqlite.lineage_complete llm_errata.Sqlite.meets llm_errata.Sqlite.residue_scan
    llm_errata.Sqlite.row_hit llm_errata.Sqlite.scan_needles llm_errata.Sqlite.unscanned
    llm_errata.Sqlite.Rows.execute llm_errata.Sqlite.Rows.update_where llm_errata.Sqlite.gate_all
    llm_errata.Sqlite.quarantine llm_errata.Sqlite.add_chunk llm_errata.Sqlite.snapshot_rows
retired_run = (refl, refl, refl, refl, refl, refl, refl)

coverage-Lacked_example : (coverage ledger (file "page: quiet") retired "mem_01HX" ≡ verified) ↔ (
    (is_empty (enumerate ledger retired "mem_01HX") ≡ true)
    ⊎ ((every (is_disposed retired) (enumerate ledger retired "mem_01HX") ≡ true)
        × All (Lacked (file "page: quiet")) retired.retired_values))
coverage-Lacked_example = coverage-Lacked ledger (file "page: quiet") retired "mem_01HX"

retired_covered : coverage ledger (file "page: quiet") retired "mem_01HX" ≡ verified
retired_covered = retired_run.5

retired_rows : is_empty (enumerate ledger retired "mem_01HX") ≡ false
unfolding ledger enumerate content snapshot dispositions coverage retire
    llm_errata.Sqlite.dispositions_of llm_errata.Prelude.sort_by llm_errata.Prelude.select
    llm_errata.Sqlite.new llm_errata.Sqlite.open_store llm_errata.Sqlite.sync
    llm_errata.Lineage.artifacts llm_errata.Prelude.values llm_errata.Prelude.put
    llm_errata.Prelude.contains llm_errata.Lineage.descendants llm_errata.Lineage.closure_loop
    llm_errata.Lineage.sweep llm_errata.Lineage.visit llm_errata.Lineage.direct
    llm_errata.Prelude.add llm_errata.Prelude.some_of llm_errata.Sqlite.Rows.row_where
    llm_errata.Lineage.roots_seen llm_errata.Prelude.update llm_errata.Adapters.has_word
    llm_errata.Adapters.same_word llm_errata.Controller.Probes.is_infix
    llm_errata.Controller.Probes.is_prefix llm_errata.Json.encode llm_errata.Json.utf8
    llm_errata.Json.utf8_char llm_errata.Lineage.register_import llm_errata.Prelude.concat
    llm_errata.Prelude.every llm_errata.Residue.blocks_verified llm_errata.Residue.scan
    llm_errata.Residue.scan_files llm_errata.Sqlite.Rows.insert_or_ignore llm_errata.Sqlite.chunks
    llm_errata.Sqlite.hits llm_errata.Sqlite.is_disposed llm_errata.Sqlite.is_quarantined
    llm_errata.Sqlite.lineage_complete llm_errata.Sqlite.meets llm_errata.Sqlite.residue_scan
    llm_errata.Sqlite.row_hit llm_errata.Sqlite.scan_needles llm_errata.Sqlite.unscanned
    llm_errata.Sqlite.Rows.execute llm_errata.Sqlite.Rows.update_where llm_errata.Sqlite.gate_all
    llm_errata.Sqlite.quarantine llm_errata.Sqlite.add_chunk llm_errata.Sqlite.snapshot_rows
retired_rows = refl

gated_content : content gated "fact:diet" ≡ some "is vegetarian"
unfolding ledger enumerate content snapshot dispositions coverage retire
    llm_errata.Sqlite.dispositions_of llm_errata.Prelude.sort_by llm_errata.Prelude.select
    llm_errata.Sqlite.new llm_errata.Sqlite.open_store llm_errata.Sqlite.sync
    llm_errata.Lineage.artifacts llm_errata.Prelude.values llm_errata.Prelude.put
    llm_errata.Prelude.contains llm_errata.Lineage.descendants llm_errata.Lineage.closure_loop
    llm_errata.Lineage.sweep llm_errata.Lineage.visit llm_errata.Lineage.direct
    llm_errata.Prelude.add llm_errata.Prelude.some_of llm_errata.Sqlite.Rows.row_where
    llm_errata.Lineage.roots_seen llm_errata.Prelude.update llm_errata.Adapters.has_word
    llm_errata.Adapters.same_word llm_errata.Controller.Probes.is_infix
    llm_errata.Controller.Probes.is_prefix llm_errata.Json.encode llm_errata.Json.utf8
    llm_errata.Json.utf8_char llm_errata.Lineage.register_import llm_errata.Prelude.concat
    llm_errata.Prelude.every llm_errata.Residue.blocks_verified llm_errata.Residue.scan
    llm_errata.Residue.scan_files llm_errata.Sqlite.Rows.insert_or_ignore llm_errata.Sqlite.chunks
    llm_errata.Sqlite.hits llm_errata.Sqlite.is_disposed llm_errata.Sqlite.is_quarantined
    llm_errata.Sqlite.lineage_complete llm_errata.Sqlite.meets llm_errata.Sqlite.residue_scan
    llm_errata.Sqlite.row_hit llm_errata.Sqlite.scan_needles llm_errata.Sqlite.unscanned
    llm_errata.Sqlite.Rows.execute llm_errata.Sqlite.Rows.update_where llm_errata.Sqlite.gate_all
    llm_errata.Sqlite.quarantine llm_errata.Sqlite.add_chunk llm_errata.Sqlite.snapshot_rows
gated_content = refl

retire-Lacked_example : Lacked (file "page: quiet") "is vegetarian"
retire-Lacked_example =
    retire-Lacked ledger (file "page: quiet") gated "fact:diet" "is vegetarian" "mem_01HX"
      gated_content refl retired_rows retired_covered

-- A rebuild of a row that the ledger does not have raises, and the row is no longer gated.
ungated_run :
    (is_quarantined gated "fact:diet" ≡ true)
    × (is_quarantined (rebuild "fact:diet" [] (some "eats fish") empty_ledger gated).0 "fact:diet"
        ≡ false)
unfolding ledger enumerate content snapshot dispositions coverage retire
    llm_errata.Sqlite.dispositions_of llm_errata.Prelude.sort_by llm_errata.Prelude.select
    llm_errata.Sqlite.new llm_errata.Sqlite.open_store llm_errata.Sqlite.sync
    llm_errata.Lineage.artifacts llm_errata.Prelude.values llm_errata.Prelude.put
    llm_errata.Prelude.contains llm_errata.Lineage.descendants llm_errata.Lineage.closure_loop
    llm_errata.Lineage.sweep llm_errata.Lineage.visit llm_errata.Lineage.direct
    llm_errata.Prelude.add llm_errata.Prelude.some_of llm_errata.Sqlite.Rows.row_where
    llm_errata.Lineage.roots_seen llm_errata.Prelude.update llm_errata.Adapters.has_word
    llm_errata.Adapters.same_word llm_errata.Controller.Probes.is_infix
    llm_errata.Controller.Probes.is_prefix llm_errata.Json.encode llm_errata.Json.utf8
    llm_errata.Json.utf8_char llm_errata.Lineage.register_import llm_errata.Prelude.concat
    llm_errata.Prelude.every llm_errata.Residue.blocks_verified llm_errata.Residue.scan
    llm_errata.Residue.scan_files llm_errata.Sqlite.Rows.insert_or_ignore llm_errata.Sqlite.chunks
    llm_errata.Sqlite.hits llm_errata.Sqlite.is_disposed llm_errata.Sqlite.is_quarantined
    llm_errata.Sqlite.lineage_complete llm_errata.Sqlite.meets llm_errata.Sqlite.residue_scan
    llm_errata.Sqlite.row_hit llm_errata.Sqlite.scan_needles llm_errata.Sqlite.unscanned
    llm_errata.Sqlite.Rows.execute llm_errata.Sqlite.Rows.update_where llm_errata.Sqlite.gate_all
    llm_errata.Sqlite.quarantine llm_errata.Sqlite.add_chunk llm_errata.Sqlite.snapshot_rows rebuild
    rebuild_row rebuilt_content set_content llm_errata.Adapters.with_replacement
    llm_errata.Adapters.contents_of llm_errata.Adapters.join
ungated_run = (refl, refl)

store-IsLawful_example : IsLawful (store (λ s. []) codes)
store-IsLawful_example = store-IsLawful (λ s. []) codes
