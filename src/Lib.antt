-- ===== src/Lib.antt =====
-- Verification of LLM Errata, the reference importer under prototype/.
--
-- An owner signs errata against roots of facts. An importer keeps a ledger of which artifact was
-- derived from what, and stores that hold the artifacts. For an erratum it authenticates the
-- event (errata.py), gates every descendant of the root in every store (controller.py,
-- adapters.py), records that in a checkpoint (checkpoints.py), retires or rebuilds what was gated
-- (strategies.py), probes what the stores still retrieve, and signs a receipt (receipts.py).
--
-- Which file is which part:
--   Errors            the exceptions of prototype/*.py, and results; Step, methods that change an
--                     object and may raise
--   Json, Signing     prototype/signing.py, with `json.dumps` written out to its bytes
--   Errata            prototype/errata.py: `OwnerKeySchedule` (make_schedule, key_for),
--                     `_check_shape` (check_shape), `verify_feed`, `event_fingerprint`
--   Lineage           prototype/lineage.py: `LineageLedger`, one function per method
--   Adapters          prototype/adapters.py: the protocol `StoreAdapter` is a record of operations,
--                     with the laws of Adapters.Lawful; Markdown, Vector and Opaque are the three
--                     stores, and Reference makes them one instance of the protocol
--   Receipts          prototype/receipts.py: `aggregate_coverage`, `Receipt`; Acceptance,
--                     `receipt_acceptance_errors`
--   Checkpoints       prototype/checkpoints.py: the constructors' checks, the digest, consumption;
--                     Parse, `from_dict`
--   Controller        prototype/controller.py: `Importer` as a record, for any StoreAdapter.
--                     Observe, Gate (`_quarantine`, `quarantine`), Recheck (`_validate_checkpoint`),
--                     Probes (`_run_triad`, `_recalls`), Attest (`_attest`), Repair
--                     (`repair_quarantined`, `repair`), Reimport
--   Strategies        prototype/strategies.py: Rebuild for any StoreAdapter; Nonconforming for the
--                     three stores
--   Semantic          prototype/semantic.py: probes, observations and their checks; Evidence
--                     (`_evaluate_evidence`), Report (`SemanticProbeReport`), Parse (`from_dict`)
--   Schema            prototype/schema.py: `validate` for every supported keyword; Equal
--                     (`_json_equal`), Checks and Objects (one function per keyword). Valid is the
--                     relation that the code is compared with
--   Sqlite            prototype/sqlite_store.py: `SqliteAdapter` as one more StoreAdapter; Rows, its
--                     table and the statements on it
--   ClaimGuard        scripts/claim_guard.py: the guard on what the documents say; Texts, Python's
--                     operations on texts; Tables, the anchors and patterns
--   Residue           prototype/residue.py: `scan_files`, over files that are given as data
--   Ed25519           prototype/ed25519.py: the curve and the ladder; Keys, `sign` and `verify`
--   Scenario          prototype/scenario.py, runs of it, and tests; Samples, keys and errata for them
--   Prelude           sets, dicts, sorting and the order of texts
--
-- How state is modelled. A method that changes an object takes and returns its record. The
-- importer's methods are of type `Step`: a function from the importer to the importer and a
-- result, so that what was done before an exception stays done. The stores share the importer's
-- ledger, and of their methods only `rebuild` writes to it. A dict is an association list in
-- insertion order; a set is a list without repetition.
--
-- Bounds. `descendants` runs its loop on fuel: one round more than there are artifacts, which is
-- enough since every round but the last adds one (Lineage.Closure shows it). `digits` runs on the
-- number plus one, and each round divides it by ten. `ladder` runs 256 rounds, one for each binary
-- digit of a scalar below 2 ^ 256, and so does `power_loop` for an exponent. The fuel of `validate`
-- is how many calls of it and of `_json_equal` may be open before Python raises RecursionError, so
-- running out is that exception, and Schema.Terminates shows how many a schema without references
-- needs. What Python itself nests, such as `repr` for the text of an error, is not counted. Numbers
-- are natural: spec/erratum.schema.json has sequences from 1, and one below that is refused as a rollback. JSON
-- values also have negative integers, and no fractions.
--
-- Parameters. SHA-256 and the signature scheme are the interface `Crypto`, which
-- `Ed25519.Keys.ed25519` fills for any SHA-512. `lower` is `str.lower`, by the
-- Unicode tables. `from_iso` is what `datetime.fromisoformat` accepts, which depends on the version
-- of Python. `search` is `re.search`. `disk` is what a database's files read as, `files` what the
-- guarded documents do, and `receipt_schema` is spec/receipt.schema.json. The clock is an argument. A
-- similarity score is kept as two whole numbers, and compared by its square. The texts of exceptions
-- are left out.
--
-- Not modelled: the writing and reading of files (checkpoints.py `CheckpointStore`, workspace.py),
-- errors of a database, `Erratum.from_json`, which takes values of any type, conformance.py, the
-- command line, and the other scripts that check the repository.
mod Prelude
pub mod Errors
pub mod Lineage
pub mod Json
pub mod Signing
pub mod Semantic
pub mod Schema
pub mod Errata
pub mod Adapters
pub mod Step
pub mod Receipts
pub mod Checkpoints
pub mod Controller
pub mod Strategies
pub mod Residue
pub mod Sqlite
pub mod ClaimGuard
pub mod Ed25519
pub mod Samples
pub mod Scenario
