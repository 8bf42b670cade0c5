-- ===== src/Adapters/Reference.antt =====
-- The three stores of adapters.py as implementations of the protocol `StoreAdapter`.
pub mod Laws
use llm_errata.Prelude.{ℕ, Bool, true, false, Option, none, some, List, [], String, Dict}
use llm_errata.Errors.{Result, ok, raise, Exception, ◌>>=◌}
use llm_errata.Lineage.{LineageLedger}
use llm_errata.Adapters.{unless_raised, Coverage, Hit, Reported, raised, reported, StoreAdapter}
use llm_errata.Adapters.Markdown
use llm_errata.Adapters.Markdown.{Markdown}
use llm_errata.Adapters.Vector
use llm_errata.Adapters.Vector.{Vector}
use llm_errata.Adapters.Opaque
use llm_errata.Adapters.Opaque.{Opaque}

pub data Adapter : Type 0 where
  markdown : Markdown → Adapter
  vector : Vector → Adapter
  opaque : Opaque → Adapter

abbrev pub name : Adapter → String
name (markdown m) = Markdown.name
name (vector v) = Vector.name
name (opaque o) = o.name

unfoldable pub enumerate : LineageLedger → Adapter → String → Result (List String)
enumerate l (markdown m) root = Markdown.enumerate l root
enumerate l (vector v) root = ok (Vector.enumerate l v root)
enumerate l (opaque o) root = Opaque.enumerate o root

unfoldable pub lineage_complete : LineageLedger → Adapter → String → Reported Bool
lineage_complete l (markdown m) root = reported (Markdown.lineage_complete l root)
lineage_complete l (vector v) root = reported (Vector.lineage_complete l v root)
lineage_complete l (opaque o) root = reported (Opaque.lineage_complete o root)

unfoldable pub acknowledge : Adapter → String → Adapter
acknowledge (markdown m) root = markdown m
acknowledge (vector v) root = vector v
acknowledge (opaque o) root = opaque (Opaque.acknowledge root o)

unfoldable pub quarantine : Adapter → List String → Adapter
quarantine (markdown m) ids = markdown (Markdown.quarantine ids m)
quarantine (vector v) ids = vector (Vector.quarantine ids v)
quarantine (opaque o) ids = opaque (Opaque.quarantine ids o)

unfoldable pub is_quarantined : Adapter → String → Bool
is_quarantined (markdown m) id = Markdown.is_quarantined m id
is_quarantined (vector v) id = Vector.is_quarantined v id
is_quarantined (opaque o) id = Opaque.is_quarantined o id

-- A raised exception is what the controller sees as `raised`.
abbrev as_reported : Result Coverage → Reported Coverage
as_reported (ok c) = reported c
as_reported (raise e) = raised

unfoldable pub quarantine_coverage : LineageLedger → Adapter → String → Reported Coverage
quarantine_coverage l (markdown m) root = as_reported (Markdown.quarantine_coverage l m root)
quarantine_coverage l (vector v) root = reported (Vector.quarantine_coverage l v root)
quarantine_coverage l (opaque o) root = reported (Opaque.quarantine_coverage o root)

unfoldable pub source_artifact : Adapter → String → Result String
source_artifact (markdown m) id = ok id
source_artifact (vector v) id = Vector.source_of v id
source_artifact (opaque o) id = ok id

unfoldable pub repair_inputs : LineageLedger → Adapter → String → Result (List String)
repair_inputs l (markdown m) id = Markdown.repair_inputs l id
repair_inputs l (vector v) id = Vector.repair_inputs l v id
repair_inputs l (opaque o) id = ok (Opaque.repair_inputs o id)

unfoldable pub retire : LineageLedger → Adapter → String → Option String → Result Adapter
retire l (markdown m) id superseded_at = do
  m' ← Markdown.retire l id superseded_at m
  ok (markdown m')
retire l (vector v) id superseded_at = ok (vector (Vector.retire id v))
retire l (opaque o) id superseded_at = ok (opaque (Opaque.retire id o))

unfoldable pub rebuild :
    LineageLedger
    → Adapter
    → String
    → List String
    → Option String
    → Result (Adapter × LineageLedger)
rebuild l (markdown m) id inputs replacement = do
  (m', l') ← Markdown.rebuild id inputs replacement l m
  ok (markdown m', l')
rebuild l (vector v) id inputs replacement = do
  v' ← Vector.rebuild id inputs replacement l v
  ok (vector v', l)
rebuild l (opaque o) id inputs replacement = do
  content ← Opaque.rebuild id inputs replacement o
  ok (opaque o, l)

unfoldable pub snapshot : LineageLedger → Adapter → Option (Dict String)
snapshot l (markdown m) = some (Markdown.snapshot l m)
snapshot l (vector v) = some (Vector.snapshot v)
snapshot l (opaque o) = some (Opaque.snapshot o)

unfoldable pub coverage : LineageLedger → Adapter → String → Result Coverage
coverage l (markdown m) root = Markdown.coverage l m root
coverage l (vector v) root = ok (Vector.coverage l v root)
coverage l (opaque o) root = ok (Opaque.coverage o root)

unfoldable pub dispositions : LineageLedger → Adapter → String → Result (Dict String)
dispositions l (markdown m) root = Markdown.dispositions l m root
dispositions l (vector v) root = ok (Vector.dispositions l v root)
dispositions l (opaque o) root = ok (Opaque.dispositions o root)

module _ (lower : String → List ℕ) where
  unfoldable pub recall : LineageLedger → Adapter → String → List Hit
  recall l (markdown m) query = Markdown.recall lower l m query
  recall l (vector v) query = Vector.recall lower v query
  recall l (opaque o) query = Opaque.recall o query

  -- Every store is required.
  abbrev pub stores : StoreAdapter Adapter
  stores = record {
    name = name;
    required = λ a. true;
    enumerate = enumerate;
    lineage_complete = lineage_complete;
    acknowledge = acknowledge;
    quarantine = quarantine;
    is_quarantined = is_quarantined;
    quarantine_coverage = quarantine_coverage;
    source_artifact = source_artifact;
    repair_inputs = repair_inputs;
    retire = retire;
    rebuild = λ l a id inputs replacement. unless_raised a (rebuild l a id inputs replacement);
    recall = recall;
    snapshot = snapshot;
    coverage = coverage;
    dispositions = dispositions;
  }
