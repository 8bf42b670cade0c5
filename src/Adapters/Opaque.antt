-- ===== src/Adapters/Opaque.antt =====
-- adapters.py, class OpaqueAdapter: a store that can be told and cannot be inspected.
use llm_errata.Prelude.{Bool, false, Option, List, [], String, Dict, add}
use llm_errata.Errors.{Result, raise, cannot_enumerate}
use llm_errata.Adapters.{Coverage, unknown, Hit}

pub record Opaque : Type 0 where
  pub name : String
  pub acknowledged : List String

abbrev pub new : String → Opaque
new name = record { name = name; acknowledged = [] }

unfoldable pub enumerate : Opaque → String → Result (List String)
enumerate o root = raise cannot_enumerate

unfoldable pub acknowledge : String → Opaque → Opaque
acknowledge root o = record o { acknowledged = add root o.acknowledged }

unfoldable pub lineage_complete : Opaque → String → Bool
lineage_complete o root = false

unfoldable pub quarantine : List String → Opaque → Opaque
quarantine ids o = o

unfoldable pub is_quarantined : Opaque → String → Bool
is_quarantined o id = false

unfoldable pub quarantine_coverage : Opaque → String → Coverage
quarantine_coverage o root = unknown

unfoldable pub repair_inputs : Opaque → String → List String
repair_inputs o id = []

unfoldable pub retire : String → Opaque → Opaque
retire id o = o

unfoldable pub rebuild : String → List String → Option String → Opaque → Result String
rebuild id inputs replacement o = raise cannot_enumerate

unfoldable pub recall : Opaque → String → List Hit
recall o query = []

unfoldable pub snapshot : Opaque → Dict String
snapshot o = []

unfoldable pub coverage : Opaque → String → Coverage
coverage o root = unknown

unfoldable pub dispositions : Opaque → String → Dict String
dispositions o root = []
