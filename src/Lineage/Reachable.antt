-- ===== src/Lineage/Reachable.antt =====
-- The ledgers that the operations of lineage.py can make, from the empty one.
use llm_errata.Prelude.{◌≡◌, List, String}
use llm_errata.Errors.{ok}
use llm_errata.Lineage.{
  LineageLedger, empty_ledger, register_import, register_derivation, set_content,
}
use llm_errata.Lineage.Invariant.{
  IsLedger, empty_ledger-IsLedger, register_import-IsLedger, register_derivation-IsLedger,
  set_content-IsLedger,
}

pub data Reachable : LineageLedger → Type 0 where
  created : Reachable empty_ledger
  imported :
      (root id store content : String) (l : LineageLedger)
      → Reachable l
      → Reachable (register_import root id store content l)
  derived :
      (id store : String) (inputs : List String) (content : String) (l l' : LineageLedger)
      → Reachable l
      → register_derivation id store inputs content l ≡ ok l'
      → Reachable l'
  rewritten :
      (id content : String) (l l' : LineageLedger)
      → Reachable l
      → set_content id content l ≡ ok l'
      → Reachable l'

-- However imports, derivations and rewrites follow each other on a new ledger, each artifact
-- stands under its own identifier, every import is an artifact, and so is every input of one.
pub Reachable-IsLedger : (l : LineageLedger) → Reachable l → IsLedger l
Reachable-IsLedger _ created = empty_ledger-IsLedger
Reachable-IsLedger _ (imported root id store content l r) =
    register_import-IsLedger root id store content l (Reachable-IsLedger l r)
Reachable-IsLedger l' (derived id store inputs content l _ r h) =
    register_derivation-IsLedger id store inputs content l (Reachable-IsLedger l r) h
Reachable-IsLedger l' (rewritten id content l _ r h) =
    set_content-IsLedger id content l (Reachable-IsLedger l r) h
