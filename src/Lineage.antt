-- ===== src/Lineage.antt =====
-- prototype/lineage.py: artifacts, and the ledger that records what each was derived from.
pub mod Closure
pub mod Invariant
pub mod Exact
pub mod Content
pub mod Members
pub mod Reachable
use llm_errata.Prelude.{
  ℕ, zero, suc, ◌≡◌, Bool, true, false, not, Option, none, some, List, [], ◌∷◌, String, length,
  Dict, get, put, keys, values, contains, add, update, some_of, select, is_empty, if◌then◌else◌,
  ◌==◌,
}
use llm_errata.Errors.{Result, ok, raise, ◌>>=◌, key_error}

pub record Artifact : Type 0 where
  pub artifact_id : String
  pub store : String
  pub content : String
  pub inputs : List String
  pub root : Option String

pub record LineageLedger : Type 0 where
  pub artifacts : Dict Artifact
  pub root_of : Dict String

abbrev pub empty_ledger : LineageLedger
empty_ledger = record { artifacts = []; root_of = [] }

-- Writing.

unfoldable pub register_import : String → String → String → String → LineageLedger → LineageLedger
register_import root id store content l =
    let artifact : Artifact = record {
      artifact_id = id;
      store = store;
      content = content;
      inputs = [];
      root = some root;
    } in
    record { artifacts = put id artifact l.artifacts; root_of = put id root l.root_of }

-- [item for item in inputs if item not in self._artifacts]
unfoldable pub unregistered : LineageLedger → List String → List String
unregistered l inputs = select (λ item. not (contains (keys l.artifacts) item)) inputs

unfoldable pub register_derivation :
    String → String → List String → String → LineageLedger → Result LineageLedger
unfolding unregistered
register_derivation id store inputs content l =
    let artifact : Artifact = record {
      artifact_id = id;
      store = store;
      content = content;
      inputs = inputs;
      root = none;
    } in
    if is_empty (unregistered l inputs)
    then ok (record l { artifacts = put id artifact l.artifacts })
    else raise key_error

-- Reading.

abbrev found : Option Artifact → Result Artifact
found none = raise key_error
found (some a) = ok a

-- self._artifacts[artifact_id]
unfoldable pub artifact : LineageLedger → String → Result Artifact
artifact l id = found (get l.artifacts id)

unfoldable pub artifacts : LineageLedger → List Artifact
artifacts l = values l.artifacts

unfoldable pub artifact_ids : LineageLedger → List String
artifact_ids l = keys l.artifacts

unfoldable pub roots_seen : LineageLedger → List String
roots_seen l = update (values l.root_of) []

-- {artifact_id for artifact_id, owner in self._root_of.items() if owner == root}
unfoldable pub direct : String → Dict String → List String
direct root [] = []
direct root ((id, owner) ∷ d) =
    let rest = direct root d in if owner == root then add id rest else rest

-- The body of the `for` loop of `descendants`, on the closure and the flag `changed`.
unfoldable pub visit : Artifact → List String × Bool → List String × Bool
visit a (closure, changed) =
    if contains closure a.artifact_id
    then (closure, changed)
    else if some_of (contains closure) a.inputs
    then (add a.artifact_id closure, true)
    else (closure, changed)

unfoldable pub sweep : List Artifact → List String × Bool → List String × Bool
sweep [] s = s
sweep (a ∷ items) s = sweep items (visit a s)

-- while changed: ...
unfoldable pub closure_loop : ℕ → List Artifact → List String → List String
closure_loop zero items closure = closure
closure_loop (suc fuel) items closure =
    let (closure', changed) = sweep items (closure, false) in
    elim changed [ true ↦ closure_loop fuel items closure' | false ↦ closure' ]

-- Each round but the last adds an artifact, so one round more than there are artifacts is enough.
unfoldable pub descendants : LineageLedger → String → List String
descendants l root =
    closure_loop (suc (length (values l.artifacts))) (values l.artifacts) (direct root l.root_of)

unfoldable pub valid_inputs : LineageLedger → String → List String → Result (List String)
unfolding artifact
valid_inputs l id retired = do
  a ← artifact l id
  ok (select (λ item. not (contains retired item)) a.inputs)

unfoldable pub store_of : LineageLedger → String → Result String
unfolding artifact
store_of l id = do a ← artifact l id; ok a.store

unfoldable pub set_content : String → String → LineageLedger → Result LineageLedger
unfolding artifact
set_content id content l = do
  a ← artifact l id
  ok (record l { artifacts = put id (record a { content = content }) l.artifacts })
