-- ===== src/Controller.antt =====
-- prototype/controller.py: the importer, its journal, and what its state root commits to. Its
-- methods are the modules below.
pub mod Observe
pub mod Kept
pub mod Gate
pub mod Recheck
pub mod Probes
pub mod Attest
pub mod Repair
pub mod Reimport
pub mod Session
use llm_errata.Prelude.{
  ℕ, Bool, true, false, Option, none, some, List, [], ◌∷◌, ◌++◌, String, Dict, put, sort_by,
  if◌then◌else◌, ◌==◌, map, concat,
}
use llm_errata.Errors.{Result, ok, raise, ◌>>=◌, key_error}
use llm_errata.Json.{Json}
use llm_errata.Signing.{Crypto, Signer, commitment}
use llm_errata.Lineage.{Artifact, LineageLedger, artifacts}
use llm_errata.Errata.{Owner, RootRegistry, Erratum, Seen}
use llm_errata.Adapters.{StoreAdapter}
use llm_errata.Step.{Step}

pub data Phase : Type 0 where
  observe quarantine_begin quarantine_complete rebuild_begin : Phase
  rebuild_complete test attest refused : Phase

pub record JournalEvent : Type 0 where
  pub phase : Phase
  pub detail : Json

-- The clock, the strategy and the cryptography are parameters of the methods. `observed` is
-- `_observed_sequences`, and `applied` is `_applied`.
pub record Importer (A : Type 0) : Type 0 where
  pub name : String
  pub ledger : LineageLedger
  pub adapters : List A
  pub signer : Signer
  pub owner : Owner
  pub roots : RootRegistry
  pub journal : List JournalEvent
  pub last_sequence : ℕ
  pub applied : Dict ℕ
  pub observed : List (ℕ × (String × String))

-- Importer.__init__
abbrev pub make_importer :
    {A : Type 0} → String → LineageLedger → List A → Signer → Owner → RootRegistry → Importer A
make_importer name ledger adapters signer owner roots = record {
  name = name;
  ledger = ledger;
  adapters = adapters;
  signer = signer;
  owner = owner;
  roots = roots;
  journal = [];
  last_sequence = 0;
  applied = [];
  observed = [];
}

-- self.journal.append(JournalEvent(phase, detail))
unfoldable pub log : {A : Type 0} → Phase → Json → Importer A → Importer A
log phase detail i = record i {
  journal = i.journal ++ (record { phase = phase; detail = detail }) ∷ [];
}

artifact_part : Artifact → String
unfolding concat
artifact_part a = concat (a.artifact_id ∷ "=" ∷ a.content ∷ [])

snapshot_part : String → String × String → String
unfolding concat
snapshot_part name item = concat (name ∷ ":" ∷ item.0 ∷ "=" ∷ item.1 ∷ [])

snapshot_parts : String → Option (Dict String) → List String
unfolding snapshot_part
snapshot_parts name none = []
snapshot_parts name (some d) = map (snapshot_part name) (sort_by (λ item. item.0) d)

module _ {A : Type 0} (s : StoreAdapter A) where
  -- `adapter(name)`: the first with the name.
  unfoldable pub find : String → List A → Result A
  find name [] = raise key_error
  find name (a ∷ rest) = if s.name a == name then ok a else find name rest

  -- What a method call on `adapter(name)` leaves in the list.
  unfoldable pub replace_first : String → A → List A → List A
  replace_first name b [] = []
  replace_first name b (a ∷ rest) =
      let others = replace_first name b rest in if s.name a == name then b ∷ rest else a ∷ others

  all_snapshots : LineageLedger → List A → List String
  unfolding snapshot_parts
  all_snapshots l [] = []
  all_snapshots l (a ∷ rest) = snapshot_parts (s.name a) (s.snapshot l a) ++ all_snapshots l rest

  state_parts : LineageLedger → List A → List String
  unfolding artifact_part all_snapshots
  state_parts l adapters =
      map artifact_part (sort_by (λ a. a.artifact_id) (artifacts l)) ++ all_snapshots l adapters

  unfoldable pub state_root : Crypto → Importer A → String
  unfolding state_parts
  state_root crypto i = commitment crypto (state_parts i.ledger i.adapters)
