-- ===== src/Scenario/Chained.antt =====
-- A derivation of a derivation, repaired by the conforming strategy.
use llm_errata.Prelude.{[], ◌∷◌, ◌≡◌, refl, String, none, some, false, get}
use llm_errata.Json.{codes}
use llm_errata.Lineage.{LineageLedger}
use llm_errata.Adapters.Markdown
use llm_errata.Adapters.Reference.{markdown, stores}
use llm_errata.Receipts.{Receipt}
use llm_errata.Controller.Repair.{repair}
use llm_errata.Strategies.Rebuild.{rebuild_strategy}
use llm_errata.Samples.{toy, first_erratum}
use llm_errata.Scenario.Runs.{start, now, any_time, Outcome, repaired, receipt_of}

-- A note that mixes the root with another fact, and a summary of the note whose name sorts first.
abbrev chained_ledger : LineageLedger
chained_ledger = record {
  artifacts =
      (
        "fact:diet",
        record {
          artifact_id = "fact:diet";
          store = "markdown";
          content = "is vegetarian";
          inputs = [];
          root = some "mem_01HX";
        },
      )
      ∷ (
        "fact:venue",
        record {
          artifact_id = "fact:venue";
          store = "markdown";
          content = "prefers quiet restaurants";
          inputs = [];
          root = some "mem_02KP";
        },
      )
      ∷ (
        "note",
        record {
          artifact_id = "note";
          store = "markdown";
          content = "is vegetarian; prefers quiet restaurants";
          inputs = "fact:diet" ∷ "fact:venue" ∷ [];
          root = none;
        },
      )
      ∷ (
        "brief",
        record {
          artifact_id = "brief";
          store = "markdown";
          content = "vegetarian, quiet";
          inputs = "note" ∷ [];
          root = none;
        },
      )
      ∷ [];
  root_of = ("fact:diet", "mem_01HX") ∷ ("fact:venue", "mem_02KP") ∷ [];
}

chained : Outcome Receipt
unfolding repaired repair
chained =
    repair (stores codes) codes toy any_time now (rebuild_strategy (stores codes)) first_erratum
      false (record start { ledger = chained_ledger; adapters = markdown Markdown.new ∷ [] })

abbrev content_in : LineageLedger → String → String
content_in l id = elim (get l.artifacts id) [ none ↦ "" | some a ↦ a.content ]

-- `brief` is rebuilt before `note`, from the note's old text, and keeps the retired proposition.
chained_sample :
    (content_in chained.0.ledger "note" ≡ "is omnivore; prefers quiet restaurants")
    × (content_in chained.0.ledger "brief"
        ≡ "is omnivore; is vegetarian; prefers quiet restaurants")
    × ((receipt_of chained.1).dispositions
        ≡ ("markdown", ("brief", "rebuilt") ∷ ("fact:diet", "retired") ∷ ("note", "rebuilt") ∷ [])
          ∷ [])
unfolding chained
chained_sample = (refl, refl, refl)
