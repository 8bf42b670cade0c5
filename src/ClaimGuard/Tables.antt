-- ===== src/ClaimGuard/Tables.antt =====
-- The tables of scripts/claim_guard.py.
use llm_errata.Prelude.{List, [], ◌∷◌, String}

-- A file, what must stand in it, and why.
pub record Anchor : Type 0 where
  pub file : String
  pub wanted : String
  pub why : String

-- A file, what must stand before what, and why.
pub record Ordering : Type 0 where
  pub file : String
  pub earlier : String
  pub later : String
  pub why : String

-- A regular expression, and what a match asserts.
pub record Pattern : Type 0 where
  pub expression : String
  pub why : String

-- A file, a line of it that may match, and why.
pub record Quotation : Type 0 where
  pub file : String
  pub line : String
  pub why : String

abbrev pub anchors : List Anchor
anchors =
    record {
      file = "README.md";
      wanted = "**An imported memory is a dependency, not a copy.**";
      why = "core thesis";
    }
    ∷ record {
      file = "IDEA.md";
      wanted = "**An imported memory is a dependency, not a copy.**";
      why = "core thesis";
    }
    ∷ record {
      file = "AGENTS.md";
      wanted = "**An imported memory is a dependency, not a copy.**";
      why = "core thesis restated as an agent rule";
    }
    ∷ record {
      file = "AGENTS.md";
      wanted = "Quarantine always precedes repair.";
      why = "quarantine-before-repair invariant";
    }
    ∷ record {
      file = "PRIOR_ART.md";
      wanted =
          "This is a **novel synthesis with a narrow, apparently unimplemented conformance gap**. The public evidence does not support claims of a world first, patentability, non-infringement, legal priority, or freedom to operate.";
      why = "bounded novelty statement";
    }
    ∷ record {
      file = "RESEARCH.md";
      wanted =
          "No reviewed public implementation or normative profile was found to require that complete conjunction as of 2026-08-01.";
      why = "dated, falsifiable form of the novelty claim";
    }
    ∷ record {
      file = "IDEA.md";
      wanted = "`pending` is a lifecycle state, not a successful coverage result.";
      why = "pending is not terminal success";
    }
    ∷ record {
      file = "IDEA.md";
      wanted = "Aggregate success requires every required store to be `verified`.";
      why = "no green aggregate over unknown coverage";
    }
    ∷ record {
      file = "IDEA.md";
      wanted =
          "Signature validity authenticates the importer and receipt bytes; it does not establish that the reported coverage is truthful.";
      why = "signature authenticity boundary";
    }
    ∷ record {
      file = "IDEA.md";
      wanted =
          "Coverage truthfulness requires the signed stores, aggregate, and limitations to match the declared required scope without upgrading missing or opaque evidence.";
      why = "coverage truthfulness boundary";
    }
    ∷ record {
      file = "IDEA.md";
      wanted = "An empty enumeration is not evidence of complete lineage.";
      why = "empty enumeration is not verified coverage";
    }
    ∷ record {
      file = "IDEA.md";
      wanted =
          "A durable checkpoint records adapter-supplied quarantine coverage; final repair cannot upgrade a worse checkpoint result.";
      why = "checkpoint coverage cannot be fabricated or upgraded";
    }
    ∷ record {
      file = "IDEA.md";
      wanted =
          "The published adapter contract must expose every controller and repair operation without hidden reference-ledger dependencies.";
      why = "adapter contract exposes the complete runtime surface";
    }
    ∷ record {
      file = "IDEA.md";
      wanted = "A receipt establishes the signed event accepted by one importer.";
      why = "receipt is importer-view evidence";
    }
    ∷ record {
      file = "PRIOR_ART.md";
      wanted = "## What would invalidate the claim";
      why = "falsifier section";
    }
    ∷ record {
      file = "RESEARCH.md";
      wanted = "## Falsifiers and update policy";
      why = "falsifier section";
    }
    ∷ []

abbrev pub orderings : List Ordering
orderings =
    record {
      file = "IDEA.md";
      earlier = "2. **Quarantine.**";
      later = "3. **Rebuild.**";
      why = "the loop must quarantine before it rebuilds";
    }
    ∷ record {
      file = "README.md";
      earlier = "2. **Quarantine:**";
      later = "3. **Rebuild:**";
      why = "the summarised loop must quarantine before it rebuilds";
    }
    ∷ []

abbrev pub forbidden : List Pattern
forbidden =
    record {
      expression = "\\bis\\s+(?:the\\s+)?\\**\\s*world[-\\s]first\\b";
      why = "asserts a world first";
    }
    ∷ record {
      expression =
          "\\b(?:is|are)\\s+(?:clearly\\s+|obviously\\s+|certainly\\s+|plainly\\s+)?patentable\\b";
      why = "asserts patentability";
    }
    ∷ record {
      expression = "\\b(?:we|this|it)\\s+invented\\b";
      why = "asserts invention of a prior-art mechanism";
    }
    ∷ record {
      expression =
          "\\bfreedom\\s+to\\s+operate\\s+(?:is|has\\s+been)\\s+(?:established|confirmed|cleared)\\b";
      why = "asserts freedom to operate";
    }
    ∷ record {
      expression =
          "\\bproves?\\s+(?:that\\s+)?(?:the\\s+)?(?:memory|deletion|erasure)\\s+(?:is|was)\\s+complete\\b";
      why = "asserts proof of complete deletion";
    }
    ∷ record {
      expression = "\\bmathematically\\s+prove[sd]?\\s+(?:semantic\\s+)?absence\\b";
      why = "asserts mathematical proof of semantic absence";
    }
    ∷ []

abbrev pub guarded_files : List String
guarded_files = "README.md" ∷ "IDEA.md" ∷ "RESEARCH.md" ∷ "PRIOR_ART.md" ∷ "AGENTS.md" ∷ []

abbrev pub allowed_quotations : List Quotation
allowed_quotations =
    record {
      file = "RESEARCH.md";
      line = "- A claim that behavioral probes can mathematically prove semantic absence.";
      why = "listed under Excluded scope, i.e. explicitly disclaimed";
    }
    ∷ record {
      file = "RESEARCH.md";
      line = "- “The concept is patentable, non-infringing, or free to operate.”";
      why = "quoted in the list of formulations the research does not support";
    }
    ∷ []
