-- ===== src/Scenario.antt =====
-- prototype/scenario.py: one root that is copied into three stores.
pub mod Runs
pub mod Evidence
pub mod Chained
pub mod Tests
pub mod Stores
use llm_errata.Prelude.{Bool, true, false, List, [], ◌∷◌, ◌++◌, String, ℕ, if◌then◌else◌}
use llm_errata.Errors.{Result, ok, raise, ◌>>=◌}
use llm_errata.Signing.{Crypto, Signer, make_signer}
use llm_errata.Lineage.{LineageLedger, empty_ledger, register_import, register_derivation}
use llm_errata.Errata.{Owner, RootRegistry}
use llm_errata.Adapters.Markdown
use llm_errata.Adapters.Vector
use llm_errata.Adapters.Vector.{index}
use llm_errata.Adapters.Opaque
use llm_errata.Adapters.Reference.{Adapter, markdown, vector, opaque}
use llm_errata.Controller.{Importer, make_importer}

abbrev diet : String
diet = "mem_01HX"

abbrev venue : String
venue = "mem_02KP"

abbrev budget : String
budget = "mem_03RS"

abbrev pet : String
pet = "mem_09ZZ"

unfoldable pub build_ledger : Result LineageLedger
unfolding register_import register_derivation
build_ledger =
    let l1 = register_import diet "fact:diet" "markdown" "is vegetarian" empty_ledger in
    let l2 = register_import venue "fact:venue" "markdown" "prefers quiet restaurants" l1 in
    let l3 = register_import budget "fact:budget" "markdown" "moderate budget" l2 in
    let l4 = register_import pet "fact:pet" "markdown" "has a cat" l3 in
    register_derivation "summary:dining" "markdown"
      ("fact:diet" ∷ "fact:venue" ∷ "fact:budget" ∷ [])
      "is vegetarian; prefers quiet restaurants; moderate budget" l4

unfoldable pub build_vector : Vector.Vector
unfolding index
build_vector =
    let v1 = index "vec:diet" "fact:diet" "is vegetarian" Vector.new in
    let v2 =
      index "vec:dining" "summary:dining"
        "is vegetarian; prefers quiet restaurants; moderate budget" v1 in
    index "vec:pet" "fact:pet" "has a cat" v2

-- `importer_signer` is `DemoSigner(IMPORTER_SECRET)`.
unfoldable pub build_importer : Signer → Owner → Bool → Result (Importer Adapter)
unfolding build_ledger build_vector
build_importer importer_signer owner include_opaque = do
  ledger ← build_ledger
  let told = if include_opaque then opaque (Opaque.new "prompt_cache") ∷ [] else []
  ok (
      make_importer "travel-planner" ledger (markdown Markdown.new ∷ vector build_vector ∷ told)
        importer_signer owner (record { roots = diet ∷ venue ∷ budget ∷ pet ∷ [] }))
