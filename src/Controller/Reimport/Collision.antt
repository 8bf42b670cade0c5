-- ===== src/Controller/Reimport/Collision.antt =====
-- Two re-exports with one sequence stand under one identifier.
use llm_errata.Prelude.{
  ℕ, ◌≡◌, refl, sym, ◌∙◌, ap, true, none, some, [], ◌∷◌, String, get, get-put, eq_refl, arith,
  concat, number_text,
}
use llm_errata.Lineage.{Artifact, register_import}
use llm_errata.Controller.{Importer}
use llm_errata.Controller.Reimport.{reimport, imported}

-- self.ledger's identifier for a re-export
abbrev pub import_id : ℕ → String
import_id sequence = concat ("fact:reimport:" ∷ number_text sequence ∷ [])

module _ {A : Type 0} where
  reimport-new :
      (root content : String) (sequence : ℕ) (i : Importer A)
      → get i.applied root ≡ none
      → reimport root content sequence i ≡ imported i root content sequence
  unfolding reimport
  reimport-new root content sequence i h = rw (h, reimport) refl

  -- When no erratum was applied to two roots, the re-export of the second with the sequence of
  -- the first takes the first one's place in the ledger: the identifier belonged to the first root,
  -- and then belongs to the second and has its content.
  pub reimport-replaces :
      (root other content text : String) (sequence : ℕ) (i i1 : Importer A)
      → get i.applied root ≡ none
      → reimport root content sequence i ≡ (i1, true)
      → get i1.applied other ≡ none
      → (get i1.ledger.root_of (import_id sequence) ≡ some root)
        × (get (reimport other text sequence i1).0.ledger.root_of (import_id sequence) ≡ some other)
        × (get (reimport other text sequence i1).0.ledger.artifacts (import_id sequence)
            ≡ some (record {
              artifact_id = import_id sequence;
              store = "markdown";
              content = text;
              inputs = [];
              root = some other;
            }))
  unfolding reimport imported register_import
  reimport-replaces root other content text sequence i i1 h e k =
      let id = import_id sequence in
      let a : Artifact = record {
        artifact_id = id;
        store = "markdown";
        content = text;
        inputs = [];
        root = some other;
      } in
      let first : i1 ≡ (imported i root content sequence).0 =
        ap (λ r. r.0) (sym e ∙ reimport-new root content sequence i h) in
      let there : get i1.ledger.root_of id ≡ some root =
        ap (λ j. get j.ledger.root_of id) first
        ∙ ground (arith, get-put id id root i.ledger.root_of, eq_refl id) in
      rw (k, reimport)
        (
          there,
          ground (arith, get-put id id other i1.ledger.root_of, eq_refl id),
          ground (arith, get-put id id a i1.ledger.artifacts, eq_refl id),
        )
