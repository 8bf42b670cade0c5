-- ===== src/Adapters/Markdown/Gate.antt =====
-- What a markdown store retrieves.
use llm_errata.Prelude.{
  ℕ, ◌≡◌, refl, true, not, List, [], ◌∷◌, String, contains, every, select, map, arith,
}
use llm_errata.Lineage.{Artifact, LineageLedger, artifacts}
use llm_errata.Adapters.{Hit, full_score}
use llm_errata.Adapters.Markdown.{Markdown, recalled, recall, is_quarantined}

abbrev hit_of : Artifact → Hit
hit_of a = record { artifact_id = a.artifact_id; content = a.content; score = full_score }

module _ (lower : String → List ℕ) where
  select-hidden :
      (m : Markdown) (query : String) (items : List Artifact)
      → every
          (λ (hit : Hit). not (contains m.quarantined hit.artifact_id))
          (map hit_of (select (recalled lower m query) items))
        ≡ true
  unfolding select every
  select-hidden m query [] = refl
  select-hidden m query (a ∷ items) = ground (arith, select-hidden m query items)

  pub recall-hidden :
      (l : LineageLedger) (m : Markdown) (query : String)
      → every (λ (hit : Hit). not (is_quarantined m hit.artifact_id)) (recall lower l m query)
        ≡ true
  unfolding recall is_quarantined
  recall-hidden l m query = select-hidden m query (artifacts l)
