-- ===== src/Adapters/Vector/Laws.antt =====
-- What a vector store retrieves and what it covers.
use llm_errata.Prelude.{
  ℕ, ◌≡◌, refl, ◌∙◌, Bool, true, not, ◌&&◌, List, [], ◌∷◌, String, Dict, contains, every, arith,
}
use llm_errata.Adapters.{Hit}
use llm_errata.Adapters.Vector.{Vector, insert_hit, rank, matches, recall, is_quarantined}

every-insert_hit :
    (p : Hit → Bool) (h : Hit) (ks : List Hit) → every p (insert_hit h ks) ≡ (p h && every p ks)
unfolding insert_hit every
every-insert_hit p h [] = refl
every-insert_hit p h (k ∷ ks) = ground (arith, every-insert_hit p h ks)

every-rank : (p : Hit → Bool) (hs : List Hit) → every p (rank hs) ≡ every p hs
unfolding rank every
every-rank p [] = refl
every-rank p (h ∷ hs) = ground (arith, every-insert_hit p h (rank hs), every-rank p hs)

module _ (lower : String → List ℕ) where
  matches-hidden :
      (v : Vector) (query : String) (d : Dict String)
      → every
          (λ (hit : Hit). not (contains v.quarantined hit.artifact_id))
          (matches lower v query d)
        ≡ true
  unfolding matches every
  matches-hidden v query [] = refl
  matches-hidden v query ((id, text) ∷ d) = ground (arith, matches-hidden v query d)

  pub recall-hidden :
      (v : Vector) (query : String)
      → every (λ (hit : Hit). not (is_quarantined v hit.artifact_id)) (recall lower v query) ≡ true
  unfolding recall is_quarantined
  recall-hidden v query =
      every-rank (λ (hit : Hit). not (contains v.quarantined hit.artifact_id))
        (matches lower v query v.text)
      ∙ matches-hidden v query v.text
