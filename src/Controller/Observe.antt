-- ===== src/Controller/Observe.antt =====
-- Importer.observe: authentication, and the record of what this importer has seen.
pub mod Accepted
use llm_errata.Prelude.{
  ℕ, Bool, true, false, not, Option, none, some, List, [], ◌∷◌, String, get_at, put_at,
  if◌then◌else◌, ◌==◌,
}
use llm_errata.Errors.{Result, ok, raise, Exception, feed_error, index_error, sequence_conflict}
use llm_errata.Json.{Json, obj, field, end, str, num}
use llm_errata.Signing.{Crypto}
use llm_errata.Errata.{Erratum, event_fingerprint, verify_feed, conflicts}
use llm_errata.Step.{Step, bind, fail}
use llm_errata.Controller.{Importer, log, refused, observe as phase_observe}

abbrev pub refusal : Erratum → Json
refusal e = obj (field "erratum" (str e.erratum_id) end)

-- dict.setdefault
abbrev pub set_default :
    ℕ → String × String → List (ℕ × (String × String)) → List (ℕ × (String × String))
set_default k v d = elim (get_at d k) [ none ↦ put_at k v d | some w ↦ d ]

module _ {A : Type 0} (crypto : Crypto) where
  -- The importer behind an accepted event.
  unfoldable pub having_observed : Importer A → Erratum → Importer A
  unfolding log
  having_observed i e =
      log phase_observe
        (obj (field "erratum" (str e.erratum_id) (field "sequence" (num e.sequence) end)))
        (record i {
          observed = set_default e.sequence (e.erratum_id, event_fingerprint crypto e) i.observed;
        })

  -- The lines behind the `try`: a FeedError is recorded, another exception is not.
  after_feed : Importer A → Erratum → Result (List Erratum) → Importer A × Result Erratum
  unfolding log having_observed
  after_feed i e (raise (feed_error x)) = (log refused (refusal e) i, raise (feed_error x))
  after_feed i e (raise x) = (i, raise x)
  after_feed i e (ok []) = (i, raise index_error)
  after_feed i e (ok (first ∷ rest)) = (having_observed i e, ok first)

  abbrev pub conflicting : Importer A → Erratum → Bool
  conflicting i e = conflicts crypto (event_fingerprint crypto e) (get_at i.observed e.sequence)

  unfoldable pub observe : Erratum → Step (Importer A) Erratum
  unfolding after_feed event_fingerprint
  observe e i =
      if conflicting i e
      then (log refused (refusal e) i, raise (feed_error sequence_conflict))
      else after_feed i e (verify_feed crypto i.owner i.roots i.last_sequence (e ∷ []))
