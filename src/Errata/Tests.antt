-- ===== src/Errata/Tests.antt =====
-- Runs of the feed verification, and its theorems at concrete feeds.
use mathlib.Core.List.Memᴰ
use llm_errata.Prelude.{
  List, [], ◌∷◌, ◌++◌, ◌≡◌, refl, ◌↔◌, ◌⊎◌, some, arith, sort_by, select, contains, keys, get_at,
  put_at, update, add,
}
use llm_errata.Errors.{
  Result, value_error, ok, raise, feed_error, sequence_conflict, rollback, gap, invalid_signature,
}
use llm_errata.Json.{dumps}
use llm_errata.Signing.{VerificationKey, to_hex, from_hex, verifies, sign_payload}
use llm_errata.Errata.{
  Erratum, OwnerKeySchedule, sign_erratum, signable, verify_feed, make_schedule, key_for,
  schedule_of, check_event, check_shape, event_fingerprint,
}
use llm_errata.Errata.Schedule.{IsSchedule, IsActive, make_schedule_iff, key_for-newest}
use llm_errata.Errata.Shape.{IsWellShaped, check_shape_iff}
use llm_errata.Errata.Feed.{IsAuthentic, IsAccepted, verify_feed_iff}
use llm_errata.Errata.Replay.{refusal, verify_feed-append, verify_feed-repeated}
use llm_errata.Samples.{
  toy, owner_signer, owner_key, next_key, owner, roots, first_erratum, second_erratum,
  rival_erratum,
}

abbrev feed : List Erratum
feed = first_erratum ∷ second_erratum ∷ []

-- Verification from the start, with all that it calls open.
run : List Erratum → Result (List Erratum)
unfolding verify_feed check_event schedule_of key_for check_shape verifies signable dumps to_hex
    from_hex get_at put_at event_fingerprint contains select sort_by keys update add
run = verify_feed toy owner roots 0

signs_first : sign_erratum toy owner_signer first_erratum ≡ first_erratum
unfolding sign_erratum sign_payload run
signs_first = refl

feed_accepted : verify_feed toy owner roots 0 feed ≡ ok feed
unfolding run
feed_accepted = refl

first_accepted : verify_feed toy owner roots 0 (first_erratum ∷ []) ≡ ok (first_erratum ∷ [])
unfolding run
first_accepted = refl

refusals :
    (run (second_erratum ∷ []) ≡ raise (feed_error gap))
    × (run (first_erratum ∷ second_erratum ∷ rival_erratum ∷ [])
        ≡ raise (feed_error sequence_conflict))
    × (run (first_erratum ∷ first_erratum ∷ []) ≡ raise (feed_error rollback))
    × (run (record first_erratum { replacement = some "is vegan" } ∷ [])
        ≡ raise (feed_error invalid_signature))
unfolding run
refusals = (refl, refl, refl, refl)

make_schedule_iff_example :
    (IsSchedule (record { activations = (1, owner_key) ∷ (5, next_key) ∷ [] }) ↔ (
      make_schedule ((1, owner_key) ∷ (5, next_key) ∷ [])
      ≡ ok (record { activations = (1, owner_key) ∷ (5, next_key) ∷ [] })))
    × ((make_schedule ((1, owner_key) ∷ (5, next_key) ∷ [])
          ≡ ok (record { activations = (1, owner_key) ∷ (5, next_key) ∷ [] }))
        ⊎ (make_schedule ((1, owner_key) ∷ (5, next_key) ∷ []) ≡ raise value_error))
make_schedule_iff_example = make_schedule_iff ((1, owner_key) ∷ (5, next_key) ∷ [])

abbrev rotation : OwnerKeySchedule
rotation = record { activations = (1, owner_key) ∷ (5, next_key) ∷ [] }

rotation-IsSchedule : IsSchedule rotation
rotation-IsSchedule =
    make_schedule_iff_example.0.1 (unfold make_schedule update add contains in refl)

key_for-newest_example :
    (key : VerificationKey) × (key_for rotation 7 ≡ ok key) × IsActive 7 key rotation.activations
key_for-newest_example = key_for-newest rotation 7 rotation-IsSchedule (omega arith)

check_shape_iff_example :
    (check_shape second_erratum roots ≡ ok tt) ↔ IsWellShaped roots second_erratum
check_shape_iff_example = check_shape_iff roots second_erratum

verify_feed_iff_example :
    (verify_feed toy owner roots 0 feed ≡ ok feed)
    ↔ ((feed ≡ feed) × IsAccepted toy owner roots 0 feed)
verify_feed_iff_example = verify_feed_iff toy owner roots 0 feed feed

feed-IsAccepted : IsAccepted toy owner roots 0 feed
feed-IsAccepted = (verify_feed_iff_example.0 feed_accepted).1

verify_feed-append_example : (verify_feed toy owner roots 0 feed ≡ ok feed) ↔ (
    (verify_feed toy owner roots 0 (first_erratum ∷ []) ≡ ok (first_erratum ∷ []))
    × (verify_feed toy owner roots 1 (second_erratum ∷ []) ≡ ok (second_erratum ∷ [])))
verify_feed-append_example =
    verify_feed-append toy owner roots 0 (first_erratum ∷ []) (second_erratum ∷ [])

rival-IsAuthentic : IsAuthentic toy owner rival_erratum
unfolding run
rival-IsAuthentic = record {
  schedule = record { activations = (1, owner_key) ∷ [] };
  owned = refl;
  key = owner_key;
  active = refl;
  claimed = refl;
  signed = refl;
}

verify_feed-repeated_example :
    verify_feed toy owner roots 0 (feed ++ rival_erratum ∷ [])
    ≡ raise (feed_error (refusal toy owner roots second_erratum rival_erratum))
verify_feed-repeated_example =
    verify_feed-repeated toy owner roots 0 feed second_erratum rival_erratum feed_accepted
      (Memᴰ.tail (Memᴰ.head refl)) rival-IsAuthentic refl
