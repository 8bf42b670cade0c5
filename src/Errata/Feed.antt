-- ===== src/Errata/Feed.antt =====
-- `verify_feed` accepts exactly the authentic, well-shaped feeds without a gap.
use llm_errata.Prelude.{
  ℕ, ◌+◌, ◌<◌, ◌≡◌, refl, ◌↔◌, ◌∙◌, sym, ap, true, none, List, [], ◌∷◌, ◌++◌, All, get_at, put_at,
  get_at-put_at, arith,
}
use mathlib.Core.List.{append_assoc, append-nil}
use llm_errata.Errors.{ok, >>=-eq-ok}
use llm_errata.Signing.{Crypto, VerificationKey}
use llm_errata.Errata.{
  Erratum, Owner, OwnerKeySchedule, RootRegistry, schedule_of, key_for, named, signed_by, Seen,
  event_fingerprint, check_event, feed_loop, verify_feed,
}
use llm_errata.Errata.Shape.{IsWellShaped, check_shape_iff}

-- Sequences that go on from `previous` one by one.
abbrev pub IsConsecutive : ℕ → List Erratum → Type 0
IsConsecutive previous [] = Unit
IsConsecutive previous (e ∷ errata) = (e.sequence ≡ previous + 1) × IsConsecutive e.sequence errata

module _ (crypto : Crypto) (owner : Owner) where
  -- Signed under the key that is active at the event's sequence, and carrying that key's name.
  pub record IsAuthentic (e : Erratum) : Type 0 where
    pub schedule : OwnerKeySchedule
    pub owned : schedule_of owner ≡ ok schedule
    pub key : VerificationKey
    pub active : key_for schedule e.sequence ≡ ok key
    pub claimed : named e.signing_key_id key.key_id ≡ true
    pub signed : signed_by crypto key e e.signature ≡ true

  module _ (roots : RootRegistry) where
    -- What has been seen lies at or before the previous sequence.
    abbrev pub SeenUpTo : ℕ → Seen crypto → Type 0
    SeenUpTo previous seen = (s : ℕ) → previous < s → get_at seen s ≡ none

    check_event-accepts :
        (seen : Seen crypto) (previous : ℕ) (e : Erratum)
        → check_event crypto owner roots seen previous e ≡ ok tt
        → IsAuthentic e × IsWellShaped roots e × (e.sequence ≡ previous + 1)
    unfolding check_event
    check_event-accepts seen previous e h =
        let (s, owned, rest) = >>=-eq-ok (schedule_of owner) _ h in
        let (k, active, tests) = >>=-eq-ok (key_for s e.sequence) _ rest in
        (
          record {
            schedule = s;
            owned = owned;
            key = k;
            active = active;
            claimed = ground arith;
            signed = ground arith;
          },
          (check_shape_iff roots e).0 (ground arith),
          ground arith,
        )

    pub check_event-of :
        (seen : Seen crypto) (previous : ℕ) (e : Erratum)
        → SeenUpTo previous seen
        → IsAuthentic e
        → IsWellShaped roots e
        → e.sequence ≡ previous + 1
        → check_event crypto owner roots seen previous e ≡ ok tt
    unfolding check_event
    check_event-of seen previous e up a w next = ground (
      arith,
      a.owned,
      a.active,
      a.claimed,
      a.signed,
      up e.sequence,
      (check_shape_iff roots e).1 w,
    )

    pub record IsAccepted (previous : ℕ) (errata : List Erratum) : Type 0 where
      pub authentic : All IsAuthentic errata
      pub shaped : All (IsWellShaped roots) errata
      pub consecutive : IsConsecutive previous errata

    feed_loop-accepts :
        (seen : Seen crypto) (previous : ℕ) (accepted errata : List Erratum) {result : List Erratum}
        → feed_loop crypto owner roots seen previous accepted errata ≡ ok result
        → (result ≡ accepted ++ errata) × IsAccepted previous errata
    unfolding feed_loop
    feed_loop-accepts seen previous accepted [] h = (
      ground (arith, append-nil accepted),
      record { authentic = tt; shaped = tt; consecutive = tt },
    )
    feed_loop-accepts seen previous accepted (e ∷ errata) h =
        let (_, checked, rest) = >>=-eq-ok (check_event crypto owner roots seen previous e) _ h in
        let (a, w, next) = check_event-accepts seen previous e checked in
        let (same, more) =
          feed_loop-accepts (put_at e.sequence (e.erratum_id, event_fingerprint crypto e) seen)
            e.sequence (accepted ++ e ∷ []) errata rest in
        (
          same ∙ append_assoc accepted (e ∷ []) errata,
          record {
            authentic = (a, more.authentic);
            shaped = (w, more.shaped);
            consecutive = (next, more.consecutive);
          },
        )

    feed_loop-of :
        (seen : Seen crypto) (previous : ℕ) (accepted errata : List Erratum)
        → SeenUpTo previous seen
        → IsAccepted previous errata
        → feed_loop crypto owner roots seen previous accepted errata ≡ ok (accepted ++ errata)
    unfolding feed_loop
    feed_loop-of seen previous accepted [] up h = ground (arith, append-nil accepted)
    feed_loop-of seen previous accepted (e ∷ errata) up h =
        let next : e.sequence ≡ previous + 1 = h.consecutive.0 in
        rw (check_event-of seen previous e up h.authentic.0 h.shaped.0 next) (
          feed_loop-of (put_at e.sequence (e.erratum_id, event_fingerprint crypto e) seen)
            e.sequence (accepted ++ e ∷ []) errata
            (λ s lt. ground (
              arith,
              up s,
              get_at-put_at e.sequence s (e.erratum_id, event_fingerprint crypto e) seen,
            ))
            (record {
              authentic = h.authentic.1;
              shaped = h.shaped.1;
              consecutive = h.consecutive.1;
            })
          ∙ ap ok (append_assoc accepted (e ∷ []) errata))

    -- A feed is accepted exactly when every event is signed under the key that is active at its
    -- sequence, is well shaped, and the sequences go on from the last one without a gap or a
    -- repetition; what is returned is then the whole feed, in order.
    pub verify_feed_iff :
        (last_sequence : ℕ) (errata result : List Erratum)
        → (verify_feed crypto owner roots last_sequence errata ≡ ok result)
          ↔ ((result ≡ errata) × IsAccepted last_sequence errata)
    unfolding verify_feed
    verify_feed_iff last_sequence errata result = (
      λ h. feed_loop-accepts [] last_sequence [] errata h,
      λ (same, a).
          feed_loop-of [] last_sequence [] errata (λ s lt. unfold get_at in refl) a
          ∙ ap ok (sym same),
    )
