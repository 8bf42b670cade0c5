-- ===== src/Errata/Replay.antt =====
-- What follows an accepted feed: the next batch, a replayed event, a second event under a sequence.
use mathlib.Core.List.{Memᴰ, append_assoc, append-nil}
use mathlib.Core.List.Memᴰ
use llm_errata.Prelude.{
  ℕ, suc, ◌+◌, ◌≤◌, ◌≡◌, refl, ◌↔◌, inl, inr, ◌∙◌, sym, ap, ap₂, subst, some, List, [], ◌∷◌, ◌++◌,
  All, length, get_at, put_at, get_at-put_at, arith, if◌then◌else◌, ◌==◌,
}
use llm_errata.Errors.{ok, raise, ◌>>◌, feed_error, FeedError, sequence_conflict, rollback}
use llm_errata.Signing.{Crypto}
use llm_errata.Errata.{
  Erratum, Owner, RootRegistry, Seen, event_fingerprint, check_event, feed_loop, verify_feed,
}
use llm_errata.Errata.Feed.{
  IsConsecutive, IsAuthentic, IsAccepted, SeenUpTo, check_event-of, verify_feed_iff,
}

IsConsecutive-append :
    (p : ℕ) (xs ys : List Erratum)
    → IsConsecutive p (xs ++ ys) ↔ (IsConsecutive p xs × IsConsecutive (p + length xs) ys)
IsConsecutive-append p [] ys = (
  λ h. (tt, subst (λ n. IsConsecutive n ys) (omega arith) h),
  λ h. subst (λ n. IsConsecutive n ys) (omega arith) h.1,
)
IsConsecutive-append p (x ∷ xs) ys =
    let ih = IsConsecutive-append x.sequence xs ys in
    (
      λ h.
          let (a, b) = ih.0 h.1 in
          ((h.0, a), subst (λ n. IsConsecutive n ys) (omega (arith, h.0)) b),
      λ h. (h.0.0, ih.1 (h.0.1, subst (λ n. IsConsecutive n ys) (omega (arith, h.0.0)) h.1)),
    )

All-append {κ} :
    (P : Erratum → Type κ) (xs ys : List Erratum) → All P (xs ++ ys) ↔ (All P xs × All P ys)
All-append P [] ys = (λ h. (tt, h), λ h. h.1)
All-append P (x ∷ xs) ys =
    let ih = All-append P xs ys in
    (λ h. let (a, b) = ih.0 h.1 in ((h.0, a), b), λ h. (h.0.0, ih.1 (h.0.1, h.1)))

module _ (crypto : Crypto) (owner : Owner) (roots : RootRegistry) where
  -- Verifying two batches one after the other, the second from where the first ended, accepts
  -- exactly what verifying them as one feed accepts.
  pub verify_feed-append :
      (last_sequence : ℕ) (xs ys : List Erratum)
      → (verify_feed crypto owner roots last_sequence (xs ++ ys) ≡ ok (xs ++ ys)) ↔ (
          (verify_feed crypto owner roots last_sequence xs ≡ ok xs)
          × (verify_feed crypto owner roots (last_sequence + length xs) ys ≡ ok ys))
  verify_feed-append p xs ys = (
    λ h.
        let a = ((verify_feed_iff crypto owner roots p (xs ++ ys) (xs ++ ys)).0 h).1 in
        let (ax, ay) = (All-append _ xs ys).0 a.authentic in
        let (wx, wy) = (All-append _ xs ys).0 a.shaped in
        let (cx, cy) = (IsConsecutive-append p xs ys).0 a.consecutive in
        (
          (verify_feed_iff crypto owner roots p xs xs).1
              (refl, record { authentic = ax; shaped = wx; consecutive = cx }),
          (verify_feed_iff crypto owner roots (p + length xs) ys ys).1
              (refl, record { authentic = ay; shaped = wy; consecutive = cy }),
        ),
    λ h.
        let a = ((verify_feed_iff crypto owner roots p xs xs).0 h.0).1 in
        let b = ((verify_feed_iff crypto owner roots (p + length xs) ys ys).0 h.1).1 in
        (verify_feed_iff crypto owner roots p (xs ++ ys) (xs ++ ys)).1 (
          refl,
          record {
            authentic = (All-append _ xs ys).1 (a.authentic, b.authentic);
            shaped = (All-append _ xs ys).1 (a.shaped, b.shaped);
            consecutive = (IsConsecutive-append p xs ys).1 (a.consecutive, b.consecutive);
          },
        ),
  )

  -- What `seen` holds behind a list of accepted events.
  seen_after : Seen crypto → List Erratum → Seen crypto
  seen_after seen [] = seen
  seen_after seen (e ∷ errata) =
      seen_after (put_at e.sequence (e.erratum_id, event_fingerprint crypto e) seen) errata

  seen_after_kept :
      (seen : Seen crypto) (p s : ℕ) (errata : List Erratum)
      → IsConsecutive p errata
      → s ≤ p
      → get_at (seen_after seen errata) s ≡ get_at seen s
  unfolding seen_after
  seen_after_kept seen p s [] c h = refl
  seen_after_kept seen p s (e ∷ errata) c h =
      seen_after_kept (put_at e.sequence (e.erratum_id, event_fingerprint crypto e) seen) e.sequence
        s errata c.1 (omega (arith, c.0))
      ∙ ground
          (arith, c.0, get_at-put_at e.sequence s (e.erratum_id, event_fingerprint crypto e) seen)

  seen_after_found :
      (seen : Seen crypto) (p : ℕ) (errata : List Erratum) (x : Erratum)
      → IsConsecutive p errata
      → Memᴰ x errata
      → (get_at (seen_after seen errata) x.sequence
          ≡ some (x.erratum_id, event_fingerprint crypto x))
        × (x.sequence ≤ p + length errata)
  unfolding seen_after
  seen_after_found seen p [] x c m = absurd (Memᴰ.not-nil m)
  seen_after_found seen p (e ∷ errata) x c m =
      let seen' = put_at e.sequence (e.erratum_id, event_fingerprint crypto e) seen in
      elim (Memᴰ.cases_cons m) [
        | inl here ↦
            subst
              (λ y.
                (get_at (seen_after seen' errata) y.sequence
                  ≡ some (y.erratum_id, event_fingerprint crypto y))
                × (y.sequence ≤ p + suc (length errata)))
              (sym here)
              (
                seen_after_kept seen' e.sequence e.sequence errata c.1 (omega arith)
                    ∙ ground (
                      arith,
                      get_at-put_at e.sequence e.sequence (e.erratum_id, event_fingerprint crypto e)
                          seen,
                    ),
                omega (arith, c.0),
              )
        | inr later ↦
            let (found, le) = seen_after_found seen' e.sequence errata x c.1 later in
            (found, omega (arith, c.0))
      ]

  feed_loop-append :
      (seen : Seen crypto) (p : ℕ) (accepted xs ys : List Erratum)
      → SeenUpTo crypto owner roots p seen
      → IsAccepted crypto owner roots p xs
      → feed_loop crypto owner roots seen p accepted (xs ++ ys)
        ≡ feed_loop crypto owner roots (seen_after seen xs) (p + length xs) (accepted ++ xs) ys
  unfolding feed_loop seen_after
  feed_loop-append seen p accepted [] ys up a =
      ap₂ (λ q acc. feed_loop crypto owner roots seen q acc ys) (omega arith)
        (sym (append-nil accepted))
  feed_loop-append seen p accepted (e ∷ xs) ys up a =
      let seen' = put_at e.sequence (e.erratum_id, event_fingerprint crypto e) seen in
      let next : e.sequence ≡ p + 1 = a.consecutive.0 in
      let rest : IsAccepted crypto owner roots e.sequence xs = record {
        authentic = a.authentic.1;
        shaped = a.shaped.1;
        consecutive = a.consecutive.1;
      } in
      rw (check_event-of crypto owner roots seen p e up a.authentic.0 a.shaped.0 next) (
        feed_loop-append seen' e.sequence (accepted ++ e ∷ []) xs ys
          (λ s lt. ground (
            arith,
            up s,
            get_at-put_at e.sequence s (e.erratum_id, event_fingerprint crypto e) seen,
          ))
          rest
        ∙ ap₂ (λ q acc. feed_loop crypto owner roots (seen_after seen' xs) q acc ys)
            (omega (arith, next)) (append_assoc accepted (e ∷ []) xs))

  abbrev pub refusal : Erratum → Erratum → FeedError
  refusal x e =
      if event_fingerprint crypto x == event_fingerprint crypto e
      then rollback
      else sequence_conflict

  check_event-repeats :
      (seen : Seen crypto) (previous : ℕ) (x e : Erratum)
      → get_at seen e.sequence ≡ some (x.erratum_id, event_fingerprint crypto x)
      → e.sequence ≤ previous
      → IsAuthentic crypto owner e
      → check_event crypto owner roots seen previous e ≡ raise (feed_error (refusal x e))
  unfolding check_event
  check_event-repeats seen previous x e here le a =
      ground (arith, a.owned, a.active, a.claimed, a.signed)

  -- Behind an accepted feed, an authentic event under a sequence that the feed has used already is
  -- refused: as a rollback if its signed content is that of the event seen there (by fingerprint),
  -- and as a conflict if it is another.
  pub verify_feed-repeated :
      (last_sequence : ℕ) (xs : List Erratum) (x e : Erratum)
      → verify_feed crypto owner roots last_sequence xs ≡ ok xs
      → Memᴰ x xs
      → IsAuthentic crypto owner e
      → e.sequence ≡ x.sequence
      → verify_feed crypto owner roots last_sequence (xs ++ e ∷ [])
        ≡ raise (feed_error (refusal x e))
  verify_feed-repeated p xs x e accepted m authentic same =
      let a = ((verify_feed_iff crypto owner roots p xs xs).0 accepted).1 in
      let (here, le) = seen_after_found [] p xs x a.consecutive m in
      unfold verify_feed feed_loop get_at in
      (feed_loop-append [] p [] xs (e ∷ []) (λ s lt. refl) a
        ∙ ap (λ r. r >> ok (xs ++ e ∷ []))
            (check_event-repeats (seen_after [] xs) (p + length xs) x e
              (ap (get_at (seen_after [] xs)) same ∙ here) (omega (arith, same)) authentic))
