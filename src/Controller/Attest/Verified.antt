-- ===== src/Controller/Attest/Verified.antt =====
-- What a receipt with the aggregate `verified` rests on.
use llm_errata.Prelude.{
  ◌≡◌, refl, sym, ◌∙◌, ap, ◌↔◌, ◌⊎◌, inl, inr, false, some, List, [], ◌∷◌, String, Dict, get, put,
  get-put, values, contains, IsUnique, map, All, All-get, is_empty, Bool-cases, arith, eq_refl,
}
use llm_errata.Errors.{ok, >>=-eq-ok, ok-injective}
use llm_errata.Signing.{Crypto}
use llm_errata.Lineage.{LineageLedger}
use llm_errata.Errata.{Erratum}
use llm_errata.Adapters.{Coverage, verified, partial, unknown, failed, StoreAdapter}
use llm_errata.Receipts.{Receipt, aggregate_coverage}
use llm_errata.Receipts.Aggregate.{aggregate_coverage_iff}
use llm_errata.Controller.{Importer}
use llm_errata.Controller.Gate.{item}
use llm_errata.Controller.Attest.{conservative_coverage, final_stores, all_dispositions, attest}

pub conservative_coverage-verified :
    (c f : Coverage) → (conservative_coverage c f ≡ verified) ↔ ((c ≡ verified) × (f ≡ verified))
unfolding conservative_coverage
conservative_coverage-verified verified verified = (λ _. (refl, refl), λ _. refl)
conservative_coverage-verified verified partial = (λ h. cc, λ h. cc)
conservative_coverage-verified verified unknown = (λ h. cc, λ h. cc)
conservative_coverage-verified verified failed = (λ h. cc, λ h. cc)
conservative_coverage-verified partial verified = (λ h. cc, λ h. cc)
conservative_coverage-verified partial partial = (λ h. cc, λ h. cc)
conservative_coverage-verified partial unknown = (λ h. cc, λ h. cc)
conservative_coverage-verified partial failed = (λ h. cc, λ h. cc)
conservative_coverage-verified unknown verified = (λ h. cc, λ h. cc)
conservative_coverage-verified unknown partial = (λ h. cc, λ h. cc)
conservative_coverage-verified unknown unknown = (λ h. cc, λ h. cc)
conservative_coverage-verified unknown failed = (λ h. cc, λ h. cc)
conservative_coverage-verified failed verified = (λ h. cc, λ h. cc)
conservative_coverage-verified failed partial = (λ h. cc, λ h. cc)
conservative_coverage-verified failed unknown = (λ h. cc, λ h. cc)
conservative_coverage-verified failed failed = (λ h. cc, λ h. cc)

module _ {A : Type 0} (s : StoreAdapter A) (l : LineageLedger) (root : String)
    (before : Dict Coverage) where
  final_stores-keeps :
      (adapters : List A) (stores result : Dict Coverage) (k : String)
      → final_stores s l root before adapters stores ≡ ok result
      → contains (map s.name adapters) k ≡ false
      → get result k ≡ get stores k
  unfolding final_stores contains
  final_stores-keeps [] stores result k h u = cc
  final_stores-keeps (a ∷ rest) stores result k h u = elim (Bool-cases (s.required a)) [
    | inl r ↦
        let (final, _, h1) = >>=-eq-ok (s.coverage l a root) _ (rw (r, final_stores) at h) in
        let (checkpoint, _, h2) = >>=-eq-ok (item before (s.name a)) _ h1 in
        final_stores-keeps rest (put (s.name a) (conservative_coverage checkpoint final) stores)
          result k h2 (ground arith)
        ∙ ground (arith, get-put (s.name a) k (conservative_coverage checkpoint final) stores)
    | inr r ↦ final_stores-keeps rest stores result k (rw (r, final_stores) at h) (ground arith)
  ]

  -- A required store whose name the receipt gives `verified`.
  record Settled (a : A) (result : Dict Coverage) : Type 0 where
    checkpoint : Coverage
    final : Coverage
    gated : item before (s.name a) ≡ ok checkpoint
    repaired : s.coverage l a root ≡ ok final
    given : get result (s.name a) ≡ some (conservative_coverage checkpoint final)

  final_stores-Settled :
      (adapters : List A) (stores result : Dict Coverage)
      → IsUnique (map s.name adapters)
      → final_stores s l root before adapters stores ≡ ok result
      → All (λ a. (s.required a ≡ false) ⊎ Settled a result) adapters
  unfolding final_stores
  final_stores-Settled [] stores result u h = tt
  final_stores-Settled (a ∷ rest) stores result u h = elim (Bool-cases (s.required a)) [
    | inl r ↦
        let (final, e, h1) = >>=-eq-ok (s.coverage l a root) _ (rw (r, final_stores) at h) in
        let (checkpoint, f, h2) = >>=-eq-ok (item before (s.name a)) _ h1 in
        let stores' = put (s.name a) (conservative_coverage checkpoint final) stores in
        (
          inr (record {
            checkpoint = checkpoint;
            final = final;
            gated = f;
            repaired = e;
            given =
                final_stores-keeps rest stores' result (s.name a) h2 u.0
                ∙ ground (
                  arith,
                  get-put (s.name a) (s.name a) (conservative_coverage checkpoint final) stores,
                  eq_refl (s.name a),
                );
          }),
          final_stores-Settled rest stores' result u.1 h2,
        )
    | inr r ↦ (inl r, final_stores-Settled rest stores result u.1 (rw (r, final_stores) at h))
  ]

  -- Verified when the checkpoint was made, and after the repair.
  abbrev pub IsVerified : A → Type 0
  IsVerified a = (item before (s.name a) ≡ ok verified) × (s.coverage l a root ≡ ok verified)

  Settled-IsVerified :
      (a : A) (result : Dict Coverage)
      → Settled a result
      → All (λ c. c ≡ verified) (values result)
      → IsVerified a
  Settled-IsVerified a result t all =
      let v =
        All-get (λ c. c ≡ verified) result (s.name a) (conservative_coverage t.checkpoint t.final)
          all t.given in
      let (c, f) = (conservative_coverage-verified t.checkpoint t.final).0 v in
      (t.gated ∙ ap ok c, t.repaired ∙ ap ok f)

  all-IsVerified :
      (adapters : List A) (result : Dict Coverage)
      → All (λ a. (s.required a ≡ false) ⊎ Settled a result) adapters
      → All (λ c. c ≡ verified) (values result)
      → All (λ a. (s.required a ≡ false) ⊎ IsVerified a) adapters
  all-IsVerified [] result t v = tt
  all-IsVerified (a ∷ adapters) result t v = (
    elim t.0 [ inl r ↦ inl r | inr x ↦ inr (Settled-IsVerified a result x v) ],
    all-IsVerified adapters result t.1 v,
  )

module _ {A : Type 0} (s : StoreAdapter A) (crypto : Crypto) where
  -- A receipt is verified only when every probe passed, there is a required store, and every
  -- required store was verified both in the checkpoint and after the repair. The names of the
  -- stores are taken to be different.
  pub attest-IsVerified :
      (i : Importer A) (e : Erratum) (pre_state_root : String) (before : Dict Coverage)
      (limitations triad : Dict String) (receipt : Receipt)
      → IsUnique (map s.name i.adapters)
      → attest s crypto i e pre_state_root before limitations triad ≡ ok receipt
      → receipt.aggregate ≡ verified
      → All (λ result. result ≡ "pass") (values triad)
        × (is_empty receipt.stores ≡ false)
        × All
            (λ a. (s.required a ≡ false) ⊎ IsVerified s i.ledger e.target_root before a)
            i.adapters
  unfolding attest
  attest-IsVerified i e pre_state_root before limitations triad receipt u h v =
      let (stores, final, h1) =
        >>=-eq-ok (final_stores s i.ledger e.target_root before i.adapters []) _ h in
      let (dispositions, _, h2) =
        >>=-eq-ok (all_dispositions s i.ledger e.target_root i.adapters []) _ h1 in
      let made = ok-injective h2 in
      let a : aggregate_coverage stores triad ≡ verified = ap (λ r. r.aggregate) made ∙ v in
      let (pass, some_store, all) = (aggregate_coverage_iff stores triad).0.0 a in
      (
        pass,
        ap (λ r. is_empty r.stores) (sym made) ∙ some_store,
        all-IsVerified s i.ledger e.target_root before i.adapters stores
            (final_stores-Settled s i.ledger e.target_root before i.adapters [] stores u final) all,
      )
