-- ===== src/Receipts/Acceptance.antt =====
-- prototype/receipts.py: `receipt_acceptance_errors`. `receipt_schema` is spec/receipt.schema.json,
-- and `fuel` how many calls may be open.
use llm_errata.Prelude.{ℕ, ◌≡◌, sym, ap, ◌↔◌, none, List, []}
use llm_errata.Errors.{Result, ok, ◌>>=◌, >>=-eq-ok, ok-injective}
use llm_errata.Json.{Json, null, bool, num, neg, str, arr, obj, field, end}
use llm_errata.Schema.{validate}
use llm_errata.Schema.Checks.{Fault, Search}
use llm_errata.Schema.Valid.{Valid}
use llm_errata.Schema.Correct.{validate_iff}

-- The one text of a vacuous receipt, or what the validator reports.
pub data ReceiptErrors : Type 0 where
  vacuous : ReceiptErrors
  faults : List Fault → ReceiptErrors

faults-injective : {xs ys : List Fault} → faults xs ≡ faults ys → xs ≡ ys
faults-injective e = cc

module _ (search : Search) (fuel : ℕ) (receipt_schema : Json) where
  unfoldable pub receipt_acceptance_errors : Json → Result ReceiptErrors
  receipt_acceptance_errors (obj end) = ok vacuous
  receipt_acceptance_errors (obj (field k v fs)) =
      validate search fuel none (obj (field k v fs)) receipt_schema "$" >>= λ errors.
      ok (faults errors)
  receipt_acceptance_errors _ = ok vacuous

  -- An object with a field.
  abbrev pub IsFilled : Json → Type 0
  IsFilled (obj (field k v fs)) = Unit {0}
  IsFilled _ = ⊥

  none_found :
      (v : Json) (errors : List Fault)
      → validate search fuel none v receipt_schema "$" ≡ ok errors
      → (faults errors ≡ faults []) ↔ Valid search fuel none v receipt_schema
  none_found v errors h =
      let (there, back) = validate_iff search fuel none v receipt_schema "$" errors h in
      (λ e. there (faults-injective e), λ valid. ap faults (back valid))

  -- A receipt about which the check says nothing is an object with a field that the schema allows,
  -- and about such an object it says nothing.
  pub receipt_acceptance_errors_iff :
      (v : Json) (errors : ReceiptErrors)
      → receipt_acceptance_errors v ≡ ok errors
      → (errors ≡ faults []) ↔ (IsFilled v × Valid search fuel none v receipt_schema)
  unfolding receipt_acceptance_errors
  receipt_acceptance_errors_iff (obj (field k v fs)) errors h =
      let (found, checked, e) = >>=-eq-ok _ _ h in
      let (there, back) = none_found (obj (field k v fs)) found checked in
      rw (sym (ok-injective e)) (λ same. (tt, there same), λ (_, valid). back valid)
  receipt_acceptance_errors_iff (obj end) errors h = (λ e. cc, λ valid. absurd valid.0)
  receipt_acceptance_errors_iff null errors h = (λ e. cc, λ valid. absurd valid.0)
  receipt_acceptance_errors_iff (bool b) errors h = (λ e. cc, λ valid. absurd valid.0)
  receipt_acceptance_errors_iff (num n) errors h = (λ e. cc, λ valid. absurd valid.0)
  receipt_acceptance_errors_iff (neg n) errors h = (λ e. cc, λ valid. absurd valid.0)
  receipt_acceptance_errors_iff (str s) errors h = (λ e. cc, λ valid. absurd valid.0)
  receipt_acceptance_errors_iff (arr xs) errors h = (λ e. cc, λ valid. absurd valid.0)
