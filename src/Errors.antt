-- ===== src/Errors.antt =====
-- The exceptions of prototype/*.py, and the results of code that may raise them. The texts of the
-- messages are not modelled: each constructor stands for one `raise` statement or one built-in.
use llm_errata.Prelude.{◌≡◌, ◌⊎◌, inl, inr, refl, List, String, Bool, true, false}

-- errata.py: the `raise FeedError` statements
pub data FeedError : Type 0 where
  inactive_key invalid_signature sequence_conflict rollback gap : FeedError
  unknown_root erasure_with_replacement missing_replacement : FeedError
  missing_postconditions : List String → FeedError

-- checkpoints.py and controller.py: the `raise CheckpointError` statements
pub data CheckpointError : Type 0 where
  unsafe_name unsorted_artifacts invalid_coverage empty_limitation : CheckpointError
  unlimited_unknown invalid_version unsafe_id invalid_sequence invalid_root : CheckpointError
  invalid_state_root no_adapters unsorted_adapters invalid_timestamp : CheckpointError
  consumption_disagrees invalid_digest digest_mismatch : CheckpointError
  already_consumed binding_mismatch state_mismatch inventory_drift : CheckpointError
  invalid_fields adapters_not_array invalid_adapter_fields artifacts_not_array : CheckpointError
  required_not_boolean consumed_not_boolean : CheckpointError
  requirement_drift opaque_drift coverage_drift artifact_drift not_gated : CheckpointError

-- `malformed_schema` stands for what Python does with a schema keyword whose value is of another
-- type than JSON Schema gives it: mostly a TypeError or an AttributeError, if it gets there.
pub data Exception : Type 0 where
  key_error index_error value_error cannot_enumerate interrupted_repair : Exception
  type_error schema_error malformed_schema recursion_error : Exception
  feed_error : FeedError → Exception
  checkpoint_error : CheckpointError → Exception

pub data Result {ℓ} (A : Type ℓ) : Type ℓ where
  ok : A → Result A
  raise : Exception → Result A

-- if not test: raise e
abbrev pub require : Bool → Exception → Result (Unit {0})
require false e = raise e
require true _ = ok tt

infixl 5 ◌>>=◌ ◌>>◌
abbrev pub ◌>>=◌ {ℓ κ} : {X : Type ℓ} {Y : Type κ} → Result X → (X → Result Y) → Result Y
raise e >>= rest = raise e
ok x >>= rest = rest x

abbrev pub ◌>>◌ {κ} : {Y : Type κ} → Result (Unit {0}) → Result Y → Result Y
first >> second = first >>= λ _. second

-- A chain that returns has a first step that returns.
pub >>=-eq-ok {ℓ κ} :
    {X : Type ℓ} {Y : Type κ} (first : Result X) (rest : X → Result Y) {y : Y}
    → (first >>= rest) ≡ ok y
    → (x : X) × (first ≡ ok x) × (rest x ≡ ok y)
>>=-eq-ok (raise e) rest returned = cc
>>=-eq-ok (ok x) rest returned = (x, refl, returned)

pub Result-cases {ℓ} :
    {A : Type ℓ} (r : Result A) → ((a : A) × (r ≡ ok a)) ⊎ ((e : Exception) × (r ≡ raise e))
Result-cases (ok a) = inl (a, refl)
Result-cases (raise e) = inr (e, refl)

pub ok-injective {ℓ} : {A : Type ℓ} {a b : A} → ok a ≡ ok b → a ≡ b
ok-injective h = cc
