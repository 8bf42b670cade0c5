-- ===== src/Errata.antt =====
-- prototype/errata.py: owner key schedules, errata, and the verification of a feed.
pub mod Schedule
pub mod Shape
pub mod Feed
pub mod Replay
pub mod Tests
use llm_errata.Prelude.{
  ℕ, ◌+◌, Bool, true, false, not, ◌&&◌, ◌||◌, Option, none, some, List, [], ◌∷◌, ◌++◌, String, Dict,
  keys, contains, update, is_empty, length, minus, sort, ltb, leb, nat_eq, get_at, put_at,
  if◌then◌else◌, ◌==◌, map, every,
}
use llm_errata.Errors.{
  Result, ok, raise, ◌>>=◌, ◌>>◌, require, feed_error, index_error, value_error, inactive_key,
  invalid_signature, sequence_conflict, rollback, gap, unknown_root, erasure_with_replacement,
  missing_replacement, missing_postconditions,
}
use llm_errata.Json.{Json, num, str, obj, field, end, optional, string_fields}
use llm_errata.Signing.{
  Crypto, VerificationKey, Signer, canonical_bytes, to_hex, verifies, sign_payload,
}

pub data Operation : Type 0 where
  correct supersede erase : Operation

-- operation.value
abbrev pub operation_value : Operation → String
operation_value correct = "correct"
operation_value supersede = "supersede"
operation_value erase = "erase"

abbrev pub is_erase : Operation → Bool
is_erase erase = true
is_erase _ = false

abbrev pub is_supersede : Operation → Bool
is_supersede supersede = true
is_supersede _ = false

-- RootRegistry: a frozen set of roots.
pub record RootRegistry : Type 0 where
  pub roots : List String

abbrev pub accepts : RootRegistry → String → Bool
accepts r root = contains r.roots root

pub record OwnerKeySchedule : Type 0 where
  pub activations : List (ℕ × VerificationKey)

-- sorted(set(sequences))
insert_new : ℕ → List ℕ → List ℕ
insert_new n [] = n ∷ []
insert_new n (m ∷ ms) =
    let rest = insert_new n ms in
    if ltb n m then n ∷ m ∷ ms else if nat_eq n m then m ∷ ms else m ∷ rest

unfoldable pub sorted_set : List ℕ → List ℕ
unfolding insert_new
sorted_set [] = []
sorted_set (n ∷ ns) = insert_new n (sorted_set ns)

unfoldable pub same_numbers : List ℕ → List ℕ → Bool
same_numbers [] [] = true
same_numbers (m ∷ ms) (n ∷ ns) = nat_eq m n && same_numbers ms ns
same_numbers _ _ = false

abbrev starts_at_one : List ℕ → Bool
starts_at_one [] = false
starts_at_one (n ∷ ns) = nat_eq n 1

-- OwnerKeySchedule.__post_init__
unfoldable pub make_schedule : List (ℕ × VerificationKey) → Result OwnerKeySchedule
unfolding sorted_set same_numbers
make_schedule activations =
    let sequences = map (λ item. item.0) activations in
    let key_ids = map (λ item. item.1.key_id) activations in
    if starts_at_one sequences
      && same_numbers sequences (sorted_set sequences)
      && nat_eq (length key_ids) (length (update key_ids []))
    then ok (record { activations = activations })
    else raise value_error

-- The loop of `key_for`, from the key that is active so far.
unfoldable pub latest : ℕ → VerificationKey → List (ℕ × VerificationKey) → VerificationKey
latest sequence active [] = active
latest sequence active ((activation, key) ∷ rest) =
    if ltb sequence activation then active else latest sequence key rest

abbrev latest_of : ℕ → List (ℕ × VerificationKey) → Result VerificationKey
latest_of sequence [] = raise index_error
latest_of sequence ((activation, key) ∷ rest) = ok (latest sequence key ((activation, key) ∷ rest))

unfoldable pub key_for : OwnerKeySchedule → ℕ → Result VerificationKey
unfolding latest
key_for schedule sequence = latest_of sequence schedule.activations

-- VerificationKey | OwnerKeySchedule
pub data Owner : Type 0 where
  one_key : VerificationKey → Owner
  scheduled : OwnerKeySchedule → Owner

unfoldable pub schedule_of : Owner → Result OwnerKeySchedule
unfolding make_schedule
schedule_of (one_key key) = make_schedule ((1, key) ∷ [])
schedule_of (scheduled schedule) = ok schedule

pub record Erratum : Type 0 where
  pub erratum_id : String
  pub sequence : ℕ
  pub target_root : String
  pub operation : Operation
  pub valid_from : String
  pub postconditions : Dict String
  pub replacement : Option String
  pub signing_key_id : Option String
  pub signature : Option String

unfoldable pub signable : Erratum → Json
unfolding string_fields optional
signable e = obj (
    field "erratum_id" (str e.erratum_id) (
      field "sequence" (num e.sequence) (
        field "target_root" (str e.target_root) (
          field "operation" (str (operation_value e.operation)) (
            field "valid_from" (str e.valid_from) (
              field "postconditions" (obj (string_fields e.postconditions)) (
                field "replacement" (optional e.replacement)
                  (field "signing_key_id" (optional e.signing_key_id) end))))))))

abbrev has_text : Option String → Bool
has_text none = false
has_text (some s) = not (s == "")

abbrev is_some : {A : Type 0} → Option A → Bool
is_some none = false
is_some (some a) = true

-- The postconditions that an operation requires, as the set that `_check_shape` builds.
abbrev pub required_postconditions : Operation → List String
required_postconditions operation =
    if is_erase operation
    then "negative" ∷ "preserve" ∷ []
    else "negative" ∷ "preserve" ∷ "positive" ∷ []

-- sorted(required - set(postconditions))
unfoldable pub missing : Erratum → List String
missing e = sort (minus (required_postconditions e.operation) (keys e.postconditions))

unfoldable pub check_shape : Erratum → RootRegistry → Result (Unit {0})
unfolding missing
check_shape e roots = do
  require (accepts roots e.target_root) (feed_error unknown_root)
  if is_erase e.operation
      then require (not (is_some e.replacement)) (feed_error erasure_with_replacement)
      else require (has_text e.replacement) (feed_error missing_replacement)
  require (is_empty (missing e)) (feed_error (missing_postconditions (missing e)))

abbrev pub named : Option String → String → Bool
named none k = false
named (some j) k = j == k

module _ (crypto : Crypto) where
  unfoldable pub event_fingerprint : Erratum → String
  event_fingerprint e = to_hex (crypto.sha256 (canonical_bytes (signable e)))

  -- erratum.signature is not None and IsActive-key.verify(...)
  abbrev pub signed_by : VerificationKey → Erratum → Option String → Bool
  signed_by key e none = false
  signed_by key e (some signature) = verifies crypto key (signable e) signature

  -- Ed25519Signer.sign_erratum
  unfoldable pub sign_erratum : Signer → Erratum → Erratum
  sign_erratum s e =
      let bound = record e { signing_key_id = some s.key_id; signature = none } in
      record bound { signature = some (sign_payload crypto s (signable bound)) }

  -- `seen` maps a sequence to the identifier and the fingerprint of its event.
  abbrev pub Seen : Type 0
  Seen = List (ℕ × (String × String))

  abbrev pub conflicts : String → Option (String × String) → Bool
  conflicts fingerprint none = false
  conflicts fingerprint (some (_, other)) = not (other == fingerprint)

  -- The body of the loop of `verify_feed`, up to the assignments at its end.
  unfoldable pub check_event : Owner → RootRegistry → Seen → ℕ → Erratum → Result (Unit {0})
  unfolding event_fingerprint
  check_event owner roots seen previous e = do
    schedule ← schedule_of owner
    key ← key_for schedule e.sequence
    require (named e.signing_key_id key.key_id) (feed_error inactive_key)
    require (signed_by key e e.signature) (feed_error invalid_signature)
    require (not (conflicts (event_fingerprint e) (get_at seen e.sequence)))
        (feed_error sequence_conflict)
    require (not (leb e.sequence previous)) (feed_error rollback)
    require (nat_eq e.sequence (previous + 1)) (feed_error gap)
    check_shape e roots

  unfoldable pub feed_loop :
      Owner → RootRegistry → Seen → ℕ → List Erratum → List Erratum → Result (List Erratum)
  feed_loop owner roots seen previous accepted [] = ok accepted
  feed_loop owner roots seen previous accepted (e ∷ errata) =
      check_event owner roots seen previous e
      >> feed_loop owner roots (put_at e.sequence (e.erratum_id, event_fingerprint e) seen)
          e.sequence (accepted ++ e ∷ []) errata

  unfoldable pub verify_feed : Owner → RootRegistry → ℕ → List Erratum → Result (List Erratum)
  unfolding feed_loop
  verify_feed owner roots last_sequence errata = feed_loop owner roots [] last_sequence [] errata
