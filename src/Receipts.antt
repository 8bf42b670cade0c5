-- ===== src/Receipts.antt =====
-- prototype/receipts.py: the aggregate of the coverage results, and the signed receipt.
pub mod Aggregate
pub mod Acceptance
use llm_errata.Prelude.{
  ℕ, Bool, true, false, not, ◌&&◌, ◌||◌, Option, none, some, List, [], ◌∷◌, String, Dict, values,
  every, some_of, is_empty, if◌then◌else◌, ◌==◌, map,
}
use llm_errata.Json.{
  Json, bool, num, str, arr, obj, Fields, field, end, strings, string_fields, optional,
}
use llm_errata.Signing.{Crypto, VerificationKey, verifies}
use llm_errata.Adapters.{Coverage, verified, partial, unknown, failed, coverage_value}

abbrev pub is_verified : Coverage → Bool
is_verified verified = true
is_verified _ = false

abbrev pub is_partial : Coverage → Bool
is_partial partial = true
is_partial _ = false

abbrev pub is_failed : Coverage → Bool
is_failed failed = true
is_failed _ = false

abbrev pub passes : String → Bool
passes result = result == "pass"

-- `results == {VERIFIED}` says that all are verified, since `stores` is not empty there.
unfoldable pub aggregate_coverage : Dict Coverage → Dict String → Coverage
aggregate_coverage stores triad =
    let results = values stores in
    if some_of (λ result. not (passes result)) (values triad)
    then failed
    else if is_empty stores
    then unknown
    else if some_of is_failed results
    then failed
    else if every is_verified results
    then verified
    else if not (some_of (λ c. is_verified c || is_partial c) results)
    then unknown
    else partial

pub record Receipt : Type 0 where
  pub importer : String
  pub erratum_id : String
  pub sequence : ℕ
  pub target_root : String
  pub operation : String
  pub pre_state_root : String
  pub post_state_root : String
  pub stores : Dict Coverage
  pub dispositions : Dict (Dict String)
  pub triad : Dict String
  pub aggregate : Coverage
  pub limitations : List String
  pub history_retained : Bool
  pub adapter_versions : Dict String
  pub signature : Option String

coverage_fields : Dict Coverage → Dict String
coverage_fields d = map (λ item. (item.0, coverage_value item.1)) d

disposition_fields : Dict (Dict String) → Fields
disposition_fields [] = end
disposition_fields ((store, items) ∷ d) =
    field store (obj (string_fields items)) (disposition_fields d)

signable_onto : Receipt → Fields → Fields
unfolding coverage_fields disposition_fields
signable_onto r rest = field "importer" (str r.importer) (
    field "erratum_id" (str r.erratum_id) (
      field "sequence" (num r.sequence) (
        field "target_root" (str r.target_root) (
          field "operation" (str r.operation) (
            field "pre_state_root" (str r.pre_state_root) (
              field "post_state_root" (str r.post_state_root) (
                field "stores" (obj (string_fields (coverage_fields r.stores))) (
                  field "dispositions" (obj (disposition_fields r.dispositions)) (
                    field "triad" (obj (string_fields r.triad)) (
                      field "aggregate" (str (coverage_value r.aggregate)) (
                        field "limitations" (arr (strings r.limitations)) (
                          field "history_retained" (bool r.history_retained) (
                            field "adapter_versions" (obj (string_fields r.adapter_versions))
                              rest)))))))))))))

unfoldable pub signable : Receipt → Json
unfolding signable_onto
signable r = obj (signable_onto r end)

unfoldable pub to_dict : Receipt → Json
unfolding signable_onto
to_dict r = obj (signable_onto r (field "signature" (optional r.signature) end))

abbrev pub with_aggregate : Receipt → Coverage → Receipt
with_aggregate r aggregate = record r { aggregate = aggregate }

module _ (crypto : Crypto) where
  verify_signature : VerificationKey → Receipt → Option String → Bool
  verify_signature key r none = false
  verify_signature key r (some signature) = verifies crypto key (signable r) signature

  unfoldable pub verify : VerificationKey → Receipt → Bool
  unfolding verify_signature
  verify key r = verify_signature key r r.signature
