-- ===== src/Controller/Reimport.antt =====
-- Importer.reimport: a re-export is taken only when it is newer than the last repair of its root.
pub mod Collision
use llm_errata.Prelude.{
  ℕ, zero, suc, ◌/◌, ◌%◌, Bool, true, false, none, some, [], ◌∷◌, String, get, leb, ltb,
  if◌then◌else◌, concat, hex_char, number_text,
}
use llm_errata.Json.{Json, obj, field, end, str, num}
use llm_errata.Lineage.{register_import}
use llm_errata.Controller.{Importer, log, refused}

stale_detail : String → ℕ → ℕ → Json
stale_detail root sequence applied = obj (
    field "reimport" (str root) (
      field "offered_sequence" (num sequence) (
        field "applied_sequence" (num applied)
          (field "reason" (str "stale export would restore a retired proposition") end))))

module _ {A : Type 0} where
  unfoldable pub imported : Importer A → String → String → ℕ → Importer A × Bool
  unfolding concat number_text register_import
  imported i root content sequence =
      let id = concat ("fact:reimport:" ∷ number_text sequence ∷ []) in
      (record i { ledger = register_import root id "markdown" content i.ledger }, true)

  unfoldable pub reimport : String → String → ℕ → Importer A → Importer A × Bool
  unfolding imported log stale_detail
  reimport root content sequence i = elim (get i.applied root) [
    | none ↦ imported i root content sequence
    | some applied ↦
        if leb sequence applied
        then (log refused (stale_detail root sequence applied) i, false)
        else imported i root content sequence
  ]
