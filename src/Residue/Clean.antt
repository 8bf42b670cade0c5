-- ===== src/Residue/Clean.antt =====
-- When a scan is positive evidence.
use llm_errata.Prelude.{
  ℕ, ◌≡◌, refl, ◌↔◌, ◌⊎◌, inl, inr, false, List, [], ◌∷◌, String, All, is_empty, map, Bool-cases,
  ◌==◌,
}
use llm_errata.Json.{encode}
use llm_errata.Controller.Probes.{is_infix}
use llm_errata.Residue.{
  Reading, bytes, os_error, StoreFile, blocks_verified, scan, existing, scan_files,
}

-- The file could be read, and the value does not stand in it.
abbrev pub LacksValue : List ℕ → StoreFile → Type 0
LacksValue target f =
    (content : List ℕ) × (f.reading ≡ bytes content) × (is_infix target content ≡ false)

Reading-cases : (r : Reading) → ((c : List ℕ) × (r ≡ bytes c)) ⊎ ((t : String) × (r ≡ os_error t))
Reading-cases (bytes c) = inl (c, refl)
Reading-cases (os_error t) = inr (t, refl)

scan_iff :
    (target : List ℕ) (names : List String) (files : List StoreFile)
    → (blocks_verified (scan target names files) ≡ false) ↔ All (LacksValue target) files
unfolding scan blocks_verified
scan_iff target names [] = (λ h. tt, λ h. refl)
scan_iff target names (f ∷ files) = elim (Reading-cases f.reading) [
  | inl (c, e) ↦ elim (Bool-cases (is_infix target c)) [
    | inl there ↦ rw (e, scan) (rw (there) (λ h. cc, λ h. let (d, k, m) = h.0 in cc))
    | inr gone ↦
        rw (e, scan)
          (rw (gone) (
            λ h. ((c, refl, gone), (scan_iff target names files).0 h),
            λ h. (scan_iff target names files).1 h.1,
          ))
  ]
  | inr (t, e) ↦ rw (e, scan) (λ h. cc, λ h. let (d, k, m) = h.0 in cc)
]

-- A scan is positive evidence of a clean substrate exactly when there is a value to look for,
-- some file of the store exists, and each file that exists could be read and lacks the value.
pub scan_files_iff :
    (paths : List StoreFile) (needle : String)
    → (blocks_verified (scan_files paths needle) ≡ false) ↔ (
        ((needle == "") ≡ false)
        × (is_empty (existing paths) ≡ false)
        × All (LacksValue (encode needle)) (existing paths))
unfolding scan_files
scan_files_iff paths needle =
    let t = scan_iff (encode needle) (map (λ f. f.name) (existing paths)) (existing paths) in
    elim (Bool-cases (needle == "")) [
      | inl e ↦ rw (e, scan_files) (λ h. unfold blocks_verified in cc, λ h. cc h.0)
      | inr e ↦ elim (Bool-cases (is_empty (existing paths))) [
        | inl g ↦
            rw (e, scan_files) (rw (g, scan_files) (λ h. unfold blocks_verified in cc, λ h. cc h.1))
        | inr g ↦ rw (e, scan_files) (rw (g, scan_files) (λ h. (refl, refl, t.0 h), λ h. t.1 h.2))
      ]
    ]
