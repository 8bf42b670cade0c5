-- ===== src/Sqlite/Covered.antt =====
-- What `verified` says of the database and of its files.
use llm_errata.Prelude.{
  ◌≡◌, refl, ◌∙◌, ◌↔◌, ◌⊎◌, inl, inr, Bool, true, false, not, ◌&&◌, none, some, ◌++◌, subst, sym,
  List, [], ◌∷◌, String, every, is_empty, minus, select, All, arith, and_of, ap, contains,
  contains-select, every-contains, ◌==◌, if◌then◌else◌,
}
use llm_errata.Lineage.{LineageLedger}
use llm_errata.Adapters.{verified}
use llm_errata.Adapters.Verdicts.{is_empty-minus, every_of}
use llm_errata.Residue.{StoreFile, ResidueReport, scan_files, blocks_verified, existing}
use llm_errata.Residue.Clean.{LacksValue, scan_files_iff}
use llm_errata.Sqlite.{
  Sqlite, enumerate, is_disposed, scan_needles, residue_scan, coverage, unscanned, content, retire,
  remembered,
}
use llm_errata.Json.{encode}

-- The files could be scanned for the value, and lack it.
abbrev is_clean : List StoreFile → String → Bool
is_clean files needle = not (blocks_verified (scan_files files needle))

scan_needles_lem :
    (files : List StoreFile) (needles : List String) (last : ResidueReport)
    → blocks_verified last ≡ false
    → blocks_verified (scan_needles files needles last) ≡ not (every (is_clean files) needles)
unfolding scan_needles blocks_verified every
scan_needles_lem files [] last h = h
scan_needles_lem files (needle ∷ needles) last h =
    ground (arith, scan_needles_lem files needles (scan_files files needle))

needles_blocked :
    (files : List StoreFile) (values : List String)
    → (blocks_verified (
          if is_empty values
          then unscanned
          else scan_needles files values (record unscanned { detail = "" }))
        && not (is_empty values))
      ≡ not (every (is_clean files) values)
unfolding scan_needles blocks_verified every
needles_blocked files [] = ground arith
needles_blocked files (value ∷ values) =
    ground (arith, scan_needles_lem files values (scan_files files value))

residue_scan_lem :
    (files : List StoreFile) (s : Sqlite)
    → (blocks_verified (residue_scan files s none) && not (is_empty s.retired_values))
      ≡ not (every (is_clean files) s.retired_values)
unfolding residue_scan
residue_scan_lem files s = needles_blocked files s.retired_values

-- A report that found the value came from a value that was retired.
found_blocks :
    (files : List StoreFile) (s : Sqlite)
    → (residue_scan files s none).found ≡ true
    → (blocks_verified (residue_scan files s none) && not (is_empty s.retired_values)) ≡ true
unfolding residue_scan blocks_verified unscanned
found_blocks files s h = ground arith

every-select :
    (p : String → Bool) (xs : List String)
    → (is_empty (minus xs (select p xs)) ≡ true) ↔ (every p xs ≡ true)
every-select p xs = (
  λ h. every_of p xs (λ k m. ground (
    arith,
    is_empty-minus xs (select p xs),
    contains-select p xs k,
    every-contains (contains (select p xs)) xs k,
    h,
    m,
  )),
  λ h.
      is_empty-minus xs (select p xs)
      ∙ every_of _ xs (λ k m. ground (arith, contains-select p xs k, every-contains p xs k h m)),
)

coverage_lem :
    (l : LineageLedger) (files : List StoreFile) (s : Sqlite) (root : String)
    → let found = enumerate l s root in
      (coverage l files s root ≡ verified) ↔ (
        (is_empty found ≡ true)
        ⊎ ((every (is_disposed s) found ≡ true) × (every (is_clean files) s.retired_values ≡ true)))
unfolding coverage
coverage_lem l files s root = ground (
  arith,
  residue_scan_lem files s,
  found_blocks files s,
  every-select (is_disposed s) (enumerate l s root),
)

-- The value is not empty, some file of the store exists, and each that exists could be read and
-- lacks the value.
abbrev pub Lacked : List StoreFile → String → Type 0
Lacked files value =
    ((value == "") ≡ false)
    × (is_empty (existing files) ≡ false)
    × All (LacksValue (encode value)) (existing files)

All-is_clean :
    (files : List StoreFile) (values : List String)
    → (every (is_clean files) values ≡ true) ↔ All (Lacked files) values
unfolding every
All-is_clean files [] = (λ h. tt, λ h. refl)
All-is_clean files (value ∷ values) =
    let (there, back) = All-is_clean files values in
    let (clean, blocked) = scan_files_iff files value in
    (
      λ h. (clean (ground arith), there (ground arith)),
      λ h. and_of (ap not (blocked h.0)) (back h.1),
    )

-- The store object reports a root as covered exactly when no row of it is enumerated, or when each
-- enumerated row was retired or rebuilt and none of the values in `retired_values` stands in a
-- file of the store: for each of them, the value is not empty, some file exists, and each that
-- exists could be read and lacks it. These are the values that this object retired since it was
-- opened. A store that is opened again has none, and then nothing is said of its files.
pub coverage-Lacked :
    (l : LineageLedger) (files : List StoreFile) (s : Sqlite) (root : String)
    → (coverage l files s root ≡ verified) ↔ (
        (is_empty (enumerate l s root) ≡ true)
        ⊎ ((every (is_disposed s) (enumerate l s root) ≡ true)
            × All (Lacked files) s.retired_values))
coverage-Lacked l files s root =
    let (there, back) = coverage_lem l files s root in
    let (clean, blocked) = All-is_clean files s.retired_values in
    (
      λ h. elim (there h) [ inl e ↦ inl e | inr d ↦ inr (d.0, clean d.1) ],
      λ h. back (elim h [ inl e ↦ inl e | inr d ↦ inr (d.0, blocked d.1) ]),
    )

last_of {ℓ} : {A : Type ℓ} (P : A → Type 0) (xs : List A) (x : A) → All P (xs ++ x ∷ []) → P x
last_of P [] x (p, _) = p
last_of P (y ∷ ys) x (_, ps) = last_of P ys x ps

-- After an object retired a row that had a text, it reports a root for which it enumerates some row
-- as covered only when some file of the store exists, and each that exists could be read and lacks
-- that text.
pub retire-Lacked :
    (l : LineageLedger) (files : List StoreFile) (s : Sqlite) (id text root : String)
    → content s id ≡ some text
    → (text == "") ≡ false
    → is_empty (enumerate l (retire id s) root) ≡ false
    → coverage l files (retire id s) root ≡ verified
    → Lacked files text
unfolding retire
retire-Lacked l files s id text root had text_ rows covered =
    elim ((coverage-Lacked l files (retire id s) root).0 covered) [
      | inl e ↦ absurd (let x = sym rows ∙ e in cc)
      | inr (_, lacked) ↦
          let values : remembered (content s id) s.retired_values ≡ s.retired_values ++ text ∷ [] =
            rw had (rw text_ refl) in
          last_of (Lacked files) s.retired_values text (subst (All (Lacked files)) values lacked)
    ]
