-- ===== src/Residue.antt =====
-- prototype/residue.py: the scan of a store's files for a retired value.
pub mod Clean
use Prim.Native.String.{◌++◌ as str_append}
use llm_errata.Prelude.{
  ℕ, Bool, true, false, not, ◌||◌, List, [], ◌∷◌, String, select, is_empty, if◌then◌else◌, ◌==◌,
  map, concat,
}
use llm_errata.Json.{encode}
use llm_errata.Controller.Probes.{is_infix}

-- What `read_bytes` gives: the bytes, or the text of an OSError.
pub data Reading : Type 0 where
  bytes : List ℕ → Reading
  os_error : String → Reading

-- A path, as `exists`, `name` and `read_bytes` show it.
pub record StoreFile : Type 0 where
  pub name : String
  pub exists : Bool
  pub reading : Reading

pub record ResidueReport : Type 0 where
  pub scanned : Bool
  pub found : Bool
  -- the attribute `where`
  pub place : String
  pub detail : String
  pub files_scanned : List String

unfoldable pub blocks_verified : ResidueReport → Bool
blocks_verified r = not r.scanned || r.found

comma_join : List String → String
comma_join [] = ""
comma_join (p ∷ []) = p
comma_join (p ∷ q ∷ ps) = str_append p (str_append ", " (comma_join (q ∷ ps)))

unfoldable pub describe : ResidueReport → String
unfolding concat comma_join
describe r =
    let checked = comma_join r.files_scanned in
    if not r.scanned
    then concat (
        "no substrate scan was performed"
        ∷ (if r.detail == "" then "" else concat (": " ∷ r.detail ∷ []))
        ∷ [])
    else if r.found
    then concat ("retired value still present in " ∷ r.place ∷ [])
    else concat
        ("substrate scanned clean (" ∷ (if checked == "" then "the store" else checked) ∷ ")" ∷ [])

abbrev unscanned : String → List String → ResidueReport
unscanned detail names = record {
  scanned = false;
  found = false;
  place = "";
  detail = detail;
  files_scanned = names;
}

abbrev present : String → List String → ResidueReport
present name names = record {
  scanned = true;
  found = true;
  place = name;
  detail =
      "the retired value is readable in the store's own file; the API reporting it deleted does not make it gone";
  files_scanned = names;
}

abbrev pub clean : List String → ResidueReport
clean names = record {
  scanned = true;
  found = false;
  place = "";
  detail = "";
  files_scanned = names;
}

-- The loop over the files that exist.
unfoldable pub scan : List ℕ → List String → List StoreFile → ResidueReport
unfolding concat is_infix
scan target names [] = clean names
scan target names (f ∷ files) = elim f.reading [
  | os_error text ↦ unscanned (concat ("could not read " ∷ f.name ∷ ": " ∷ text ∷ [])) names
  | bytes content ↦
      let rest = scan target names files in
      if is_infix target content then present f.name names else rest
]

abbrev pub existing : List StoreFile → List StoreFile
existing paths = select (λ f. f.exists) paths

unfoldable pub scan_files : List StoreFile → String → ResidueReport
unfolding scan
scan_files paths needle =
    if needle == ""
    then unscanned "no value to scan for; the operation retired nothing quotable" []
    else if is_empty (existing paths)
    then unscanned "no store files exist on disk" []
    else scan (encode needle) (map (λ f. f.name) (existing paths)) (existing paths)
