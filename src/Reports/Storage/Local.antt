-- ===== src/Reports/Storage/Local.antt =====
-- `LocalPrivateReportStorage` of apps/reports/storage.py. A path is the list of its parts; `resolve`
-- gives the parts of `(root / key).resolve()`, which follows the links of the file system. The files
-- are read and written without errors of the operating system, and no directory has the name of a file.
pub mod Laws
use text.Mathlib.Text.{starts_with as text_starts_with}
use agentledger_mvp_v.Base.{
  ◌≡◌, ◌≢◌, ◌↔◌, refl, subst, ap, sym, ◌∙◌, String, Bool, true, false, not, ◌&&◌, ◌||◌, Option,
  none, some, Bytes, List, [], ◌∷◌, str_eq, str_eq_iff, if◌then◌else◌, Bool-cases, Option-cases,
  inl, inr, arith,
}
use agentledger_mvp_v.Base.Result.{Result, err, ok, ◌>>=◌, ◌>>◌, raise_if, Result-cases}
use agentledger_mvp_v.Reports.Storage.{
  StorageError, unsupported_type, invalid_key, escapes_root, already_exists, missing,
  pdf_content_type, validate_pdf_bytes, PrivateReportStorage, IsPrivateStorage,
}

abbrev pub Parts : Type 0
Parts = List String

abbrev pub same_parts : Parts → Parts → Bool
same_parts [] [] = true
same_parts (x ∷ xs) (y ∷ ys) = str_eq x y && same_parts xs ys
same_parts _ _ = false

-- `candidate.relative_to(root)` returns.
abbrev pub is_relative_to : Parts → Parts → Bool
is_relative_to xs [] = true
is_relative_to [] (y ∷ ys) = false
is_relative_to (x ∷ xs) (y ∷ ys) = str_eq x y && is_relative_to xs ys

abbrev pub Files : Type 0
Files = List (Parts × Bytes)

abbrev pub read_file : Parts → Files → Option Bytes
read_file path [] = none
read_file path (f ∷ files) =
    let rest = read_file path files in if same_parts f.0 path then some f.1 else rest

abbrev pub unlink : Parts → Files → Files
unlink path [] = []
unlink path (f ∷ files) =
    let rest = unlink path files in if same_parts f.0 path then rest else f ∷ rest

-- `not key or key.startswith(("/", "\\"))`
unfoldable pub is_refused : String → Bool
is_refused key = str_eq key "" || (text_starts_with key "/" || text_starts_with key "\\")

module _ (root : Parts) (resolve : String → Parts) where
  unfoldable pub _path_for_key : String → Result StorageError Parts
  _path_for_key key =
      raise_if (is_refused key) invalid_key
      >> raise_if (not (is_relative_to (resolve key) root)) escapes_root
      >> ok (resolve key)

  -- A new file, where there was none.
  unfoldable pub write_new : Bytes → Files → Parts → Result StorageError (Unit {0}) × Files
  write_new content files path = elim (read_file path files) [
    | some c ↦ (err already_exists, files)
    | none ↦ (ok tt, (path, content) ∷ files)
  ]

  -- The tests of `put`, and the path.
  unfoldable pub checked_path : String → Bytes → String → Result StorageError Parts
  checked_path key content content_type =
      raise_if (not (str_eq content_type pdf_content_type)) unsupported_type
      >> validate_pdf_bytes content
      >> _path_for_key key

  unfoldable pub put :
      (key : String) (content : Bytes) (content_type : String)
      → Files
      → Result StorageError (Unit {0}) × Files
  put key content content_type files = elim (checked_path key content content_type) [
    | err e ↦ (err e, files)
    | ok path ↦ write_new content files path
  ]

  unfoldable pub get : (key : String) → Files → Result StorageError Bytes × Files
  get key files = elim (_path_for_key key) [
    | err e ↦ (err e, files)
    | ok path ↦ elim (read_file path files) [
      | none ↦ (err missing, files)
      | some content ↦ (ok content, files)
    ]
  ]

  unfoldable pub delete : (key : String) → Files → Result StorageError (Unit {0}) × Files
  delete key files = elim (_path_for_key key) [
    | err e ↦ (err e, files)
    | ok path ↦ (ok tt, unlink path files)
  ]

  abbrev pub local_storage : PrivateReportStorage Files
  local_storage = record { put = put; get = get; delete = delete }

  -- The object under a key, and none under a key that is refused.
  unfoldable pub file_of : String → Files → Option Bytes
  file_of key files = elim (_path_for_key key) [ err e ↦ none | ok path ↦ read_file path files ]
