-- ===== src/Reports/Storage.antt =====
-- The storage of report files (apps/reports/storage.py): the checks of a file, the interface of a
-- backend with what its clients rely on, and the choice of the backend.
pub mod Local
pub mod S3
pub mod Config
use Prim.Native.String.{◌++◌}
use agentledger_mvp_v.Base.{
  ℕ, suc, ◌≡◌, String, Bool, true, false, not, ◌&&◌, ◌||◌, Option, none, some, Bytes, List, [], ◌∷◌,
  ◌==◌, str_eq, if◌then◌else◌,
}
use agentledger_mvp_v.Base.Result.{Result, err, ok, ◌>>◌, raise_if}
use agentledger_mvp_v.Audit.Texts.{uuid_text}

-- `ReportStorageError`, by its messages.
pub data StorageError : Type 0 where
  empty_artifact not_a_pdf unsupported_type invalid_key escapes_root : StorageError
  already_exists different_content missing read_failed upload_failed cleanup_failed : StorageError

abbrev pub pdf_content_type : String
pdf_content_type = "application/pdf"

unfoldable pub build_pdf_object_key :
    (organization_id assessment_snapshot_id report_id : ℕ) → String
build_pdf_object_key organization_id assessment_snapshot_id report_id =
    "organizations/"
    ++ (uuid_text organization_id
        ++ ("/assessments/"
            ++ (uuid_text assessment_snapshot_id
                ++ ("/reports/" ++ (uuid_text report_id ++ ".pdf")))))

abbrev pub starts_with : Bytes → Bytes → Bool
starts_with [] b = true
starts_with (x ∷ xs) [] = false
starts_with (x ∷ xs) (y ∷ ys) = (x == y) && starts_with xs ys

abbrev pub is_empty : Bytes → Bool
is_empty [] = true
is_empty (x ∷ b) = false

-- `b"%PDF-"`
abbrev pub pdf_prefix : Bytes
pdf_prefix = 37 ∷ 80 ∷ 68 ∷ 70 ∷ 45 ∷ []

unfoldable pub validate_pdf_bytes : Bytes → Result StorageError (Unit {0})
validate_pdf_bytes content =
    raise_if (is_empty content) empty_artifact
    >> raise_if (not (starts_with pdf_prefix content)) not_a_pdf

-- `PrivateReportStorage`, on the state `St` of the backend.
pub record PrivateReportStorage (St : Type 0) : Type 0 where
  pub put :
      (key : String) (content : Bytes) (content_type : String)
      → St
      → Result StorageError (Unit {0}) × St
  pub get : (key : String) → St → Result StorageError Bytes × St
  pub delete : (key : String) → St → Result StorageError (Unit {0}) × St

-- What the clients of a backend rely on. `object_at` is the object under a key, two keys are aliases when
-- they name one object, and a backend that responds answers the next request.
pub record IsPrivateStorage {St : Type 0} (s : PrivateReportStorage St) : Type 1 where
  pub object_at : String → St → Option Bytes
  pub Aliases : String → String → Type 0
  pub Responds : St → Type 0
  pub put_stores :
      (k : String) (c : Bytes) (t : String) (st : St)
      → (s.put k c t st).0 ≡ ok tt
      → (object_at k (s.put k c t st).1 ≡ some c) × (validate_pdf_bytes c ≡ ok tt)
  pub put_keeps :
      (k : String) (c : Bytes) (t : String) (st : St) (k' : String) (c' : Bytes)
      → object_at k' st ≡ some c'
      → object_at k' (s.put k c t st).1 ≡ some c'
  pub get_answers :
      (k : String) (st : St) (c : Bytes)
      → Responds st
      → object_at k st ≡ some c
      → (s.get k st).0 ≡ ok c
  pub get_sound :
      (k : String) (st : St) (c : Bytes) → (s.get k st).0 ≡ ok c → object_at k st ≡ some c
  pub get_keeps :
      (k : String) (st : St) (k' : String) → object_at k' (s.get k st).1 ≡ object_at k' st
  pub delete_removes :
      (k : String) (st : St) → (s.delete k st).0 ≡ ok tt → object_at k (s.delete k st).1 ≡ none
  pub delete_keeps :
      (k : String) (st : St) (k' : String)
      → ¬ Aliases k k'
      → object_at k' (s.delete k st).1 ≡ object_at k' st

-- The contract for a given meaning of the objects, the aliases and the states that respond.
abbrev pub KeepsContract :
    {St : Type 0} (s : PrivateReportStorage St) (object_at : String → St → Option Bytes)
    (Aliases : String → String → Type 0) (Responds : St → Type 0)
    → Type 1
KeepsContract s object_at Aliases Responds =
    (laws : IsPrivateStorage s) × (laws.object_at ≡ object_at)
    × (laws.Aliases ≡ Aliases)
    × (laws.Responds ≡ Responds)
