-- ===== src/Reports/Artifacts.antt =====
-- Report files and their metadata (apps/reports/artifact_services.py, and the checks of ReportArtifact
-- in apps/reports/models.py). The tables are lists of rows; the new key of a row and whether the
-- database commits are arguments. The advisory lock keeps two calls for one report apart, so a call is
-- one step.
pub mod Keys
pub mod Consistent
pub mod Persist
pub mod RoundTrip
use Prim.Native.String as Text
use Prim.Native.String.{count}
use Prim.Native.Char.{code}
use agentledger_mvp_v.Base.{
  ℕ, ◌≡◌, String, Bool, true, false, not, ◌&&◌, ◌||◌, Option, none, some, Bytes, List, length, leb,
  ◌==◌, str_eq, if◌then◌else◌,
}
use agentledger_mvp_v.Base.Result.{Result, err, ok, ◌>>◌, raise_if}
use agentledger_mvp_v.Audit.Merkle.{Primitives}
use agentledger_mvp_v.Audit.Texts.{hex}
use agentledger_mvp_v.Reports.Storage.{
  StorageError, PrivateReportStorage, build_pdf_object_key, pdf_content_type, validate_pdf_bytes,
}

pub record Report : Type 0 where
  pub id : ℕ
  pub organization_id : ℕ
  pub assessment_snapshot_id : ℕ

pub record ReportArtifact : Type 0 where
  pub id : ℕ
  pub organization_id : ℕ
  pub report_id : ℕ
  pub assessment_snapshot_id : ℕ
  pub object_key : String
  pub content_type : String
  pub sha256 : String
  pub size_bytes : ℕ

pub record ReportTables : Type 0 where
  pub reports : List Report
  pub artifacts : List ReportArtifact

-- What the two services raise.
pub data ArtifactError : Type 0 where
  storage_failed : StorageError → ArtifactError
  different_metadata not_created not_committed size_mismatch hash_mismatch : ArtifactError

-- The first report, or artifact, of a query.
abbrev pub first_where {ℓ} : {A : Type ℓ} → (A → Bool) → List A → Option A
first_where p List.[] = none
first_where p (List.◌∷◌ x xs) = let rest = first_where p xs in if p x then some x else rest

abbrev pub is_artifact_of : Report → ReportArtifact → Bool
is_artifact_of r a = a.organization_id == r.organization_id && a.report_id == r.id

-- A digit of `[0-9a-f]`.
abbrev pub is_hex_digit : ℕ → Bool
is_hex_digit n = (leb 48 n && leb n 57) || (leb 97 n && leb n 102)

abbrev pub all_hex : String → Bool
all_hex Text.[] = true
all_hex (Text.◌∷◌ c s) = is_hex_digit (code c) && all_hex s

-- `SHA256_PATTERN.fullmatch`
unfoldable pub is_sha256_text : String → Bool
is_sha256_text s = count s == 64 && all_hex s

-- `ReportArtifact.clean`, with the report that the row names.
unfoldable pub is_clean : ReportArtifact → Report → Bool
is_clean a r =
    str_eq a.content_type pdf_content_type
    && is_sha256_text a.sha256
    && r.organization_id == a.organization_id
    && r.assessment_snapshot_id == a.assessment_snapshot_id

-- The rows that the unique columns of a new row collide with: its key, its report, its object.
abbrev pub collides : ReportArtifact → ReportArtifact → Bool
collides a b = a.id == b.id || (a.report_id == b.report_id || str_eq a.object_key b.object_key)

abbrev pub is_some {ℓ} : {A : Type ℓ} → Option A → Bool
is_some none = false
is_some (some a) = true

-- `full_clean`: the lengths, the report, `clean`, the unique columns and the check constraint.
unfoldable pub may_create : ReportArtifact → ReportTables → Bool
may_create a db = elim (first_where (λ (r : Report). r.id == a.report_id) db.reports) [
  | none ↦ false
  | some r ↦
      leb (count a.object_key) 512
      && is_clean a r
      && not (is_some (first_where (collides a) db.artifacts))
      && leb 1 a.size_bytes
]

unfoldable pub create_artifact :
    ReportArtifact → ReportTables → Result ArtifactError ReportArtifact × ReportTables
create_artifact a db =
    if may_create a db
    then (ok a, record db { artifacts = List.◌∷◌ a db.artifacts })
    else (err not_created, db)

module _ (c : Primitives) {St : Type 0} (storage : PrivateReportStorage St) where
  unfoldable pub sha256_hex : Bytes → String
  sha256_hex content = hex (c.sha256 content)

  abbrev pub key_of : Report → String
  key_of r = build_pdf_object_key r.organization_id r.assessment_snapshot_id r.id

  unfoldable pub new_artifact : (new_id : ℕ) → Report → Bytes → ReportArtifact
  new_artifact new_id report pdf_bytes = record {
    id = new_id;
    organization_id = report.organization_id;
    report_id = report.id;
    assessment_snapshot_id = report.assessment_snapshot_id;
    object_key = key_of report;
    content_type = pdf_content_type;
    sha256 = sha256_hex pdf_bytes;
    size_bytes = length pdf_bytes;
  }

  -- The metadata of the same file.
  unfoldable pub is_same_file : ReportArtifact → Report → Bytes → Bool
  is_same_file existing report pdf_bytes =
      str_eq existing.object_key (key_of report)
      && str_eq existing.content_type pdf_content_type
      && str_eq existing.sha256 (sha256_hex pdf_bytes)
      && existing.size_bytes == length pdf_bytes

  abbrev pub World : Type 0
  World = ReportTables × St

  -- The `except` clause, when the object was uploaded; the rows are rolled back.
  unfoldable pub cleaned_up :
      ArtifactError → String → World → Result ArtifactError ReportArtifact × World
  cleaned_up e key (db, st) =
      let (r, st') = storage.delete key st in
      elim r [ ok _ ↦ (err e, (db, st')) | err x ↦ (err (storage_failed x), (db, st')) ]

  -- What follows the upload: the row, and the commit.
  unfoldable pub recorded :
      (commits : Bool) → ReportArtifact → World → Result ArtifactError ReportArtifact × World
  recorded commits a (db, st) =
      let (r, db') = create_artifact a db in
      elim r [
        | err e ↦ cleaned_up e a.object_key (db, st)
        | ok made ↦
            if commits then (ok made, (db', st)) else cleaned_up not_committed a.object_key (db, st)
      ]

  unfoldable pub persist_new :
      (commits : Bool)
      → ReportArtifact
      → Bytes
      → World
      → Result ArtifactError ReportArtifact × World
  persist_new commits a pdf_bytes (db, st) =
      let (r, st') = storage.put a.object_key pdf_bytes pdf_content_type st in
      elim r [ err x ↦ (err (storage_failed x), (db, st')) | ok _ ↦ recorded commits a (db, st') ]

  unfoldable pub persist_pdf_artifact :
      (new_id : ℕ) (commits : Bool)
      → Report
      → Bytes
      → World
      → Result ArtifactError ReportArtifact × World
  persist_pdf_artifact new_id commits report pdf_bytes w = elim (validate_pdf_bytes pdf_bytes) [
    | err x ↦ (err (storage_failed x), w)
    | ok _ ↦ elim (first_where (is_artifact_of report) w.0.artifacts) [
      | none ↦ persist_new commits (new_artifact new_id report pdf_bytes) pdf_bytes w
      | some existing ↦
          if not (is_same_file existing report pdf_bytes)
          then (err different_metadata, w)
          else if commits
          then (ok existing, w)
          else (err not_committed, w)
    ]
  ]

  -- The tests of a file that was read.
  unfoldable pub verified : ReportArtifact → Bytes → Result ArtifactError Bytes
  verified artifact content = elim (validate_pdf_bytes content) [
    | err x ↦ err (storage_failed x)
    | ok _ ↦
        raise_if (not (length content == artifact.size_bytes)) size_mismatch
        >> raise_if (not (str_eq (sha256_hex content) artifact.sha256)) hash_mismatch
        >> ok content
  ]

  unfoldable pub read_verified_pdf_artifact : ReportArtifact → St → Result ArtifactError Bytes × St
  read_verified_pdf_artifact artifact st =
      let (r, st') = storage.get artifact.object_key st in
      elim r [
        | err x ↦ (err (storage_failed x), st')
        | ok content ↦ (verified artifact content, st')
      ]
