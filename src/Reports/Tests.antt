-- ===== src/Reports/Tests.antt =====
-- Runs of the report storage, and the theorems at concrete inputs. The hash of these runs keeps the
-- last byte of its input, and the local storage resolves a key to one part below its root.
use agentledger_mvp_v.Base.{
  ℕ, zero, suc, ◌%◌, ◌<◌, ◌≡◌, refl, ap, subst, String, true, false, Option, none, some, Bytes, [],
  ◌∷◌, All, last_or, arith,
}
use agentledger_mvp_v.Base.Result.{ok, err}
use agentledger_mvp_v.Audit.Merkle.{Primitives}
use agentledger_mvp_v.Audit.Texts.{uuid_text, hex}
use agentledger_mvp_v.Reports.Storage.{
  upload_failed, build_pdf_object_key, pdf_content_type, validate_pdf_bytes, KeepsContract,
}
use agentledger_mvp_v.Reports.Storage.Local as Local
use agentledger_mvp_v.Reports.Storage.Local.{
  Parts, Files, file_of, local_storage, _path_for_key, is_refused, write_new, checked_path,
}
use agentledger_mvp_v.Reports.Storage.Local.Laws.{local_contract, local_storage-IsPrivateStorage}
use agentledger_mvp_v.Reports.Storage.S3 as S3
use agentledger_mvp_v.Reports.Storage.S3.{Fault, Bucket, s3_storage, client_error, boto_core_error}
use agentledger_mvp_v.Reports.Storage.S3.Laws.{IsHonest, s3_storage-IsPrivateStorage}
use agentledger_mvp_v.Reports.Storage.Config.{
  Settings, bucket_name, local_backend, make_s3, build_private_report_storage,
}
use agentledger_mvp_v.Reports.Artifacts.{
  Report, ReportArtifact, ReportTables, World, may_create, is_clean, is_sha256_text,
  create_artifact, new_artifact, sha256_hex, recorded, persist_new, persist_pdf_artifact,
}
use agentledger_mvp_v.Reports.Artifacts.Keys.{AreUuids}
use agentledger_mvp_v.Reports.Artifacts.Consistent.{KeysApart, IsOutcome}
use agentledger_mvp_v.Reports.Artifacts.Persist.{persist_pdf_artifact-IsOutcome}
use agentledger_mvp_v.Reports.Artifacts.RoundTrip.{IsReadBack, persist-read}

abbrev pub zeros : ℕ → Bytes
zeros zero = []
zeros (suc n) = 0 ∷ zeros n

pub zeros-All : (n : ℕ) → All (λ x. x < 256) (zeros n)
zeros-All zero = tt
zeros-All (suc n) = (omega arith, zeros-All n)

abbrev pub toy : Primitives
toy = record {
  sha256 = λ b. last_or 0 b % 256 ∷ zeros 31;
  dumps = λ v. none;
  sha256_length = λ b. refl;
  sha256_bytes = λ b. (omega arith, zeros-All 31);
}

abbrev pub root : Parts
root = "reports" ∷ []

abbrev pub resolve : String → Parts
resolve key = "reports" ∷ key ∷ []

local_storage-IsPrivateStorage_example :
    KeepsContract
      (local_storage root resolve)
      (file_of root resolve)
      (λ k k'. resolve k ≡ resolve k')
      (λ st. Unit)
local_storage-IsPrivateStorage_example = local_storage-IsPrivateStorage root resolve

-- The second request fails, and is carried out all the same.
abbrev pub fault : ℕ → Option Fault
fault (suc zero) = some (record { failure = boto_core_error; carried_out = true })
fault n = none

fault-IsHonest : IsHonest fault
fault-IsHonest zero f h = absurd (cc (h))
fault-IsHonest (suc zero) f h =
    subst (λ (g : Fault). S3._is_not_found g.failure ≡ false)
      (ap (λ (o : Option Fault). elim o [ none ↦ f | some g ↦ g ]) h) refl
fault-IsHonest (suc (suc n)) f h = absurd (cc (h))

s3_storage-IsPrivateStorage_example :
    KeepsContract
      (s3_storage fault)
      (λ k b. S3.find_object k b.objects)
      (λ k k'. k ≡ k')
      (λ b. fault b.requests ≡ none)
s3_storage-IsPrivateStorage_example = s3_storage-IsPrivateStorage fault fault-IsHonest

abbrev pub pdf : Bytes
pdf = 37 ∷ 80 ∷ 68 ∷ 70 ∷ 45 ∷ 49 ∷ []

abbrev pub bucket : Bucket
bucket = record { objects = []; requests = 0 }

-- An upload that fails although it was carried out, and the same upload once more.
abbrev pub uploaded : Bucket
uploaded = record { objects = ("k", pdf) ∷ []; requests = 2 }

failed_upload :
    (s3_storage fault).put "k" pdf pdf_content_type bucket ≡ (err upload_failed, uploaded)
unfolding S3.put S3.checked S3._read_optional S3.get_object S3.put_over S3.upload S3.put_object
    validate_pdf_bytes
failed_upload = refl

second_upload :
    (s3_storage fault).put "k" pdf pdf_content_type uploaded
    ≡ (ok tt, record uploaded { requests = 3 })
unfolding S3.put S3.checked S3._read_optional S3.get_object S3.put_over validate_pdf_bytes
second_upload = refl

abbrev pub plain_settings : Settings
plain_settings = record {
  reports_storage_backend = none;
  reports_local_storage_root = some "/srv/reports";
  reports_bucket_name = none;
  reports_bucket_endpoint = none;
  reports_bucket_access_key_id = none;
  reports_bucket_secret_access_key = none;
  reports_bucket_region = none;
  reports_bucket_url_style = none;
}

local_backend_run :
    build_private_report_storage plain_settings none ≡ ok (local_backend "/srv/reports")
unfolding build_private_report_storage
local_backend_run = refl

s3_backend_run :
    build_private_report_storage
      (record plain_settings { reports_storage_backend = some "s3" })
      none
    ≡ err bucket_name
unfolding build_private_report_storage make_s3
s3_backend_run = refl

abbrev pub report : Report
report = record { id = 5; organization_id = 7; assessment_snapshot_id = 9 }

abbrev pub tables : ReportTables
tables = record { reports = report ∷ []; artifacts = [] }

report-AreUuids : AreUuids 7 9 5
report-AreUuids = (omega arith, (omega arith, omega arith))

keys_apart : KeysApart toy (local_storage root resolve) (local_contract root resolve)
unfolding local_contract
keys_apart o s r o' s' r' e = ap (λ p. second p) e
  where
    second : Parts → String
    second (x ∷ (y ∷ p)) = y
    second _ = ""

persist_pdf_artifact-IsOutcome_example :
    IsOutcome toy
      (local_storage root resolve)
      (local_contract root resolve)
      keys_apart
      report
      report-AreUuids
      tables
      (persist_pdf_artifact toy (local_storage root resolve) 3 true report pdf (tables, []))
persist_pdf_artifact-IsOutcome_example =
    persist_pdf_artifact-IsOutcome toy (local_storage root resolve) (local_contract root resolve)
      keys_apart report report-AreUuids 3 true pdf tables [] tt

abbrev pub artifact : ReportArtifact
artifact = record {
  id = 3;
  organization_id = 7;
  report_id = 5;
  assessment_snapshot_id = 9;
  object_key = build_pdf_object_key 7 9 5;
  content_type = pdf_content_type;
  sha256 = "3100000000000000000000000000000000000000000000000000000000000000";
  size_bytes = 6;
}

abbrev pub after : World toy (local_storage root resolve)
after = (
  record { reports = report ∷ []; artifacts = artifact ∷ [] },
  (resolve (build_pdf_object_key 7 9 5), pdf) ∷ [],
)

persisted :
    persist_pdf_artifact toy (local_storage root resolve) 3 true report pdf (tables, [])
    ≡ (ok artifact, after)
unfolding persist_pdf_artifact persist_new recorded create_artifact may_create is_clean
    is_sha256_text new_artifact sha256_hex validate_pdf_bytes Local.put checked_path _path_for_key
    is_refused build_pdf_object_key uuid_text write_new hex
persisted = refl

persist-read_example :
    IsReadBack toy
      (local_storage root resolve)
      (local_contract root resolve)
      pdf
      artifact
      []
      after.1
unfolding local_contract
persist-read_example =
    persist-read toy (local_storage root resolve) (local_contract root resolve) report 3 pdf
      keys_apart report-AreUuids true (tables, []) after artifact tt persisted tt
