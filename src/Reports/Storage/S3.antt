-- ===== src/Reports/Storage/S3.antt =====
-- `S3PrivateReportStorage` of apps/reports/storage.py and the choice of the backend. The bucket is the
-- list of its objects. A request may fail, by the number of the request: `fault` gives the exception of
-- the client library, and says whether the bucket carried the request out all the same.
pub mod Laws
use agentledger_mvp_v.Base.{
  ℕ, suc, ◌≡◌, ◌≢◌, refl, sym, ◌∙◌, String, Bool, true, false, not, ◌&&◌, ◌||◌, Option, none, some,
  Bytes, List, [], ◌∷◌, ◌==◌, ==_iff, ==_refl, str_eq, str_eq_iff, if◌then◌else◌, Bool-cases,
  Option-cases, inl, inr, arith,
}
use agentledger_mvp_v.Base.Result.{Result, err, ok, ◌>>=◌, ◌>>◌, raise_if, Result-cases}
use agentledger_mvp_v.Reports.Storage.{
  StorageError, unsupported_type, different_content, missing, read_failed, upload_failed,
  cleanup_failed, pdf_content_type, validate_pdf_bytes, PrivateReportStorage, IsPrivateStorage,
}

-- `ClientError`, with the code of the response, and `BotoCoreError`.
pub data ClientFailure : Type 0 where
  client_error : String → ClientFailure
  boto_core_error : ClientFailure

pub record Fault : Type 0 where
  pub failure : ClientFailure
  pub carried_out : Bool

pub record Bucket : Type 0 where
  pub objects : List (String × Bytes)
  pub requests : ℕ

abbrev pub find_object : String → List (String × Bytes) → Option Bytes
find_object key [] = none
find_object key (o ∷ os) =
    let rest = find_object key os in if str_eq o.0 key then some o.1 else rest

abbrev pub remove_object : String → List (String × Bytes) → List (String × Bytes)
remove_object key [] = []
remove_object key (o ∷ os) =
    let rest = remove_object key os in if str_eq o.0 key then rest else o ∷ rest

-- `b1 == b2`
abbrev pub same_bytes : Bytes → Bytes → Bool
same_bytes [] [] = true
same_bytes (x ∷ xs) (y ∷ ys) = (x == y) && same_bytes xs ys
same_bytes _ _ = false

-- `_is_not_found`, of the failure of a request.
abbrev pub _is_not_found : ClientFailure → Bool
_is_not_found (client_error code) =
    str_eq code "404" || (str_eq code "NoSuchKey" || str_eq code "NotFound")
_is_not_found boto_core_error = false

module _ (fault : ℕ → Option Fault) where
  abbrev pub counted : Bucket → Bucket
  counted b = record b { requests = suc b.requests }

  -- `get_object`, which raises `NoSuchKey` where there is no object.
  unfoldable pub get_object : String → Bucket → Result ClientFailure Bytes
  get_object key b = elim (fault b.requests) [
    | some f ↦ err f.failure
    | none ↦ elim (find_object key b.objects) [
      | none ↦ err (client_error "NoSuchKey")
      | some content ↦ ok content
    ]
  ]

  abbrev pub read_result : Result ClientFailure Bytes → Result StorageError (Option Bytes)
  read_result (ok content) = ok (some content)
  read_result (err failure) = if _is_not_found failure then ok none else err read_failed

  unfoldable pub _read_optional : String → Bucket → Result StorageError (Option Bytes)
  _read_optional key b = read_result (get_object key b)

  unfoldable pub put_object : String → Bytes → Bucket → Result ClientFailure (Unit {0}) × Bucket
  put_object key content b =
      let stored : Bucket = record {
        objects = (key, content) ∷ b.objects;
        requests = suc b.requests;
      } in
      elim (fault b.requests) [
        | none ↦ (ok tt, stored)
        | some f ↦ (err f.failure, if f.carried_out then stored else counted b)
      ]

  unfoldable pub upload : String → Bytes → Bucket → Result StorageError (Unit {0}) × Bucket
  upload key content b =
      let (r, b') = put_object key content b in
      elim r [ ok _ ↦ (ok tt, b') | err failure ↦ (err upload_failed, b') ]

  -- What `put` does when it has read the object under the key.
  unfoldable pub put_over :
      Result StorageError (Option Bytes)
      → String
      → Bytes
      → Bucket
      → Result StorageError (Unit {0}) × Bucket
  put_over (err e) key content b = (err e, b)
  put_over (ok none) key content b = upload key content b
  put_over (ok (some existing)) key content b =
      if same_bytes existing content then (ok tt, b) else (err different_content, b)

  -- The tests of `put`.
  unfoldable pub checked : Bytes → String → Result StorageError (Unit {0})
  checked content content_type =
      raise_if (not (str_eq content_type pdf_content_type)) unsupported_type
      >> validate_pdf_bytes content

  unfoldable pub put :
      (key : String) (content : Bytes) (content_type : String)
      → Bucket
      → Result StorageError (Unit {0}) × Bucket
  put key content content_type b = elim (checked content content_type) [
    | err e ↦ (err e, b)
    | ok _ ↦ put_over (_read_optional key b) key content (counted b)
  ]

  unfoldable pub get : (key : String) → Bucket → Result StorageError Bytes × Bucket
  get key b = elim (_read_optional key b) [
    | err e ↦ (err e, counted b)
    | ok none ↦ (err missing, counted b)
    | ok (some content) ↦ (ok content, counted b)
  ]

  unfoldable pub delete : (key : String) → Bucket → Result StorageError (Unit {0}) × Bucket
  delete key b =
      let removed : Bucket = record {
        objects = remove_object key b.objects;
        requests = suc b.requests;
      } in
      elim (fault b.requests) [
        | none ↦ (ok tt, removed)
        | some f ↦ (err cleanup_failed, if f.carried_out then removed else counted b)
      ]

  abbrev pub s3_storage : PrivateReportStorage Bucket
  s3_storage = record { put = put; get = get; delete = delete }
