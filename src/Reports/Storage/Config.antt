-- ===== src/Reports/Storage/Config.antt =====
-- The choice of the backend: `S3PrivateReportStorage.__init__` and `build_private_report_storage` of
-- apps/reports/storage.py. A setting is an argument; the client of the bucket is made from what is
-- returned.
use agentledger_mvp_v.Base.{String, not, ◌||◌, Option, none, some, str_eq, if◌then◌else◌}
use agentledger_mvp_v.Base.Result.{Result, err, ok, ◌>>=◌, ◌>>◌, raise_if}

-- `ImproperlyConfigured`, by what is missing or wrong.
pub data Improper : Type 0 where
  bucket_name endpoint access_key_id secret_access_key url_style : Improper
  local_storage_root storage_backend : Improper

pub record S3Config : Type 0 where
  pub bucket_name : String
  pub endpoint_url : String
  pub access_key_id : String
  pub secret_access_key : String
  pub region_name : String
  pub addressing_style : String

unfoldable pub make_s3 : S3Config → Result Improper S3Config
make_s3 c =
    raise_if (str_eq c.bucket_name "") bucket_name
    >> raise_if (str_eq c.endpoint_url "") endpoint
    >> raise_if (str_eq c.access_key_id "") access_key_id
    >> raise_if (str_eq c.secret_access_key "") secret_access_key
    >> raise_if (not (str_eq c.addressing_style "virtual" || str_eq c.addressing_style "path"))
        url_style
    >> ok c

-- The settings that the choice reads, with `getattr`'s default where one is missing.
pub record Settings : Type 0 where
  pub reports_storage_backend : Option String
  pub reports_local_storage_root : Option String
  pub reports_bucket_name : Option String
  pub reports_bucket_endpoint : Option String
  pub reports_bucket_access_key_id : Option String
  pub reports_bucket_secret_access_key : Option String
  pub reports_bucket_region : Option String
  pub reports_bucket_url_style : Option String

abbrev pub getattr : Option String → String → String
getattr none d = d
getattr (some s) d = s

abbrev pub or_else : Option String → Option String → Option String
or_else (some s) t = some s
or_else none t = t

pub data Backend : Type 0 where
  local_backend : (root : String) → Backend
  s3_backend : S3Config → Backend

abbrev pub local_at : Option String → Result Improper Backend
local_at none = err local_storage_root
local_at (some root) = ok (local_backend root)

abbrev pub s3_of : Settings → S3Config
s3_of s = record {
  bucket_name = getattr s.reports_bucket_name "";
  endpoint_url = getattr s.reports_bucket_endpoint "";
  access_key_id = getattr s.reports_bucket_access_key_id "";
  secret_access_key = getattr s.reports_bucket_secret_access_key "";
  region_name = getattr s.reports_bucket_region "auto";
  addressing_style = getattr s.reports_bucket_url_style "virtual";
}

unfoldable pub build_private_report_storage : Settings → Option String → Result Improper Backend
build_private_report_storage s local_root =
    let backend = getattr s.reports_storage_backend "local" in
    let on_s3 = make_s3 (s3_of s) >>= λ c. ok (s3_backend c) in
    if str_eq backend "local"
    then local_at (or_else local_root s.reports_local_storage_root)
    else if str_eq backend "s3"
    then on_s3
    else err storage_backend
