-- ===== src/Jobs/Model.antt =====
-- The rows of `background_jobs` (apps/jobs/models.py). Times are microseconds, identifiers and
-- claim tokens are numbers that the code only compares.
use agentledger_mvp_v.Base.{ℕ, String, Option, none, some, ◌≡◌}
use agentledger_mvp_v.Base.Int.{ℤ}
use agentledger_mvp_v.Base.Json.{Json}

pub data JobType : Type 0 where
  risk_reassessment report_generation catalog_refresh audit_batch_seal : JobType

pub data Status : Type 0 where
  queued running completed failed : Status

pub record BackgroundJob : Type 0 where
  pub id : ℕ
  pub organization_id : ℕ
  pub job_type : JobType
  pub payload : Json
  pub status : Status
  pub priority : ℤ
  pub attempts : ℕ
  pub available_at : ℕ
  pub locked_at : Option ℕ
  pub lock_expires_at : Option ℕ
  pub locked_by : Option String
  pub claim_token : Option ℕ
  pub error_code : Option String
  pub safe_error_summary : Option String
  pub error_fingerprint : Option String
  pub created_at : ℕ
  pub completed_at : Option ℕ

-- SQL's `IS NOT NULL`.
abbrev pub IsSome {ℓ} : {A : Type ℓ} → Option A → Type 0
IsSome none = ⊥
IsSome (some a) = Unit

-- `background_job_state_consistent`, the check constraint of the table.
abbrev pub StateConsistent : Status → BackgroundJob → Type 0
StateConsistent Status.queued j =
    (j.locked_at ≡ none)
    × (j.lock_expires_at ≡ none)
    × (j.locked_by ≡ none)
    × (j.claim_token ≡ none)
    × (j.completed_at ≡ none)
StateConsistent Status.running j =
    IsSome j.locked_at
    × IsSome j.lock_expires_at
    × IsSome j.locked_by
    × IsSome j.claim_token
    × (j.completed_at ≡ none)
StateConsistent _ j =
    (j.locked_at ≡ none)
    × (j.lock_expires_at ≡ none)
    × (j.locked_by ≡ none)
    × (j.claim_token ≡ none)
    × IsSome j.completed_at
