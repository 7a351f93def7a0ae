-- ===== src/Jobs/Queue.antt =====
-- The statements of apps/jobs/queue.py. Each function takes the rows and the reading of
-- `clock_timestamp()` at its statement, and returns the rows that its transaction leaves: the old
-- ones where it raises inside the transaction.
pub mod Find
pub mod Claim
pub mod Fence
pub mod Lifecycle
pub mod Holder
pub mod Retry
pub mod Recover
use agentledger_mvp_v.Base.{
  ℕ, ◌+◌, ◌*◌, String, Bool, true, false, not, ◌&&◌, ◌||◌, Option, none, some, List, [], ◌∷◌, ltb,
  leb, ◌==◌, str_eq, if◌then◌else◌,
}
use agentledger_mvp_v.Base.Int.{ℤ, ltb_ℤ, eq_ℤ}
use agentledger_mvp_v.Base.Json.{Json, Fields, str, obj}
use agentledger_mvp_v.Base.Result.{Result, ok, err}
use agentledger_mvp_v.Jobs.Model.{
  JobType, risk_reassessment, report_generation, catalog_refresh, audit_batch_seal, Status, queued,
  running, completed, failed, BackgroundJob,
}
use agentledger_mvp_v.Jobs.Table.{update, rowcount}

abbrev pub Rows : Type 0
Rows = List BackgroundJob

-- `ValueError` in three places, and `LostJobLease`.
pub data QueueError : Type 0 where
  unsupported_type payload_not_object failure_fields_required : QueueError
  lost_job_lease : ℕ → QueueError

pub record ClaimedJob : Type 0 where
  pub id : ℕ
  pub organization_id : ℕ
  pub job_type : JobType
  pub payload : Fields
  pub attempts : ℕ
  pub claim_token : Option ℕ

-- `JOB_LEASE`, ten minutes in microseconds.
abbrev pub job_lease : ℕ
job_lease = 600_000_000

-- The loop of the worker and the SQL text both write 5; `MAX_ATTEMPTS` itself is not read.
abbrev pub max_attempts : ℕ
max_attempts = 5

abbrev pub minute : ℕ
minute = 60_000_000

-- `BackgroundJob.Type.values`
unfoldable pub job_type_of : String → Option JobType
job_type_of s =
    if str_eq s "risk_reassessment"
    then some risk_reassessment
    else if str_eq s "report_generation"
    then some report_generation
    else if str_eq s "catalog_refresh"
    then some catalog_refresh
    else if str_eq s "audit_batch_seal"
    then some audit_batch_seal
    else none

-- A status as a number, to compare two.
abbrev pub is_queued : Status → Bool
is_queued queued = true
is_queued _ = false

abbrev pub is_running : Status → Bool
is_running running = true
is_running _ = false

-- SQL's `column = value`, which a NULL does not meet.
abbrev pub is_ℕ : Option ℕ → ℕ → Bool
is_ℕ none n = false
is_ℕ (some m) n = m == n

abbrev pub is_text : Option String → String → Bool
is_text none s = false
is_text (some t) s = str_eq t s

-- SQL's `column > value` and `column < value`.
abbrev pub is_after : Option ℕ → ℕ → Bool
is_after none n = false
is_after (some m) n = ltb n m

abbrev pub is_before : Option ℕ → ℕ → Bool
is_before none n = false
is_before (some m) n = ltb m n

-- `json.loads` is an argument: nothing is assumed of it.
unfoldable pub hydrate_job_payload : (String → Option Json) → Json → Result QueueError Fields
hydrate_job_payload loads (obj fields) = ok fields
hydrate_job_payload loads (str text) = elim (loads text) [
  | some (obj fields) ↦ ok fields
  | _ ↦ err payload_not_object
]
hydrate_job_payload loads _ = err payload_not_object

unfoldable pub enqueue_job :
    (id now organization_id : ℕ) → String → Json → ℤ → Rows → Result QueueError BackgroundJob × Rows
enqueue_job id now organization_id job_type payload priority rows = elim (job_type_of job_type) [
  | none ↦ (err unsupported_type, rows)
  | some type ↦ elim payload [
    | obj fields ↦ let job = new_job type in (ok job, job ∷ rows)
    | _ ↦ (err payload_not_object, rows)
  ]
]
  where
    new_job : JobType → BackgroundJob
    new_job type = record {
      id = id;
      organization_id = organization_id;
      job_type = type;
      payload = payload;
      status = queued;
      priority = priority;
      attempts = 0;
      available_at = now;
      locked_at = none;
      lock_expires_at = none;
      locked_by = none;
      claim_token = none;
      error_code = none;
      safe_error_summary = none;
      error_fingerprint = none;
      created_at = now;
      completed_at = none;
    }

-- `WHERE status = 'queued' AND available_at <= clock_timestamp()`, and `SKIP LOCKED`: `locked`
-- tells the rows that other open transactions hold.
unfoldable pub is_candidate : ℕ → (ℕ → Bool) → BackgroundJob → Bool
is_candidate now locked j = is_queued j.status && leb j.available_at now && not (locked j.id)

-- `ORDER BY priority, available_at, id`
unfoldable pub precedes : BackgroundJob → BackgroundJob → Bool
precedes a b =
    ltb_ℤ a.priority b.priority
    || (eq_ℤ a.priority b.priority
        && (ltb a.available_at b.available_at
            || (a.available_at == b.available_at && ltb a.id b.id)))

-- `LIMIT 1` of the ordered candidates.
unfoldable pub candidate : ℕ → (ℕ → Bool) → Rows → Option BackgroundJob
unfolding is_candidate precedes
candidate now locked [] = none
candidate now locked (j ∷ rows) =
    let best = candidate now locked rows in
    if is_candidate now locked j
    then elim best [ none ↦ some j | some k ↦ if precedes k j then some k else some j ]
    else best

abbrev pub has_id : ℕ → BackgroundJob → Bool
has_id id j = j.id == id

-- The `SET` list of the claim.
unfoldable pub set_claimed : String → ℕ → ℕ → ℕ → BackgroundJob → BackgroundJob
set_claimed worker token lease now j = record j {
  status = running;
  locked_by = some worker;
  locked_at = some now;
  lock_expires_at = some (now + lease);
  claim_token = some token;
  attempts = j.attempts + 1;
}

-- `_claimed_job`, on the row that `RETURNING` gives.
unfoldable pub claimed_job : (String → Option Json) → BackgroundJob → Result QueueError ClaimedJob
unfolding hydrate_job_payload
claimed_job loads j = elim (hydrate_job_payload loads j.payload) [
  | err e ↦ err e
  | ok payload ↦ ok (record {
    id = j.id;
    organization_id = j.organization_id;
    job_type = j.job_type;
    payload = payload;
    attempts = j.attempts;
    claim_token = j.claim_token;
  })
]

-- The payload is hydrated after the transaction, so a bad one leaves the row claimed.
unfoldable pub claim_next_job :
    (String → Option Json)
    → (token now : ℕ) → (ℕ → Bool)
    → String
    → ℕ
    → Rows
    → Result QueueError (Option ClaimedJob) × Rows
unfolding candidate set_claimed claimed_job
claim_next_job loads token now locked worker lease rows = elim (candidate now locked rows) [
  | none ↦ (ok none, rows)
  | some j ↦ (
    elim (claimed_job loads (set_claimed worker token lease now j)) [
      | ok c ↦ ok (some c)
      | err e ↦ err e
    ],
    update (has_id j.id) (set_claimed worker token lease now) rows,
  )
]

-- The `WHERE` of the three fenced statements: `worker` still holds the row under `token`.
unfoldable pub holds : ℕ → String → Option ℕ → ℕ → BackgroundJob → Bool
holds id worker none now j = false
holds id worker (some token) now j =
    j.id == id
    && is_running j.status
    && is_text j.locked_by worker
    && is_ℕ j.claim_token token
    && is_after j.lock_expires_at now

-- `if cursor.rowcount != 1: raise LostJobLease`, which rolls the statement back.
unfoldable pub fenced :
    (BackgroundJob → Bool)
    → (BackgroundJob → BackgroundJob)
    → ℕ
    → Rows
    → Result QueueError (Unit {0}) × Rows
unfolding update rowcount
fenced p f id rows =
    if rowcount p rows == 1 then (ok tt, update p f rows) else (err (lost_job_lease id), rows)

unfoldable pub set_completed : ℕ → BackgroundJob → BackgroundJob
set_completed now j = record j {
  status = completed;
  completed_at = some now;
  available_at = now;
  locked_at = none;
  lock_expires_at = none;
  locked_by = none;
  claim_token = none;
}

unfoldable pub complete_job_with_fence :
    ℕ → String → Option ℕ → (now : ℕ) → Rows → Result QueueError (Unit {0}) × Rows
unfolding fenced holds set_completed
complete_job_with_fence id worker token now =
    fenced (holds id worker token now) (set_completed now) id

unfoldable pub set_lease : ℕ → ℕ → BackgroundJob → BackgroundJob
set_lease lease now j = record j { lock_expires_at = some (now + lease) }

unfoldable pub heartbeat_job_with_fence :
    ℕ → String → Option ℕ → (lease now : ℕ) → Rows → Result QueueError (Unit {0}) × Rows
unfolding fenced holds set_lease
heartbeat_job_with_fence id worker token lease now =
    fenced (holds id worker token now) (set_lease lease now) id

-- `CASE attempts WHEN 1 THEN … END`: how long a failed attempt puts the job off.
unfoldable pub retry_delay : ℕ → ℕ
retry_delay attempts =
    if attempts == 1
    then minute
    else if attempts == 2
    then 5 * minute
    else if attempts == 3
    then 30 * minute
    else if attempts == 4
    then 120 * minute
    else 0

-- The columns that `fail` and `recover` set alike; `at` is the new `available_at`.
unfoldable pub set_failed : ℕ → ℕ → String → String → String → BackgroundJob → BackgroundJob
set_failed now at code summary fingerprint j = record j {
  status = if leb max_attempts j.attempts then failed else queued;
  available_at = at;
  completed_at = if leb max_attempts j.attempts then some now else none;
  locked_at = none;
  lock_expires_at = none;
  locked_by = none;
  claim_token = none;
  error_code = some code;
  safe_error_summary = some summary;
  error_fingerprint = some fingerprint;
}

unfoldable pub set_retried : ℕ → String → String → String → BackgroundJob → BackgroundJob
unfolding set_failed retry_delay
set_retried now code summary fingerprint j =
    set_failed now (now + retry_delay j.attempts) code summary fingerprint j

unfoldable pub fail_job_with_fence :
    ℕ
    → String
    → Option ℕ
    → (code summary fingerprint : String) → (now : ℕ) → Rows
    → Result QueueError (Unit {0}) × Rows
unfolding fenced holds set_retried
fail_job_with_fence id worker token code summary fingerprint now rows =
    if str_eq code "" || str_eq summary "" || str_eq fingerprint ""
    then (err failure_fields_required, rows)
    else fenced (holds id worker token now) (set_retried now code summary fingerprint) id rows

unfoldable pub is_expired : ℕ → BackgroundJob → Bool
is_expired now j = is_running j.status && is_before j.lock_expires_at now

unfoldable pub set_recovered : ℕ → BackgroundJob → BackgroundJob
unfolding set_failed
set_recovered now j =
    set_failed now now "lease_expired" "The worker lease expired before completion."
      "worker_lease_expired" j

-- Returns the number of rows that it recovered.
unfoldable pub recover_expired_jobs : (now : ℕ) → Rows → ℕ × Rows
unfolding update rowcount is_expired set_recovered
recover_expired_jobs now rows =
    (rowcount (is_expired now) rows, update (is_expired now) (set_recovered now) rows)
