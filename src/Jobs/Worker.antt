-- ===== src/Jobs/Worker.antt =====
-- The worker (apps/jobs/worker.py). Between two of its statements other sessions may commit
-- anything to the queue: `others n` is what they do before statement `n`, `clock n` and `uuid n` are
-- what it then reads, and `locked n` are the rows that they hold.
pub mod Weight
pub mod Steps
pub mod Termination
use agentledger_mvp_v.Base.{
  ℕ, zero, suc, ◌+◌, String, Bool, true, false, Option, none, some, ltb, leb, ◌==◌, if◌then◌else◌,
}
use Prim.Native.String.{◌++◌}
use agentledger_mvp_v.Base.Json.{Json}
use agentledger_mvp_v.Base.Result.{Result, ok, err}
use agentledger_mvp_v.Tenancy.{Failure, exception, lost_job_lease, tenant_transaction}
use agentledger_mvp_v.Jobs.Model.{
  JobType, risk_reassessment, report_generation, catalog_refresh, audit_batch_seal,
}
use agentledger_mvp_v.Jobs.Queue
use agentledger_mvp_v.Jobs.Queue.{
  Rows, QueueError, ClaimedJob, job_lease, claim_next_job, complete_job_with_fence,
  heartbeat_job_with_fence, fail_job_with_fence, recover_expired_jobs,
}

-- The body of `execute_external`, by its calls of `heartbeat`: handlers let its exception pass.
pub data External (R : Type 0) : Type 0 where
  finish : R → External R
  raise : Failure → External R
  heartbeat : External R → External R

pub record JobHandler (W P R : Type 0) : Type 0 where
  pub persistence_isolation : Option String
  pub prepare : ClaimedJob → ℕ → W → Result Failure P × W
  pub execute_external : P → External R
  pub persist : ClaimedJob → R → ℕ → W → Result Failure (Unit {0}) × W

-- What is outside the worker.
pub record Environment : Type 0 where
  pub loads : String → Option Json
  pub clock : ℕ → ℕ
  pub uuid : ℕ → ℕ
  pub locked : ℕ → ℕ → Bool
  pub others : ℕ → Rows → Rows

pub record State (W : Type 0) : Type 0 where
  pub rows : Rows
  pub step : ℕ
  pub store : W

-- The exceptions of the queue as the worker meets them.
abbrev pub raised : QueueError → Failure
raised (QueueError.lost_job_lease id) = lost_job_lease id
raised _ = exception "builtins.ValueError"

abbrev pub lift : {A : Type 0} → Result QueueError A → Result Failure A
lift (ok a) = ok a
lift (err e) = err (raised e)

-- The argument of `sha256(…).hexdigest()` in `_safe_failure_fingerprint`.
abbrev job_type_value : JobType → String
job_type_value risk_reassessment = "risk_reassessment"
job_type_value report_generation = "report_generation"
job_type_value catalog_refresh = "catalog_refresh"
job_type_value audit_batch_seal = "audit_batch_seal"

abbrev error_type : Failure → String
error_type (lost_job_lease id) = "apps.jobs.queue.LostJobLease"
error_type (exception name) = name

unfoldable pub safe_failure_fingerprint : (String → String) → ClaimedJob → Failure → String
safe_failure_fingerprint sha256_hex job error =
    sha256_hex (job_type_value job.job_type ++ ":" ++ error_type error)

-- One statement at the queue.
unfoldable pub statement :
    {W A : Type 0} → Environment → (ℕ → Rows → A × Rows) → State W → A × State W
statement env f s =
    let (a, rows) = f (env.clock s.step) (env.others s.step s.rows) in
    (a, record s { rows = rows; step = s.step + 1 })

-- What a transaction of the handler does to the state.
abbrev pub in_store :
    {W A : Type 0} → (W → Result Failure A × W) → State W → Result Failure A × State W
in_store body s = let (r, store) = body s.store in (r, record s { store = store })

module _ {W R : Type 0} (env : Environment) (worker : String) (job : ClaimedJob) where
  -- `handler.execute_external(prepared, heartbeat)`
  unfoldable pub run_external : External R → State W → Result Failure R × State W
  run_external (finish r) s = (ok r, s)
  run_external (raise e) s = (err e, s)
  run_external (heartbeat rest) s =
      let (beat, s') =
        statement env (λ now. heartbeat_job_with_fence job.id worker job.claim_token job_lease now)
          s in
      elim beat [ ok _ ↦ run_external rest s' | err e ↦ (err (raised e), s') ]

  unfoldable pub execute_claimed_job :
      {P : Type 0} → JobHandler W P R → State W → Result Failure (Unit {0}) × State W
  unfolding run_external
  execute_claimed_job handler s =
      let (prepared, s1) =
        in_store (tenant_transaction job.organization_id none (handler.prepare job)) s in
      elim prepared [
        | err e ↦ (err e, s1)
        | ok p ↦
            let (result, s2) = run_external (handler.execute_external p) s1 in
            elim result [
              | err e ↦ (err e, s2)
              | ok r ↦
                  let (persisted, s3) =
                    in_store
                      (tenant_transaction job.organization_id handler.persistence_isolation
                        (handler.persist job r))
                      s2 in
                  elim persisted [
                    | err e ↦ (err e, s3)
                    | ok _ ↦
                        let (completed, s4) =
                          statement env
                            (λ now. complete_job_with_fence job.id worker job.claim_token now) s3 in
                        (lift completed, s4)
                  ]
            ]
      ]

-- The parameters of `drain_queue` that do not change in its loop.
pub record Drain (W P R : Type 0) : Type 0 where
  pub env : Environment
  pub worker_id : String
  pub handler_resolver : JobType → Result Failure (JobHandler W P R)
  pub sha256_hex : String → String
  pub max_jobs : Option ℕ

abbrev pub summary : String
summary = "The background operation failed and may be retried."

module _ {W P R : Type 0} (d : Drain W P R) where
  open d use {env, worker_id, handler_resolver, sha256_hex, max_jobs}

  -- `handler = handler_resolver(job.job_type); execute_claimed_job(…)`
  unfoldable pub attempt : ClaimedJob → State W → Result Failure (Unit {0}) × State W
  attempt job s = elim (handler_resolver job.job_type) [
    | err e ↦ (err e, s)
    | ok handler ↦ execute_claimed_job env worker_id job handler s
  ]

  -- The `except` clauses: a lost lease leaves the loop, any other failure is recorded, which may
  -- lose the lease too.
  unfoldable pub settle :
      ClaimedJob → Result Failure (Unit {0}) × State W → Result Failure (Unit {0}) × State W
  settle job (ok _, s) = (ok tt, s)
  settle job (err (lost_job_lease id), s) = (err (lost_job_lease id), s)
  settle job (err (exception name), s) =
      let (failed, s') =
        statement env
          (λ now.
            fail_job_with_fence job.id worker_id job.claim_token "job_execution_failed" summary
              (safe_failure_fingerprint sha256_hex job (exception name)) now)
          s in
      (lift failed, s')

  -- The test of the `while` loop.
  abbrev pub may_go_on : ℕ → Bool
  may_go_on processed = elim max_jobs [ none ↦ true | some m ↦ ltb processed m ]

  abbrev pub claim : State W → Result QueueError (Option ClaimedJob) × State W
  claim s =
      statement env
        (λ now.
          claim_next_job env.loads (env.uuid s.step) now (env.locked s.step) worker_id job_lease)
        s

  -- The loop, on fuel: `none` says that the fuel ran out.
  unfoldable pub drain_loop : ℕ → ℕ → State W → Option (Result Failure ℕ × State W)
  unfolding attempt settle
  drain_loop zero processed s = none
  drain_loop (suc fuel) processed s = elim (may_go_on processed) [
    | false ↦ some (ok processed, s)
    | true ↦
        let (claimed, s1) = claim s in
        elim claimed [
          | err e ↦ some (err (raised e), s1)
          | ok none ↦ some (ok processed, s1)
          | ok (some job) ↦
              let (settled, s2) = settle job (attempt job s1) in
              elim settled [ err e ↦ some (err e, s2) | ok _ ↦ drain_loop fuel (processed + 1) s2 ]
        ]
  ]

  -- `max_jobs is not None and max_jobs < 1`
  abbrev pub too_few : Bool
  too_few = elim max_jobs [ none ↦ false | some m ↦ ltb m 1 ]

  unfoldable pub drain_queue : ℕ → State W → Option (Result Failure ℕ × State W)
  unfolding drain_loop
  drain_queue fuel s =
      if too_few
      then some (err (exception "builtins.ValueError"), s)
      else drain_loop fuel 0 (statement env recover_expired_jobs s).1
