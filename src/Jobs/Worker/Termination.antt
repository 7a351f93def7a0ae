-- ===== src/Jobs/Worker/Termination.antt =====
-- `drain_queue` ends: each job that it takes uses up an attempt of a waiting job.
use agentledger_mvp_v.Base.{
  ℕ, zero, suc, ◌+◌, ◌<◌, String, ◌≡◌, ◌≢◌, Bool, Option, none, some, arith, Bool-cases,
  Option-cases, sym, ◌∙◌, inl, inr,
}
use agentledger_mvp_v.Base.Json.{Json}
use agentledger_mvp_v.Base.Result.{Result, ok, err, Result-cases}
use agentledger_mvp_v.Tenancy.{Failure, exception, lost_job_lease}
use agentledger_mvp_v.Jobs.Queue
use agentledger_mvp_v.Jobs.Queue.{
  Rows, ClaimedJob, job_lease, fenced, holds, has_id, claim_next_job, candidate, set_claimed,
  complete_job_with_fence, set_completed, heartbeat_job_with_fence, set_lease, fail_job_with_fence,
  set_retried, is_expired, set_recovered, recover_expired_jobs, is_candidate,
}
use agentledger_mvp_v.Jobs.Queue.Find.{find_job, find_job-candidate, candidate-is_candidate}
use agentledger_mvp_v.Jobs.Queue.Lifecycle.{
  IsValid, claim, recover, apply, apply-IsValid, is_candidate-queued, is_expired-running,
}
use agentledger_mvp_v.Jobs.Worker.{
  Environment, State, statement, Drain, attempt, settle, drain_loop, drain_queue, may_go_on,
  too_few, claim as claim_job,
}
use agentledger_mvp_v.Jobs.Queue.Retry.{find_job-valid}
use agentledger_mvp_v.Jobs.Worker.Weight.{
  claims_left, Progress, claims_left-update_key, claims_left-update, set_claimed-weight,
  set_recovered-weight,
}
use agentledger_mvp_v.Jobs.Worker.Steps.{
  IsQuiet, statement-rows, statement-result, fail-Progress, execute-Progress,
}

-- A claim uses up an attempt of the job that it returns.
claim-fewer :
    (loads : String → Option Json) (token now : ℕ) (locked : ℕ → Bool) (worker : String) (lease : ℕ)
    (rows : Rows) (c : ClaimedJob)
    → IsValid rows
    → (claim_next_job loads token now locked worker lease rows).0 ≡ ok (some c)
    → claims_left (claim_next_job loads token now locked worker lease rows).1 < claims_left rows
unfolding claim_next_job
claim-fewer loads token now locked worker lease rows c v h =
    elim (Option-cases (candidate now locked rows)) [
      | inl e ↦ absurd (ground arith)
      | inr (j, e) ↦
          let there : find_job j.id rows ≡ some j =
            find_job-candidate now locked rows j e v.unique in
          rw (e, claim_next_job)
            (claims_left-update_key (set_claimed worker token lease now) j.id rows j v.unique there
              (set_claimed-weight worker token lease now j
                (is_candidate-queued now locked j (candidate-is_candidate now locked rows j e))
                (find_job-valid j.id rows j v.valid there)))
    ]

recover-Progress :
    {W : Type 0} (env : Environment) (quiet : IsQuiet env) (s : State W)
    → IsValid s.rows
    → Progress s.rows (statement env recover_expired_jobs s).1.rows
recover-Progress env quiet s v = rw (statement-rows env quiet recover_expired_jobs s) (record {
  valid = unfold apply in apply-IsValid env.loads (recover (env.clock s.step)) s.rows tt v;
  fewer =
      unfold recover_expired_jobs in
      claims_left-update (is_expired (env.clock s.step)) (set_recovered (env.clock s.step))
        (λ j h.
          set_recovered-weight (env.clock s.step) j (is_expired-running (env.clock s.step) j h))
        s.rows;
})

module _ {W P R : Type 0} (d : Drain W P R) (quiet : IsQuiet d.env) where
  attempt-Progress :
      (job : ClaimedJob) (s : State W) → IsValid s.rows → Progress s.rows (attempt d job s).1.rows
  unfolding attempt
  attempt-Progress job s v = elim (Result-cases (d.handler_resolver job.job_type)) [
    | inl (handler, e) ↦ rw (e, attempt) (execute-Progress d.env quiet d.worker_id job handler s v)
    | inr (x, e) ↦ rw (e, attempt) (record { valid = v; fewer = omega arith })
  ]

  settle-Progress :
      (job : ClaimedJob) (r : Result Failure (Unit {0})) (s : State W)
      → IsValid s.rows
      → Progress s.rows (settle d job (r, s)).1.rows
  unfolding settle
  settle-Progress job (ok u) s v = record { valid = v; fewer = omega arith }
  settle-Progress job (err (lost_job_lease id)) s v = record { valid = v; fewer = omega arith }
  settle-Progress job (err (exception name)) s v =
      fail-Progress d.env quiet job.id d.worker_id job.claim_token _ _ _ s v

  -- One job that the loop took and settled.
  turn-Progress :
      (s : State W) (job : ClaimedJob)
      → IsValid s.rows
      → (claim_job d s).0 ≡ ok (some job)
      → let s' = (settle d job (attempt d job (claim_job d s).1)).1 in
        IsValid s'.rows × (claims_left s'.rows < claims_left s.rows)
  turn-Progress s job v e = (q.valid, omega (arith, q.fewer, p.fewer, left))
    where
      now : ℕ
      now = d.env.clock s.step

      token : ℕ
      token = d.env.uuid s.step

      f : ℕ → Rows → Result Queue.QueueError (Option ClaimedJob) × Rows
      f now = claim_next_job d.env.loads token now (d.env.locked s.step) d.worker_id job_lease

      there : (claim_job d s).1.rows ≡ (f now s.rows).1
      there = statement-rows d.env quiet f s

      found : (f now s.rows).0 ≡ ok (some job)
      found = sym (statement-result d.env quiet f s) ∙ e

      kept : IsValid (claim_job d s).1.rows
      kept = rw there (
          unfold apply in
          apply-IsValid d.env.loads (claim token now (d.env.locked s.step) d.worker_id job_lease)
            s.rows tt v)

      left : claims_left (claim_job d s).1.rows < claims_left s.rows
      left = rw there (
          claim-fewer d.env.loads token now (d.env.locked s.step) d.worker_id job_lease s.rows job v
            found)

      p : Progress (claim_job d s).1.rows (attempt d job (claim_job d s).1).1.rows
      p = attempt-Progress job (claim_job d s).1 kept

      a : Result Failure (Unit {0}) × State W
      a = attempt d job (claim_job d s).1

      q : Progress a.1.rows (settle d job a).1.rows
      q = settle-Progress job a.0 a.1 p.valid

  drain_loop_ends :
      (fuel processed : ℕ) (s : State W)
      → IsValid s.rows
      → claims_left s.rows < fuel
      → drain_loop d fuel processed s ≢ none
  unfolding drain_loop
  drain_loop_ends zero processed s v h = absurd (omega arith)
  drain_loop_ends (suc fuel) processed s v h = elim (Bool-cases (may_go_on d processed)) [
    | inr stop ↦ rw (stop, drain_loop) (λ q. cc)
    | inl go ↦
        let m = claim_job d s in
        elim (Result-cases m.0) [
          | inr (x, e) ↦ rw (go, e, drain_loop) (λ q. cc)
          | inl (none, e) ↦ rw (go, e, drain_loop) (λ q. cc)
          | inl (some job, e) ↦
              let t = settle d job (attempt d job m.1) in
              let (v', less) = turn-Progress s job v e in
              elim (Result-cases t.0) [
                | inr (x, e2) ↦ rw (go, e, e2, drain_loop) (λ q. cc)
                | inl (u, e2) ↦
                    rw (go, e, e2, drain_loop)
                      (drain_loop_ends fuel (processed + 1) t.1 v' (omega arith))
              ]
        ]
  ]

-- `drain_queue` returns or raises, on a valid table and when no other session writes to the queue:
-- fuel above the sum, over the queued and running jobs, of twice the attempts that each has left, and one
-- more for each that runs, never runs out.
pub drain_queue_ends :
    {W P R : Type 0} (d : Drain W P R) (fuel : ℕ) (s : State W)
    → IsQuiet d.env
    → IsValid s.rows
    → claims_left s.rows < fuel
    → drain_queue d fuel s ≢ none
unfolding drain_queue
drain_queue_ends d fuel s quiet v h =
    let r = recover-Progress d.env quiet s v in
    elim (Bool-cases (too_few d)) [
      | inl bad ↦ rw (bad, drain_queue) (λ q. cc)
      | inr fine ↦
          rw (fine, drain_queue)
            (drain_loop_ends d quiet fuel 0 (statement d.env recover_expired_jobs s).1 r.valid
              (omega (arith, r.fewer)))
    ]
