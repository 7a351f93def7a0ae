-- ===== src/Jobs/Worker/Steps.antt =====
-- The statements of one job, when no other session writes to the queue.
use agentledger_mvp_v.Base.{ℕ, String, ◌≡◌, Option, none, arith, inl, inr}
use agentledger_mvp_v.Base.Result.{Result-cases}
use agentledger_mvp_v.Tenancy.{tenant_transaction}
use agentledger_mvp_v.Jobs.Queue.{
  Rows, ClaimedJob, job_lease, complete_job_with_fence, set_completed, heartbeat_job_with_fence,
  set_lease, fail_job_with_fence,
}
use agentledger_mvp_v.Jobs.Queue.Lifecycle.{
  IsValid, complete, heartbeat, fail, apply, apply-IsValid,
}
use agentledger_mvp_v.Jobs.Worker.{
  External, finish, raise, heartbeat as beat, JobHandler, Environment, State, statement,
  run_external, execute_claimed_job, in_store,
}
use agentledger_mvp_v.Jobs.Worker.Weight.{
  Progress, Progress-trans, claims_left-fenced, fail-fewer, set_completed-weight, set_lease-weight,
}

-- No other session writes to the queue.
abbrev pub IsQuiet : Environment → Type 0
IsQuiet env = (n : ℕ) (rows : Rows) → env.others n rows ≡ rows

module _ {W : Type 0} (env : Environment) (quiet : IsQuiet env) where
  pub statement-rows :
      {A : Type 0} (f : ℕ → Rows → A × Rows) (s : State W)
      → (statement env f s).1.rows ≡ (f (env.clock s.step) s.rows).1
  unfolding statement
  statement-rows f s = rw (quiet s.step s.rows)

  pub statement-result :
      {A : Type 0} (f : ℕ → Rows → A × Rows) (s : State W)
      → (statement env f s).0 ≡ (f (env.clock s.step) s.rows).0
  unfolding statement
  statement-result f s = rw (quiet s.step s.rows)

  pub complete-Progress :
      (id : ℕ) (worker : String) (token : Option ℕ) (s : State W)
      → IsValid s.rows
      → Progress s.rows
          (statement env (λ now. complete_job_with_fence id worker token now) s).1.rows
  complete-Progress id worker token s v =
      rw (statement-rows (λ now. complete_job_with_fence id worker token now) s) (record {
        valid = unfold apply in apply-IsValid env.loads (complete id worker token now) s.rows tt v;
        fewer =
            unfold complete_job_with_fence in
            claims_left-fenced id worker token now (set_completed now) s.rows v
              (set_completed-weight now);
      })
    where
      now : ℕ
      now = env.clock s.step

  heartbeat-Progress :
      (id : ℕ) (worker : String) (token : Option ℕ) (lease : ℕ) (s : State W)
      → IsValid s.rows
      → Progress s.rows
          (statement env (λ now. heartbeat_job_with_fence id worker token lease now) s).1.rows
  heartbeat-Progress id worker token lease s v =
      rw (statement-rows (λ now. heartbeat_job_with_fence id worker token lease now) s) (record {
        valid =
            unfold apply in
            apply-IsValid env.loads (heartbeat id worker token lease now) s.rows tt v;
        fewer =
            unfold heartbeat_job_with_fence in
            claims_left-fenced id worker token now (set_lease lease now) s.rows v
              (set_lease-weight lease now);
      })
    where
      now : ℕ
      now = env.clock s.step

  pub fail-Progress :
      (id : ℕ) (worker : String) (token : Option ℕ) (code summary fingerprint : String)
      (s : State W)
      → IsValid s.rows
      → Progress s.rows
          (statement env
            (λ now. fail_job_with_fence id worker token code summary fingerprint now)
            s).1.rows
  fail-Progress id worker token code summary fingerprint s v =
      rw
        (statement-rows (λ now. fail_job_with_fence id worker token code summary fingerprint now) s)
        (record {
          valid =
              unfold apply in
              apply-IsValid env.loads (fail id worker token code summary fingerprint now) s.rows tt
                v;
          fewer = fail-fewer id worker token code summary fingerprint now s.rows v;
        })
    where
      now : ℕ
      now = env.clock s.step

  pub run_external-Progress :
      {R : Type 0} (worker : String) (job : ClaimedJob) (e : External R) (s : State W)
      → IsValid s.rows
      → Progress s.rows (run_external env worker job e s).1.rows
  unfolding run_external
  run_external-Progress worker job (finish r) s v = record { valid = v; fewer = omega arith }
  run_external-Progress worker job (raise e) s v = record { valid = v; fewer = omega arith }
  run_external-Progress {R} worker job (beat rest) s v =
      let m =
        statement env (λ now. heartbeat_job_with_fence job.id worker job.claim_token job_lease now)
          s in
      let p = heartbeat-Progress job.id worker job.claim_token job_lease s v in
      elim (Result-cases m.0) [
        | inl (u, e) ↦
            rw (e, run_external)
              (Progress-trans p (run_external-Progress worker job rest m.1 p.valid))
        | inr (x, e) ↦ rw (e, run_external) p
      ]

  pub execute-Progress :
      {P R : Type 0} (worker : String) (job : ClaimedJob) (handler : JobHandler W P R) (s : State W)
      → IsValid s.rows
      → Progress s.rows (execute_claimed_job env worker job handler s).1.rows
  unfolding execute_claimed_job
  execute-Progress worker job handler s v =
      let prepared =
        in_store (tenant_transaction job.organization_id none (handler.prepare job)) s in
      elim (Result-cases prepared.0) [
        | inr (x, e) ↦ rw (e, execute_claimed_job) (record { valid = v; fewer = omega arith })
        | inl (p, e) ↦
            let result = run_external env worker job (handler.execute_external p) prepared.1 in
            let q = run_external-Progress worker job (handler.execute_external p) prepared.1 v in
            elim (Result-cases result.0) [
              | inr (x, e2) ↦ rw (e, e2, execute_claimed_job) q
              | inl (r, e2) ↦
                  let persisted =
                    in_store
                      (tenant_transaction job.organization_id handler.persistence_isolation
                        (handler.persist job r))
                      result.1 in
                  elim (Result-cases persisted.0) [
                    | inr (x, e3) ↦ rw (e, e2, e3, execute_claimed_job) q
                    | inl (u, e3) ↦
                        rw (e, e2, e3, execute_claimed_job)
                          (Progress-trans q
                            (complete-Progress job.id worker job.claim_token persisted.1 q.valid))
                  ]
            ]
      ]
