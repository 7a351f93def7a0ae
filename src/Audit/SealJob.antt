-- ===== src/Audit/SealJob.antt =====
-- The handler of the job that seals a tenant's events (apps/audit/jobs.py), run by the worker.
use agentledger_mvp_v.Base.{
  ℕ, String, Bool, true, false, not, ◌≡◌, refl, ap, ◌∙◌, Option, some, ◌==◌, ==_refl, if◌then◌else◌,
  arith, Bool-cases, inl, inr,
}
use agentledger_mvp_v.Base.Json.{Json, Fields, end, field}
use agentledger_mvp_v.Base.Result.{Result, ok, err, Result-cases}
use agentledger_mvp_v.Tenancy.{Failure, exception, tenant_transaction}
use agentledger_mvp_v.Jobs.Model.{
  JobType, audit_batch_seal, risk_reassessment, report_generation, catalog_refresh,
}
use agentledger_mvp_v.Jobs.Queue.{ClaimedJob, job_lease, heartbeat_job_with_fence}
use agentledger_mvp_v.Jobs.Worker.{
  External, finish, heartbeat, JobHandler, Environment, State, statement, execute_claimed_job,
}
use agentledger_mvp_v.Audit.Merkle.{Primitives}
use agentledger_mvp_v.Audit.Store.{Tables}
use agentledger_mvp_v.Audit.Sealing.{
  AuditError, value_error, merkle_error, integrity_error, index_error, SealedAuditBlock,
  seal_tenant_audit_events,
}

pub record AuditBatchSealPrepared : Type 0 where
  pub job_id : ℕ
  pub organization_id : ℕ

abbrev is_audit_batch_seal : JobType → Bool
is_audit_batch_seal audit_batch_seal = true
is_audit_batch_seal _ = false

abbrev is_no_payload : Fields → Bool
is_no_payload end = true
is_no_payload (field key v rest) = false

-- The type of an exception, by its name.
abbrev exception_of : AuditError → Failure
exception_of value_error = exception "builtins.ValueError"
exception_of (merkle_error e) = exception "apps.audit.merkle.MerkleError"
exception_of integrity_error = exception "django.db.utils.IntegrityError"
exception_of index_error = exception "builtins.IndexError"
exception_of _ = exception "apps.audit.sealing.AuditSealingError"

abbrev pub wrong_job : Failure
wrong_job = exception "apps.audit.jobs.AuditBatchSealJobError"

unfoldable pub prepare : ClaimedJob → ℕ → Tables → Result Failure AuditBatchSealPrepared × Tables
prepare job tenant s =
    if not (is_audit_batch_seal job.job_type)
    then (err wrong_job, s)
    else if not (is_no_payload job.payload)
    then (err wrong_job, s)
    else (ok (record { job_id = job.id; organization_id = job.organization_id }), s)

unfoldable pub execute_external : AuditBatchSealPrepared → External AuditBatchSealPrepared
execute_external prepared = heartbeat (finish prepared)

is_audit_batch_seal-eq : (t : JobType) → is_audit_batch_seal t ≡ true → t ≡ audit_batch_seal
is_audit_batch_seal-eq audit_batch_seal h = refl
is_audit_batch_seal-eq risk_reassessment h = absurd (cc)
is_audit_batch_seal-eq report_generation h = absurd (cc)
is_audit_batch_seal-eq catalog_refresh h = absurd (cc)

is_no_payload-eq : (f : Fields) → is_no_payload f ≡ true → f ≡ end
is_no_payload-eq end h = refl
is_no_payload-eq (field key v rest) h = absurd (cc)

module _ (c : Primitives) (loads : String → Option Json) (jsonb_text : Json → String)
    (block_id : ℕ) where
  abbrev seal_result :
      Result AuditError (Option SealedAuditBlock) × Tables → Result Failure (Unit {0}) × Tables
  seal_result r = elim r.0 [ ok b ↦ (ok tt, r.1) | err e ↦ (err (exception_of e), r.1) ]

  unfoldable pub persist :
      ClaimedJob → AuditBatchSealPrepared → ℕ → Tables → Result Failure (Unit {0}) × Tables
  persist job result tenant s =
      if not (result.job_id == job.id)
      then (err wrong_job, s)
      else if not (result.organization_id == job.organization_id)
      then (err wrong_job, s)
      else seal_result
          (seal_tenant_audit_events c loads jsonb_text job.organization_id block_id 1000 s)

  unfoldable pub audit_batch_seal_handler :
      JobHandler Tables AuditBatchSealPrepared AuditBatchSealPrepared
  unfolding prepare execute_external persist
  audit_batch_seal_handler = record {
    persistence_isolation = some "repeatable_read";
    prepare = prepare;
    execute_external = execute_external;
    persist = persist;
  }

  -- A job that the worker executes with the handler of sealing to the end is a seal job without a
  -- payload, and the tables are what one sealing of its tenant, with the limit of 1000 events, leaves
  -- of them.
  pub execute_claimed_job-seals :
      (env : Environment) (worker : String) (job : ClaimedJob) (s s' : State Tables)
      → execute_claimed_job env worker job audit_batch_seal_handler s ≡ (ok tt, s')
      → ((job.job_type ≡ audit_batch_seal) × (job.payload ≡ end))
        × ((b : Option SealedAuditBlock) × (seal_tenant_audit_events c loads jsonb_text
                job.organization_id block_id 1000 s.store
              ≡ (ok b, s'.store)))
  unfolding execute_claimed_job audit_batch_seal_handler tenant_transaction statement
  execute_claimed_job-seals env worker job s s' h =
      let sealed =
        seal_tenant_audit_events c loads jsonb_text job.organization_id block_id 1000 s.store in
      let beat =
        heartbeat_job_with_fence job.id worker job.claim_token job_lease (env.clock s.step)
          (env.others s.step s.rows) in
      elim (Bool-cases (is_audit_batch_seal job.job_type)) [
        | inr t ↦ absurd (ground arith)
        | inl t ↦ elim (Bool-cases (is_no_payload job.payload)) [
          | inr n ↦ absurd (ground arith)
          | inl n ↦ elim (Result-cases beat.0) [
            | inr (x, q) ↦ absurd (ground arith)
            | inl (x, q) ↦ elim (Result-cases sealed.0) [
              | inr (y, r) ↦ absurd (ground (arith, ==_refl job.id, ==_refl job.organization_id))
              | inl (b, r) ↦
                  let store : sealed.1 ≡ s'.store =
                    ground (arith, ==_refl job.id, ==_refl job.organization_id) in
                  (
                    (is_audit_batch_seal-eq job.job_type t, is_no_payload-eq job.payload n),
                    (b, ap (λ o. (o, sealed.1)) r ∙ ap (λ u. (ok b, u)) store),
                  )
            ]
          ]
        ]
      ]
