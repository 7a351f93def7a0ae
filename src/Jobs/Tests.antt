-- ===== src/Jobs/Tests.antt =====
-- Runs of the queue and the worker at small tables, and the theorems at concrete inputs.
use agentledger_mvp_v.Base.{
  ℕ, ◌+◌, String, ◌≡◌, refl, ◌≢◌, ◌↔◌, Bool, true, false, Option, none, some, List, [], ◌∷◌, ◌++◌,
  All, arith, inl,
}
use agentledger_mvp_v.Base.Int.{pos, negsuc}
use agentledger_mvp_v.Base.Json.{Json, obj, end}
use agentledger_mvp_v.Base.Result.{Result, ok, err}
use agentledger_mvp_v.Tenancy.{Failure, tenant_transaction}
use agentledger_mvp_v.Jobs.Model.{BackgroundJob, audit_batch_seal, queued, running, completed}
use agentledger_mvp_v.Jobs.Table.{update}
use agentledger_mvp_v.Jobs.Queue.{
  Rows, ClaimedJob, enqueue_job, claim_next_job, complete_job_with_fence, heartbeat_job_with_fence,
  fail_job_with_fence, recover_expired_jobs, holds, is_candidate, set_retried, lost_job_lease,
  job_lease, unsupported_type, job_type_of,
}
use agentledger_mvp_v.Jobs.Queue.Find.{find_job}
use agentledger_mvp_v.Jobs.Queue.Claim.{Claims, claim_takes_first, claim_none}
use agentledger_mvp_v.Jobs.Queue.Lifecycle
use agentledger_mvp_v.Jobs.Queue.Lifecycle.{IsValid, run, run-IsValid, Op}
use agentledger_mvp_v.Jobs.Queue.Fence.{lease_protects, final_kept}
use agentledger_mvp_v.Jobs.Queue.Retry.{fail_schedule, Retried}
use agentledger_mvp_v.Jobs.Queue.Holder.{Held, fence_exact, fence_rejects}
use agentledger_mvp_v.Jobs.Queue.Recover.{IsOverdue, HeldKept, recover_exact}
use agentledger_mvp_v.Jobs.Worker.{
  Drain, Environment, State, JobHandler, finish, heartbeat, drain_queue, statement,
  execute_claimed_job,
}
use agentledger_mvp_v.Jobs.Worker.Weight.{claims_left, weight, weight_of}
use agentledger_mvp_v.Jobs.Worker.Termination.{drain_queue_ends}

abbrev no_json : String → Option Json
no_json _ = none

abbrev unlocked : ℕ → Bool
unlocked _ = false

-- A waiting job, and one that worker "w" holds under token 7 until 500.
abbrev waiting : BackgroundJob
waiting = record {
  id = 1;
  organization_id = 9;
  job_type = audit_batch_seal;
  payload = obj end;
  status = queued;
  priority = pos 100;
  attempts = 0;
  available_at = 10;
  locked_at = none;
  lock_expires_at = none;
  locked_by = none;
  claim_token = none;
  error_code = none;
  safe_error_summary = none;
  error_fingerprint = none;
  created_at = 10;
  completed_at = none;
}

abbrev held : BackgroundJob
held = record waiting {
  id = 2;
  status = running;
  attempts = 2;
  locked_at = some 100;
  lock_expires_at = some 500;
  locked_by = some "w";
  claim_token = some 7;
}

abbrev done : BackgroundJob
done = record waiting { id = 3; status = completed; attempts = 1; completed_at = some 50 }

abbrev table : Rows
table = waiting ∷ held ∷ done ∷ []

abbrev urgent : BackgroundJob
urgent = record waiting { id = 4; priority = negsuc 0; available_at = 20 }

claims_urgent :
    (claim_next_job no_json 8 30 unlocked "v" job_lease (table ++ urgent ∷ [])).0
    ≡ ok (
        some (record {
          id = 4;
          organization_id = 9;
          job_type = audit_batch_seal;
          payload = end;
          attempts = 1;
          claim_token = some 8;
        }))
unfolding claim_next_job
claims_urgent = refl

skips_locked : (claim_next_job no_json 8 30 (λ k. true) "v" job_lease table) ≡ (ok none, table)
unfolding claim_next_job
skips_locked = refl

refuses_type : (enqueue_job 5 30 9 "nonsense" (obj end) (pos 1) table).0 ≡ err unsupported_type
unfolding enqueue_job job_type_of
refuses_type = refl

table-IsValid : IsValid table
table-IsValid = ground arith

-- Another worker's statements before the lease of `held` ends: a late failure report, a claim and a
-- recovery.
abbrev history : List Op
history =
    Op.fail 2 "v" (some 6) "code" "text" "print" 300
    ∷ Op.claim 8 400 unlocked "v" job_lease
    ∷ Op.recover 500
    ∷ []

history_fresh : Lifecycle.IsFreshRun no_json history table
history_fresh = (tt, (tt, (tt, tt)))

run-IsValid_example : IsValid (run no_json history table)
run-IsValid_example = run-IsValid no_json history table history_fresh table-IsValid

found_held : find_job 2 table ≡ some held
unfolding find_job
found_held = refl

found_done : find_job 3 table ≡ some done
unfolding find_job
found_done = refl

lease_protects_example : find_job 2 (run no_json history table) ≡ some held
lease_protects_example =
    lease_protects no_json history table 2 held 500 history_fresh table-IsValid found_held refl refl
      (
        (omega arith, λ h. ground (arith, h.1)),
        ((omega arith, λ h. h), ((omega arith, λ h. h), tt)),
      )

final_kept_example : find_job 3 (run no_json history table) ≡ some done
final_kept_example =
    final_kept no_json history table 3 done history_fresh table-IsValid found_done (inl refl)

abbrev claimed : ClaimedJob
claimed = record {
  id = 1;
  organization_id = 9;
  job_type = audit_batch_seal;
  payload = end;
  attempts = 1;
  claim_token = some 8;
}

claims_first : (claim_next_job no_json 8 30 unlocked "v" job_lease table).0 ≡ ok (some claimed)
unfolding claim_next_job
claims_first = refl

claim_takes_first_example :
    Claims 8 30 unlocked "v" job_lease table
      (claim_next_job no_json 8 30 unlocked "v" job_lease table).1
      claimed
claim_takes_first_example =
    claim_takes_first no_json 8 30 unlocked "v" job_lease table claimed table-IsValid.unique
      claims_first

too_early : (claim_next_job no_json 8 5 unlocked "v" job_lease table).0 ≡ ok none
unfolding claim_next_job
too_early = refl

claim_none_example :
    All (λ (i : BackgroundJob). is_candidate 5 unlocked i ≡ false) table
    × ((claim_next_job no_json 8 5 unlocked "v" job_lease table).1 ≡ table)
claim_none_example = claim_none no_json 8 5 unlocked "v" job_lease table too_early

holds_at_499 : holds 2 "w" (some 7) 499 held ≡ true
unfolding holds
holds_at_499 = refl

fence_exact_example :
    (((complete_job_with_fence 2 "w" (some 7) 499 table).0 ≡ ok tt) ↔ Held 2 "w" (some 7) 499 table)
    × (((heartbeat_job_with_fence 2 "w" (some 7) job_lease 499 table).0 ≡ ok tt)
        ↔ Held 2 "w" (some 7) 499 table)
    × (((fail_job_with_fence 2 "w" (some 7) "c" "s" "f" 499 table).0 ≡ ok tt)
        ↔ Held 2 "w" (some 7) 499 table)
fence_exact_example =
    fence_exact 2 "w" (some 7) job_lease 499 "c" "s" "f" table table-IsValid.unique refl refl refl

nobody_holds : ¬ Held 2 "w" (some 7) 500 table
unfolding find_job
nobody_holds (j, e, (r, w, t, (u, x, l))) =
    let same : held ≡ j = ground (arith, e) in
    let lease : u ≡ 500 = ground (arith, same, x) in absurd (omega (arith, l, lease))

fence_rejects_example :
    (complete_job_with_fence 2 "w" (some 7) 500 table ≡ (err (lost_job_lease 2), table))
    × (heartbeat_job_with_fence 2 "w" (some 7) job_lease 500 table
        ≡ (err (lost_job_lease 2), table))
    × (fail_job_with_fence 2 "w" (some 7) "c" "s" "f" 500 table ≡ (err (lost_job_lease 2), table))
fence_rejects_example =
    fence_rejects 2 "w" (some 7) job_lease 500 "c" "s" "f" table table-IsValid.unique refl refl refl
      nobody_holds

fail_schedule_example :
    (j' : BackgroundJob) × (fail_job_with_fence 2 "w" (some 7) "c" "s" "f" 499 table
      ≡ (ok tt, update (holds 2 "w" (some 7) 499) (set_retried 499 "c" "s" "f") table))
    × (find_job 2 (fail_job_with_fence 2 "w" (some 7) "c" "s" "f" 499 table).1 ≡ some j')
    × Retried 499 held j' (some 5)
fail_schedule_example =
    fail_schedule 2 "w" (some 7) 499 "c" "s" "f" table held table-IsValid refl refl refl found_held
      holds_at_499

recover_exact_example :
    All (λ i. ¬ IsOverdue 499 i) (recover_expired_jobs 499 table).1
    × HeldKept 2 "w" (some 7) 499 table (recover_expired_jobs 499 table).1
recover_exact_example = recover_exact 2 "w" (some 7) 499 table

-- A worker whose handler sends one heartbeat and writes the job's organization to the store.
abbrev handler : JobHandler ℕ ℕ ℕ
handler = record {
  persistence_isolation = some "repeatable_read";
  prepare = λ job organization w. (ok organization, w);
  execute_external = λ p. heartbeat (finish p);
  persist = λ job r organization w. (ok tt, r);
}

abbrev quiet : Environment
quiet = record {
  loads = no_json;
  clock = λ n. 100 + n;
  uuid = λ n. n;
  locked = λ n k. false;
  others = λ n rows. rows;
}

abbrev drain : Drain ℕ ℕ ℕ
drain = record {
  env = quiet;
  worker_id = "w";
  handler_resolver = λ type. ok handler;
  sha256_hex = λ s. s;
  max_jobs = none;
}

abbrev start : State ℕ
start = record { rows = table; step = 0; store = 0 }

abbrev seen : Option (Result Failure ℕ × State ℕ) → Option (Result Failure ℕ × ℕ × ℕ)
seen none = none
seen (some (r, s)) = some (r, s.store, s.step)

drains_one : seen (drain_queue drain 3 start) ≡ some (ok 1, 9, 5)
unfolding drain_queue statement claim_next_job recover_expired_jobs execute_claimed_job
    tenant_transaction heartbeat_job_with_fence complete_job_with_fence
drains_one = refl

drain_queue_ends_example : drain_queue drain 20 start ≢ none
unfolding claims_left weight weight_of
drain_queue_ends_example =
    drain_queue_ends drain 20 start (λ n rows. refl) table-IsValid (omega arith)
