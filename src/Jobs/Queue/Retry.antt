-- ===== src/Jobs/Queue/Retry.antt =====
-- Who passes the fence, and what becomes of a job whose attempt failed or whose lease ran out.
use agentledger_mvp_v.Base.{
  ℕ, zero, suc, ◌+◌, ◌*◌, ◌-◌, ◌≤◌, String, ◌≡◌, refl, subst, Bool, true, false, Option, none, some,
  List, [], ◌∷◌, All, arith, ◌==◌, Bool-cases, inl, inr, str_eq,
}
use agentledger_mvp_v.Base.Result.{ok}
use agentledger_mvp_v.Jobs.Model.{BackgroundJob, queued, running, failed}
use agentledger_mvp_v.Jobs.Table.{update}
use agentledger_mvp_v.Jobs.Queue.{Rows, fenced, holds, minute, fail_job_with_fence, set_retried}
use agentledger_mvp_v.Jobs.Queue.Find.{find_job, find_job-update}
use agentledger_mvp_v.Jobs.Queue.Holder.{fenced-HeldRow, fail-fenced}
use agentledger_mvp_v.Jobs.Queue.Lifecycle.{IsValid, RowValid, holds-running}

-- The delays of a failed attempt, in minutes.
abbrev delays : List ℕ
delays = 1 ∷ 5 ∷ 30 ∷ 120 ∷ []

abbrev nth_delay : List ℕ → ℕ → Option ℕ
nth_delay [] n = none
nth_delay (d ∷ ds) zero = some d
nth_delay (d ∷ ds) (suc n) = nth_delay ds n

-- What a failed attempt leaves of the row `j`, by the delay that its number of attempts has.
abbrev pub Retried : ℕ → BackgroundJob → BackgroundJob → Option ℕ → Type 0
Retried now j j' (some d) =
    (j'.status ≡ queued)
    × (j'.available_at ≡ now + d * minute)
    × (j'.completed_at ≡ none)
    × (j'.claim_token ≡ none)
    × (j'.attempts ≡ j.attempts)
Retried now j j' none =
    (j'.status ≡ failed)
    × (j'.completed_at ≡ some now)
    × (j'.claim_token ≡ none)
    × (j'.attempts ≡ j.attempts)

set_retried-Retried :
    (now : ℕ) (code summary fingerprint : String) (j : BackgroundJob) (n : ℕ)
    → j.attempts ≡ n
    → 1 ≤ n
    → n ≤ 5
    → Retried now j (set_retried now code summary fingerprint j) (nth_delay delays (n - 1))
unfolding set_retried
set_retried-Retried now code summary fingerprint j zero e lo hi = elim lo [ ]
set_retried-Retried now code summary fingerprint j (suc zero) e lo hi = ground arith
set_retried-Retried now code summary fingerprint j (suc (suc zero)) e lo hi = ground arith
set_retried-Retried now code summary fingerprint j (suc (suc (suc zero))) e lo hi = ground arith
set_retried-Retried now code summary fingerprint j (suc (suc (suc (suc zero)))) e lo hi =
    ground arith
set_retried-Retried now code summary fingerprint j (suc (suc (suc (suc (suc n))))) e lo hi =
    let z : n ≡ 0 = omega arith in rw z (ground arith)

pub find_job-valid :
    (k : ℕ) (rows : Rows) (j : BackgroundJob)
    → All RowValid rows
    → find_job k rows ≡ some j
    → RowValid j
unfolding find_job
find_job-valid k [] j v e = cc
find_job-valid k (i ∷ rows) j v e = elim (Bool-cases (i.id == k)) [
  | inl here ↦ let same : i ≡ j = ground arith in subst RowValid same v.0
  | inr there ↦ find_job-valid k rows j v.1 (rw there at e)
]

fenced-through :
    (p : BackgroundJob → Bool) (f : BackgroundJob → BackgroundJob) (id : ℕ) (rows : Rows)
    → (fenced p f id rows).0 ≡ ok tt
    → fenced p f id rows ≡ (ok tt, update p f rows)
unfolding fenced
fenced-through p f id rows h = ground arith

running_attempts :
    (j : BackgroundJob) → j.status ≡ running → RowValid j → (1 ≤ j.attempts) × (j.attempts ≤ 5)
running_attempts j r v = ground arith

-- A failure that the holder reports leaves the row as its number of attempts says: after the first
-- four it is queued again 1, 5, 30 and 120 minutes later, and after the fifth it is failed; the
-- token is cleared and the count of attempts kept.
pub fail_schedule :
    (id : ℕ) (worker : String) (token : Option ℕ) (now : ℕ) (code summary fingerprint : String)
    (rows : Rows) (j : BackgroundJob)
    → IsValid rows
    → str_eq code "" ≡ false
    → str_eq summary "" ≡ false
    → str_eq fingerprint "" ≡ false
    → find_job id rows ≡ some j
    → holds id worker token now j ≡ true
    → (j' : BackgroundJob) × (fail_job_with_fence id worker token code summary fingerprint now rows
        ≡ (
          ok tt,
          update (holds id worker token now) (set_retried now code summary fingerprint) rows,
        ))
      × (find_job id (fail_job_with_fence id worker token code summary fingerprint now rows).1
          ≡ some j')
      × Retried now j j' (nth_delay delays (j.attempts - 1))
fail_schedule id worker token now code summary fingerprint rows j v c s f e h =
    rw (fail-fenced id worker token now code summary fingerprint rows c s f) (
      g j,
      through,
      rw through (rw (find_job-update p g (unfold set_retried in λ i. refl) id rows j e, h)),
      set_retried-Retried now code summary fingerprint j j.attempts refl within.0 within.1,
    )
  where
    p : BackgroundJob → Bool
    p = holds id worker token now

    g : BackgroundJob → BackgroundJob
    g = set_retried now code summary fingerprint

    through : fenced p g id rows ≡ (ok tt, update p g rows)
    through =
        fenced-through p g id rows
          ((fenced-HeldRow id worker token now g rows v.unique).1 (j, e, h))

    within : (1 ≤ j.attempts) × (j.attempts ≤ 5)
    within =
        running_attempts j (holds-running id worker token now j h).1
          (find_job-valid id rows j v.valid e)
