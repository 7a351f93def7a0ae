-- ===== src/Jobs/Worker/Weight.antt =====
-- How many claims a table still allows, and how the statements of the queue change it.
use agentledger_mvp_v.Base.{
  ℕ, ◌+◌, ◌*◌, ◌-◌, ◌≤◌, ◌<◌, String, ◌≡◌, Bool, true, Option, some, [], ◌∷◌, arith, ◌==◌,
  Bool-cases, ==_iff, inl, inr,
}
use agentledger_mvp_v.Jobs.Model.{Status, queued, running, BackgroundJob}
use agentledger_mvp_v.Jobs.Table.{update}
use agentledger_mvp_v.Jobs.Queue.{
  Rows, fenced, holds, has_id, set_claimed, set_completed, set_lease, fail_job_with_fence,
  set_retried, set_recovered,
}
use agentledger_mvp_v.Jobs.Queue.Find.{find_job, UniqueIds, update-Absent, fenced-rows}
use agentledger_mvp_v.Jobs.Queue.Lifecycle.{IsValid, RowValid, holds-running}

-- Twice the claims that a row still allows, and one more while it runs.
unfoldable pub weight_of : Status → ℕ → ℕ
weight_of queued n = 2 * (5 - n)
weight_of running n = 2 * (5 - n) + 1
weight_of _ n = 0

unfoldable pub weight : BackgroundJob → ℕ
unfolding weight_of
weight j = weight_of j.status j.attempts

-- The claims that a table still allows, counted so.
unfoldable pub claims_left : Rows → ℕ
claims_left [] = 0
claims_left (j ∷ rows) = weight j + claims_left rows

pub set_claimed-weight :
    (worker : String) (token lease now : ℕ) (j : BackgroundJob)
    → j.status ≡ queued
    → RowValid j
    → weight (set_claimed worker token lease now j) < weight j
unfolding weight set_claimed
set_claimed-weight worker token lease now j e v = ground arith

pub set_completed-weight :
    (now : ℕ) (j : BackgroundJob) → j.status ≡ running → weight (set_completed now j) ≤ weight j
unfolding weight set_completed
set_completed-weight now j e = ground arith

pub set_lease-weight :
    (lease now : ℕ) (j : BackgroundJob)
    → j.status ≡ running
    → weight (set_lease lease now j) ≤ weight j
unfolding weight set_lease
set_lease-weight lease now j e = ground arith

pub set_retried-weight :
    (now : ℕ) (code summary fingerprint : String) (j : BackgroundJob)
    → j.status ≡ running
    → weight (set_retried now code summary fingerprint j) ≤ weight j
unfolding weight set_retried
set_retried-weight now code summary fingerprint j e = ground arith

pub set_recovered-weight :
    (now : ℕ) (j : BackgroundJob) → j.status ≡ running → weight (set_recovered now j) ≤ weight j
unfolding weight set_recovered
set_recovered-weight now j e = ground arith

pub claims_left-update :
    (p : BackgroundJob → Bool) (f : BackgroundJob → BackgroundJob)
    → ((j : BackgroundJob) → p j ≡ true → weight (f j) ≤ weight j)
    → (rows : Rows) → claims_left (update p f rows) ≤ claims_left rows
unfolding claims_left update
claims_left-update p f less [] = omega arith
claims_left-update p f less (j ∷ rows) = ground (arith, less j, claims_left-update p f less rows)

pub claims_left-update_key :
    (f : BackgroundJob → BackgroundJob) (k : ℕ) (rows : Rows) (j : BackgroundJob)
    → UniqueIds rows
    → find_job k rows ≡ some j
    → weight (f j) < weight j
    → claims_left (update (has_id k) f rows) < claims_left rows
unfolding claims_left update find_job
claims_left-update_key f k [] j u e less = cc
claims_left-update_key f k (i ∷ rows) j u e less = elim (Bool-cases (i.id == k)) [
  | inl here ↦
      let same : i ≡ j = ground arith in
      let key : i.id ≡ k = (==_iff i.id k).0 here in
      let rest : update (has_id k) f rows ≡ rows = update-Absent f k rows (rw (← key) u.0) in
      let fewer : weight (f i) < weight i = rw same less in rw (here, rest) (omega arith)
  | inr there ↦ ground (arith, claims_left-update_key f k rows j u.1 (ground arith) less)
]

-- The rows stay valid and allow no more claims than before.
pub record Progress (rows rows' : Rows) : Type 0 where
  pub valid : IsValid rows'
  pub fewer : claims_left rows' ≤ claims_left rows

pub Progress-trans : {a b c : Rows} → Progress a b → Progress b c → Progress a c
Progress-trans p q = record { valid = q.valid; fewer = omega (arith, p.fewer, q.fewer) }

pub claims_left-fenced :
    (id : ℕ) (worker : String) (token : Option ℕ) (now : ℕ) (f : BackgroundJob → BackgroundJob)
    (rows : Rows)
    → IsValid rows
    → ((j : BackgroundJob) → j.status ≡ running → weight (f j) ≤ weight j)
    → claims_left (fenced (holds id worker token now) f id rows).1 ≤ claims_left rows
claims_left-fenced id worker token now f rows v less =
    rw
      (fenced-rows (holds id worker token now) f id rows
        (λ j h. (holds-running id worker token now j h).0) v.unique)
      (claims_left-update (holds id worker token now) f
        (λ j h. less j (holds-running id worker token now j h).1) rows)

pub fail-fewer :
    (id : ℕ) (worker : String) (token : Option ℕ) (code summary fingerprint : String) (now : ℕ)
    (rows : Rows)
    → IsValid rows
    → claims_left (fail_job_with_fence id worker token code summary fingerprint now rows).1
      ≤ claims_left rows
unfolding fail_job_with_fence
fail-fewer id worker token code summary fingerprint now rows v = ground (
  arith,
  claims_left-fenced id worker token now (set_retried now code summary fingerprint) rows v
      (set_retried-weight now code summary fingerprint),
)
