-- ===== src/Jobs/Queue/Lifecycle.antt =====
-- Histories of the queue: the statements of any number of workers, in any order, and what holds of
-- the rows after them.
use agentledger_mvp_v.Base.{
  ℕ, ◌≤◌, String, ◌≡◌, refl, Bool, true, Option, none, some, List, [], ◌∷◌, All, arith,
  Option-cases, inl, inr,
}
use agentledger_mvp_v.Base.Int.{ℤ}
use agentledger_mvp_v.Base.Json.{Json}
use agentledger_mvp_v.Jobs.Model.{
  Status, queued, running, completed, failed, BackgroundJob, StateConsistent,
}
use agentledger_mvp_v.Jobs.Table.{update, All-update}
use agentledger_mvp_v.Jobs.Queue.{
  Rows, fenced, enqueue_job, claim_next_job, has_id, set_claimed, holds, complete_job_with_fence,
  set_completed, heartbeat_job_with_fence, set_lease, fail_job_with_fence, set_retried, is_expired,
  set_recovered, recover_expired_jobs, candidate, is_candidate,
}
use agentledger_mvp_v.Jobs.Queue.Find.{
  Absent, UniqueIds, UniqueIds-update, All-update_key, fenced-rows, candidate-is_candidate,
  find_job-candidate,
}

-- One statement, with what it draws from outside: identifiers, tokens, the clock, the locks.
pub data Op : Type 0 where
  enqueue : (id now organization : ℕ) → String → Json → ℤ → Op
  claim : (token now : ℕ) → (ℕ → Bool) → String → (lease : ℕ) → Op
  complete : (id : ℕ) → String → Option ℕ → (now : ℕ) → Op
  heartbeat : (id : ℕ) → String → Option ℕ → (lease now : ℕ) → Op
  fail : (id : ℕ) → String → Option ℕ → (code summary fingerprint : String) → (now : ℕ) → Op
  recover : (now : ℕ) → Op

module _ (loads : String → Option Json) where
  unfoldable pub apply : Op → Rows → Rows
  apply (enqueue id now organization type payload priority) rows =
      (enqueue_job id now organization type payload priority rows).1
  apply (claim token now locked worker lease) rows =
      (claim_next_job loads token now locked worker lease rows).1
  apply (complete id worker token now) rows = (complete_job_with_fence id worker token now rows).1
  apply (heartbeat id worker token lease now) rows =
      (heartbeat_job_with_fence id worker token lease now rows).1
  apply (fail id worker token code summary fingerprint now) rows =
      (fail_job_with_fence id worker token code summary fingerprint now rows).1
  apply (recover now) rows = (recover_expired_jobs now rows).1

  unfoldable pub run : List Op → Rows → Rows
  unfolding apply
  run [] rows = rows
  run (op ∷ ops) rows = run ops (apply op rows)

-- A new job's `uuid4` is no key of the table.
abbrev pub IsFresh : Op → Rows → Type 0
IsFresh (enqueue id now organization type payload priority) rows = Absent id rows
IsFresh _ rows = Unit

-- How often a row can have been claimed, by its status.
abbrev pub AttemptsWithin : Status → ℕ → Type 0
AttemptsWithin queued n = n ≤ 4
AttemptsWithin running n = (1 ≤ n) × (n ≤ 5)
AttemptsWithin completed n = (1 ≤ n) × (n ≤ 5)
AttemptsWithin failed n = n ≡ 5

abbrev pub RowValid : BackgroundJob → Type 0
RowValid j = StateConsistent j.status j × AttemptsWithin j.status j.attempts

pub record IsValid (rows : Rows) : Type 0 where
  pub unique : UniqueIds rows
  pub valid : All RowValid rows

-- The rows that an operation matches, and what it writes there.
set_claimed-RowValid :
    (worker : String) (token lease now : ℕ) (j : BackgroundJob)
    → j.status ≡ queued
    → RowValid j
    → RowValid (set_claimed worker token lease now j)
unfolding set_claimed
set_claimed-RowValid worker token lease now j e v = ground arith

set_completed-RowValid :
    (now : ℕ) (j : BackgroundJob) → j.status ≡ running → RowValid j → RowValid (set_completed now j)
unfolding set_completed
set_completed-RowValid now j e v = ground arith

set_lease-RowValid :
    (lease now : ℕ) (j : BackgroundJob)
    → j.status ≡ running
    → RowValid j
    → RowValid (set_lease lease now j)
unfolding set_lease
set_lease-RowValid lease now j e v = ground arith

set_retried-RowValid :
    (now : ℕ) (code summary fingerprint : String) (j : BackgroundJob)
    → j.status ≡ running
    → RowValid j
    → RowValid (set_retried now code summary fingerprint j)
unfolding set_retried
set_retried-RowValid now code summary fingerprint j e v = ground arith

set_recovered-RowValid :
    (now : ℕ) (j : BackgroundJob) → j.status ≡ running → RowValid j → RowValid (set_recovered now j)
unfolding set_recovered
set_recovered-RowValid now j e v = ground arith

pub holds-running :
    (id : ℕ) (worker : String) (token : Option ℕ) (now : ℕ) (j : BackgroundJob)
    → holds id worker token now j ≡ true
    → (j.id ≡ id) × (j.status ≡ running)
unfolding holds
holds-running id worker none now j h = cc
holds-running id worker (some token) now j h = ground arith

pub is_expired-running :
    (now : ℕ) (j : BackgroundJob) → is_expired now j ≡ true → j.status ≡ running
unfolding is_expired
is_expired-running now j h = ground arith

pub is_candidate-queued :
    (now : ℕ) (locked : ℕ → Bool) (j : BackgroundJob)
    → is_candidate now locked j ≡ true
    → j.status ≡ queued
unfolding is_candidate
is_candidate-queued now locked j h = ground arith

module _ (p : BackgroundJob → Bool) (f : BackgroundJob → BackgroundJob)
    (keeps_id : (j : BackgroundJob) → (f j).id ≡ j.id)
    (keeps : (j : BackgroundJob) → RowValid j → p j ≡ true → RowValid (f j)) (rows : Rows)
    (v : IsValid rows) where
  update-IsValid : IsValid (update p f rows)
  update-IsValid = record {
    unique = UniqueIds-update p f keeps_id rows v.unique;
    valid = All-update p f keeps rows v.valid;
  }

  fenced-IsValid :
      (k : ℕ) → ((j : BackgroundJob) → p j ≡ true → j.id ≡ k) → IsValid (fenced p f k rows).1
  fenced-IsValid k only = rw (fenced-rows p f k rows only v.unique) update-IsValid

claim-IsValid :
    (loads : String → Option Json) (token now : ℕ) (locked : ℕ → Bool) (worker : String) (lease : ℕ)
    (rows : Rows)
    → IsValid rows
    → IsValid (claim_next_job loads token now locked worker lease rows).1
unfolding claim_next_job
claim-IsValid loads token now locked worker lease rows v =
    elim (Option-cases (candidate now locked rows)) [
      | inl e ↦ rw (e, claim_next_job) v
      | inr (j, e) ↦
          rw (e, claim_next_job)
            (record {
              unique =
                  UniqueIds-update (has_id j.id) f (unfold set_claimed in λ i. refl) rows v.unique;
              valid =
                  All-update_key RowValid f j.id rows j v.unique
                    (find_job-candidate now locked rows j e v.unique)
                    (set_claimed-RowValid worker token lease now j (
                      is_candidate-queued now locked j
                        (candidate-is_candidate now locked rows j e)))
                    v.valid;
            })
    ]
  where
    f : BackgroundJob → BackgroundJob
    f = set_claimed worker token lease now

enqueue-IsValid :
    (id now organization : ℕ) (type : String) (payload : Json) (priority : ℤ) (rows : Rows)
    → Absent id rows
    → IsValid rows
    → IsValid (enqueue_job id now organization type payload priority rows).1
unfolding enqueue_job
enqueue-IsValid id now organization type payload priority rows fresh v = ground arith

fail-IsValid :
    (id : ℕ) (worker : String) (token : Option ℕ) (code summary fingerprint : String) (now : ℕ)
    (rows : Rows)
    → IsValid rows
    → IsValid (fail_job_with_fence id worker token code summary fingerprint now rows).1
unfolding fail_job_with_fence
fail-IsValid id worker token code summary fingerprint now rows v = ground (
  arith,
  fenced-IsValid (holds id worker token now) (set_retried now code summary fingerprint)
      (unfold set_retried in λ j. refl)
      (λ j w h.
        set_retried-RowValid now code summary fingerprint j
          (holds-running id worker token now j h).1 w)
      rows v id (λ j h. (holds-running id worker token now j h).0),
)

-- Every statement keeps the key and the state of every row consistent, and the attempts bounded.
pub apply-IsValid :
    (loads : String → Option Json) (op : Op) (rows : Rows)
    → IsFresh op rows
    → IsValid rows
    → IsValid (apply loads op rows)
unfolding apply complete_job_with_fence heartbeat_job_with_fence recover_expired_jobs
apply-IsValid loads (enqueue id now organization type payload priority) rows fresh v =
    enqueue-IsValid id now organization type payload priority rows fresh v
apply-IsValid loads (claim token now locked worker lease) rows fresh v =
    claim-IsValid loads token now locked worker lease rows v
apply-IsValid loads (complete id worker token now) rows fresh v =
    fenced-IsValid (holds id worker token now) (set_completed now)
      (unfold set_completed in λ j. refl)
      (λ j w h. set_completed-RowValid now j (holds-running id worker token now j h).1 w) rows v id
      (λ j h. (holds-running id worker token now j h).0)
apply-IsValid loads (heartbeat id worker token lease now) rows fresh v =
    fenced-IsValid (holds id worker token now) (set_lease lease now) (unfold set_lease in λ j. refl)
      (λ j w h. set_lease-RowValid lease now j (holds-running id worker token now j h).1 w) rows v
      id (λ j h. (holds-running id worker token now j h).0)
apply-IsValid loads (fail id worker token code summary fingerprint now) rows fresh v =
    fail-IsValid id worker token code summary fingerprint now rows v
apply-IsValid loads (recover now) rows fresh v =
    update-IsValid (is_expired now) (set_recovered now) (unfold set_recovered in λ j. refl)
      (λ j w h. set_recovered-RowValid now j (is_expired-running now j h) w) rows v

-- Each new key of a history is fresh when it is drawn.
abbrev pub IsFreshRun : (String → Option Json) → List Op → Rows → Type 0
IsFreshRun loads [] rows = Unit
IsFreshRun loads (op ∷ ops) rows = IsFresh op rows × IsFreshRun loads ops (apply loads op rows)

-- After any history whose new keys are fresh, the rows of a valid table still are valid: keys are
-- unique, each row meets the check constraint of the table, a queued row was claimed at most 4
-- times, a running or completed one between 1 and 5 times, and a failed one exactly 5 times.
pub run-IsValid :
    (loads : String → Option Json) (ops : List Op) (rows : Rows)
    → IsFreshRun loads ops rows
    → IsValid rows
    → IsValid (run loads ops rows)
unfolding run
run-IsValid loads [] rows fresh v = v
run-IsValid loads (op ∷ ops) rows fresh v =
    run-IsValid loads ops (apply loads op rows) fresh.1 (apply-IsValid loads op rows fresh.0 v)
