-- ===== src/Jobs/Queue/Fence.antt =====
-- The fence of a claimed job: while a lease is open only its holder changes the row.
use agentledger_mvp_v.Base.{
  ℕ, ◌≤◌, String, ◌≡◌, refl, ◌≢◌, ap, Bool, true, false, Option, none, some, List, [], ◌∷◌, arith,
  Bool-cases, Option-cases, ==_iff, ◌∙◌, inl, inr, ◌⊎◌,
}
use agentledger_mvp_v.Base.Int.{ℤ}
use agentledger_mvp_v.Base.Json.{Json}
use agentledger_mvp_v.Jobs.Model.{queued, running, completed, failed, BackgroundJob}
use agentledger_mvp_v.Jobs.Table.{update}
use agentledger_mvp_v.Jobs.Queue.{
  Rows, fenced, enqueue_job, claim_next_job, has_id, set_claimed, holds, complete_job_with_fence,
  set_completed, heartbeat_job_with_fence, set_lease, fail_job_with_fence, set_retried, is_expired,
  set_recovered, recover_expired_jobs, candidate, is_candidate,
}
use agentledger_mvp_v.Jobs.Queue.Find.{
  find_job, Absent, UniqueIds, find_job-update, fenced-rows, find_job-Absent, find_job-id,
  candidate-is_candidate, find_job-candidate,
}
use agentledger_mvp_v.Jobs.Queue.Lifecycle.{
  Op, enqueue, claim, complete, heartbeat, fail, recover, apply, IsFresh, run, IsFreshRun, IsValid,
  apply-IsValid, is_candidate-queued,
}

-- The operation is a fenced statement that carries the token of the row.
abbrev pub CarriesToken : Op → BackgroundJob → Type 0
CarriesToken (complete id worker token now) j = (id ≡ j.id) × (token ≡ j.claim_token)
CarriesToken (heartbeat id worker token lease now) j = (id ≡ j.id) × (token ≡ j.claim_token)
CarriesToken (fail id worker token code summary fingerprint now) j =
    (id ≡ j.id) × (token ≡ j.claim_token)
CarriesToken _ j = ⊥

-- When the statement reads the clock.
abbrev pub time : Op → ℕ
time (enqueue id now organization type payload priority) = now
time (claim token now locked worker lease) = now
time (complete id worker token now) = now
time (heartbeat id worker token lease now) = now
time (fail id worker token code summary fingerprint now) = now
time (recover now) = now

-- What an update leaves of a row that it does not match.
find_job-untouched :
    (p : BackgroundJob → Bool) (f : BackgroundJob → BackgroundJob) (k : ℕ) (rows : Rows)
    (j : BackgroundJob)
    → ((i : BackgroundJob) → (f i).id ≡ i.id)
    → find_job k rows ≡ some j
    → p j ≡ false
    → find_job k (update p f rows) ≡ some j
find_job-untouched p f k rows j keeps e no_match =
    rw (find_job-update p f keeps k rows j e, no_match)

holds-id :
    (id : ℕ) (worker : String) (token : Option ℕ) (now : ℕ) (i : BackgroundJob)
    → holds id worker token now i ≡ true
    → i.id ≡ id
unfolding holds
holds-id id worker none now i h = cc
holds-id id worker (some t) now i h = ground arith

-- A statement without the token of a row is not let through its fence.
holds-carries :
    (id : ℕ) (worker : String) (token : Option ℕ) (now : ℕ) (j : BackgroundJob)
    → ¬ ((id ≡ j.id) × (token ≡ j.claim_token))
    → holds id worker token now j ≡ false
unfolding holds
holds-carries id worker none now j other = refl
holds-carries id worker (some t) now j other = elim (Bool-cases (holds id worker (some t) now j)) [
  | inl h ↦ absurd (other (ground arith, ground arith))
  | inr h ↦ h
]

holds-not_running :
    (id : ℕ) (worker : String) (token : Option ℕ) (now : ℕ) (j : BackgroundJob)
    → j.status ≢ running
    → holds id worker token now j ≡ false
unfolding holds
holds-not_running id worker none now j other = refl
holds-not_running id worker (some t) now j other = ground arith

-- A row that is not queued is no candidate, so a claim leaves it.
claim-untouched :
    (loads : String → Option Json) (token now : ℕ) (locked : ℕ → Bool) (worker : String)
    (lease k : ℕ) (rows : Rows) (j : BackgroundJob)
    → UniqueIds rows
    → find_job k rows ≡ some j
    → j.status ≢ queued
    → find_job k (claim_next_job loads token now locked worker lease rows).1 ≡ some j
unfolding claim_next_job
claim-untouched loads token now locked worker lease k rows j u e ne =
    elim (Option-cases (candidate now locked rows)) [
      | inl c ↦ rw (c, claim_next_job) e
      | inr (i, c) ↦
          rw (c, claim_next_job)
            (find_job-untouched (has_id i.id) (set_claimed worker token lease now) k rows j
              (unfold set_claimed in λ i. refl) e
              (not_claimed i (find_job-candidate now locked rows i c u)
                (candidate-is_candidate now locked rows i c)))
    ]
  where
    not_claimed :
        (i : BackgroundJob)
        → find_job i.id rows ≡ some i
        → is_candidate now locked i ≡ true
        → has_id i.id j ≡ false
    not_claimed i found cand = elim (Bool-cases (has_id i.id j)) [
      | inl same ↦
          let key : j.id ≡ i.id = (==_iff j.id i.id).0 same in
          let ji : j ≡ i = cc (e, found, key, find_job-id k rows j e) in
          absurd
            (ne (ap (λ (x : BackgroundJob). x.status) ji ∙ is_candidate-queued now locked i cand))
      | inr other ↦ other
    ]

fenced-untouched :
    (id : ℕ) (worker : String) (token : Option ℕ) (now : ℕ) (f : BackgroundJob → BackgroundJob)
    (k : ℕ) (rows : Rows) (j : BackgroundJob)
    → ((i : BackgroundJob) → (f i).id ≡ i.id)
    → UniqueIds rows
    → find_job k rows ≡ some j
    → holds id worker token now j ≡ false
    → find_job k (fenced (holds id worker token now) f id rows).1 ≡ some j
fenced-untouched id worker token now f k rows j keeps u e other =
    rw (fenced-rows (holds id worker token now) f id rows (holds-id id worker token now) u)
      (find_job-untouched (holds id worker token now) f k rows j keeps e other)

enqueue-untouched :
    (id now organization : ℕ) (type : String) (payload : Json) (priority : ℤ) (k : ℕ) (rows : Rows)
    (j : BackgroundJob)
    → Absent id rows
    → find_job k rows ≡ some j
    → find_job k (enqueue_job id now organization type payload priority rows).1 ≡ some j
unfolding enqueue_job find_job
enqueue-untouched id now organization type payload priority k rows j fresh e =
    ground (arith, find_job-Absent id rows fresh)

-- The operation does not match the row.
abbrev Misses : Op → BackgroundJob → Type 0
Misses (enqueue id now organization type payload priority) j = Unit
Misses (claim token now locked worker lease) j = j.status ≢ queued
Misses (complete id worker token now) j = holds id worker token now j ≡ false
Misses (heartbeat id worker token lease now) j = holds id worker token now j ≡ false
Misses (fail id worker token code summary fingerprint now) j = holds id worker token now j ≡ false
Misses (recover now) j = is_expired now j ≡ false

apply-untouched :
    (loads : String → Option Json) (op : Op) (k : ℕ) (rows : Rows) (j : BackgroundJob)
    → UniqueIds rows
    → IsFresh op rows
    → find_job k rows ≡ some j
    → Misses op j
    → find_job k (apply loads op rows) ≡ some j
unfolding apply complete_job_with_fence heartbeat_job_with_fence fail_job_with_fence
    recover_expired_jobs
apply-untouched loads (enqueue id now organization type payload priority) k rows j u fresh e m =
    enqueue-untouched id now organization type payload priority k rows j fresh e
apply-untouched loads (claim token now locked worker lease) k rows j u fresh e m =
    claim-untouched loads token now locked worker lease k rows j u e m
apply-untouched loads (complete id worker token now) k rows j u fresh e m =
    fenced-untouched id worker token now (set_completed now) k rows j
      (unfold set_completed in λ i. refl) u e m
apply-untouched loads (heartbeat id worker token lease now) k rows j u fresh e m =
    fenced-untouched id worker token now (set_lease lease now) k rows j
      (unfold set_lease in λ i. refl) u e m
apply-untouched loads (fail id worker token code summary fingerprint now) k rows j u fresh e m =
    ground (
      arith,
      fenced-untouched id worker token now (set_retried now code summary fingerprint) k rows j
          (unfold set_retried in λ i. refl) u e m,
    )
apply-untouched loads (recover now) k rows j u fresh e m =
    find_job-untouched (is_expired now) (set_recovered now) k rows j
      (unfold set_recovered in λ i. refl) e m

-- No statement but one with the row's token matches a row whose lease is open.
leased-Misses :
    (op : Op) (j : BackgroundJob) (expires : ℕ)
    → j.status ≡ running
    → j.lock_expires_at ≡ some expires
    → time op ≤ expires
    → ¬ CarriesToken op j
    → Misses op j
leased-Misses (enqueue id now organization type payload priority) j expires r l t other = tt
leased-Misses (claim token now locked worker lease) j expires r l t other = ground arith
leased-Misses (complete id worker token now) j expires r l t other =
    holds-carries id worker token now j other
leased-Misses (heartbeat id worker token lease now) j expires r l t other =
    holds-carries id worker token now j other
leased-Misses (fail id worker token code summary fingerprint now) j expires r l t other =
    holds-carries id worker token now j other
leased-Misses (recover now) j expires r l t other = unfold is_expired in ground arith

final-Misses : (op : Op) (j : BackgroundJob) → j.status ≢ queued → j.status ≢ running → Misses op j
final-Misses (enqueue id now organization type payload priority) j q r = tt
final-Misses (claim token now locked worker lease) j q r = q
final-Misses (complete id worker token now) j q r = holds-not_running id worker token now j r
final-Misses (heartbeat id worker token lease now) j q r = holds-not_running id worker token now j r
final-Misses (fail id worker token code summary fingerprint now) j q r =
    holds-not_running id worker token now j r
final-Misses (recover now) j q r = unfold is_expired in ground arith

-- Every operation of the history meets the predicate, at the rows where it runs.
abbrev pub AllOps : (Op → Type 0) → List Op → Type 0
AllOps P [] = Unit
AllOps P (op ∷ ops) = P op × AllOps P ops

AllOps-map :
    (P Q : Op → Type 0) (ops : List Op) → ((op : Op) → P op → Q op) → AllOps P ops → AllOps Q ops
AllOps-map P Q [] f h = tt
AllOps-map P Q (op ∷ ops) f h = (f op h.0, AllOps-map P Q ops f h.1)

AllOps-all : (P : Op → Type 0) (ops : List Op) → ((op : Op) → P op) → AllOps P ops
AllOps-all P [] f = tt
AllOps-all P (op ∷ ops) f = (f op, AllOps-all P ops f)

module _ (loads : String → Option Json) (k : ℕ) (j : BackgroundJob) where
  run-untouched :
      (ops : List Op) (rows : Rows)
      → IsFreshRun loads ops rows
      → IsValid rows
      → find_job k rows ≡ some j
      → AllOps (λ op. Misses op j) ops
      → find_job k (run loads ops rows) ≡ some j
  unfolding run
  run-untouched [] rows fresh v e m = e
  run-untouched (op ∷ ops) rows fresh v e m =
      run-untouched ops (apply loads op rows) fresh.1 (apply-IsValid loads op rows fresh.0 v)
        (apply-untouched loads op k rows j v.unique fresh.0 e m.0) m.1

-- While a lease is open only its holder changes the row: a running row keeps all its columns
-- through any history of statements that read the clock no later than the lease expires and that
-- are not fenced statements on the row with its own token, whichever workers run them.
pub lease_protects :
    (loads : String → Option Json) (ops : List Op) (rows : Rows) (k : ℕ) (j : BackgroundJob)
    (expires : ℕ)
    → IsFreshRun loads ops rows
    → IsValid rows
    → find_job k rows ≡ some j
    → j.status ≡ running
    → j.lock_expires_at ≡ some expires
    → AllOps (λ op. (time op ≤ expires) × (¬ CarriesToken op j)) ops
    → find_job k (run loads ops rows) ≡ some j
lease_protects loads ops rows k j expires fresh v e r l within =
    run-untouched loads k j ops rows fresh v e
      (AllOps-map _ _ ops (λ op h. leased-Misses op j expires r l h.0 h.1) within)

-- A completed or failed job is final: no history of statements changes its row again.
pub final_kept :
    (loads : String → Option Json) (ops : List Op) (rows : Rows) (k : ℕ) (j : BackgroundJob)
    → IsFreshRun loads ops rows
    → IsValid rows
    → find_job k rows ≡ some j
    → (j.status ≡ completed) ⊎ (j.status ≡ failed)
    → find_job k (run loads ops rows) ≡ some j
final_kept loads ops rows k j fresh v e final =
    run-untouched loads k j ops rows fresh v e
      (AllOps-all _ ops (λ op. final-Misses op j (ground arith) (ground arith)))
