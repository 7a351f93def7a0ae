-- ===== src/Jobs/Queue/Holder.antt =====
-- The fence: who passes it, and what happens to who does not.
use agentledger_mvp_v.Base.{
  ℕ, String, ◌≡◌, refl, ◌≢◌, ◌↔◌, Bool, true, false, Option, none, some, [], ◌∷◌, arith, ◌==◌,
  Bool-cases, ==_iff, inl, inr, str_eq, str_eq_iff, ap, ◌<◌, ltb, ==_refl,
}
use agentledger_mvp_v.Base.Result.{ok, err}
use agentledger_mvp_v.Jobs.Model.{BackgroundJob, running}
use agentledger_mvp_v.Jobs.Table.{rowcount}
use agentledger_mvp_v.Jobs.Queue.{
  Rows, fenced, holds, complete_job_with_fence, set_completed, heartbeat_job_with_fence, is_text,
  is_ℕ, is_after, set_lease, fail_job_with_fence, set_retried, lost_job_lease,
}
use agentledger_mvp_v.Jobs.Queue.Find.{find_job, UniqueIds, rowcount-Absent, find_job-id}
use agentledger_mvp_v.Jobs.Queue.Lifecycle.{holds-running}

-- A row that the worker holds under this token, with an open lease.
abbrev pub Holds : String → Option ℕ → ℕ → BackgroundJob → Type 0
Holds worker token now j =
    (j.status ≡ running)
    × (j.locked_by ≡ some worker)
    × ((t : ℕ) × (token ≡ some t) × (j.claim_token ≡ some t))
    × ((u : ℕ) × (j.lock_expires_at ≡ some u) × (now < u))

abbrev pub Held : ℕ → String → Option ℕ → ℕ → Rows → Type 0
Held id worker token now rows =
    (j : BackgroundJob) × (find_job id rows ≡ some j) × Holds worker token now j

-- The same by the test of the code.
abbrev HeldRow : ℕ → String → Option ℕ → ℕ → Rows → Type 0
HeldRow id worker token now rows =
    (j : BackgroundJob) × (find_job id rows ≡ some j) × (holds id worker token now j ≡ true)

is_text-eq : (o : Option String) (s : String) → is_text o s ≡ true → o ≡ some s
is_text-eq none s h = absurd (cc)
is_text-eq (some t) s h = ap some ((str_eq_iff t s).0 h)

is_text_refl : (s : String) → is_text (some s) s ≡ true
is_text_refl s = (str_eq_iff s s).1 refl

is_ℕ-eq : (o : Option ℕ) (n : ℕ) → is_ℕ o n ≡ true → o ≡ some n
is_ℕ-eq none n h = absurd (cc)
is_ℕ-eq (some t) n h = ap some ((==_iff t n).0 h)

is_after-some : (o : Option ℕ) (n : ℕ) → is_after o n ≡ true → (u : ℕ) × (o ≡ some u) × (n < u)
is_after-some none n h = absurd (cc)
is_after-some (some u) n h = (u, refl, ground arith)

holds-Holds :
    (id : ℕ) (worker : String) (token : Option ℕ) (now : ℕ) (j : BackgroundJob)
    → holds id worker token now j ≡ true
    → Holds worker token now j
unfolding holds
holds-Holds id worker none now j h = absurd (cc)
holds-Holds id worker (some token) now j h = (
  ground arith,
  is_text-eq j.locked_by worker (ground arith),
  (token, refl, is_ℕ-eq j.claim_token token (ground arith)),
  is_after-some j.lock_expires_at now (ground arith),
)

Holds-holds :
    (id : ℕ) (worker : String) (token : Option ℕ) (now : ℕ) (j : BackgroundJob)
    → j.id ≡ id
    → Holds worker token now j
    → holds id worker token now j ≡ true
unfolding holds
Holds-holds id worker token now j e (r, w, (t, p, q), (u, x, l)) =
    let lease : ltb now u ≡ true = ground arith in
    rw (p, e, r, w, q, x, lease, ==_refl id, ==_refl t, is_text_refl worker)

module _ (p : BackgroundJob → Bool) (k : ℕ)
    (only : (j : BackgroundJob) → p j ≡ true → j.id ≡ k) where
  rowcount_found :
      (rows : Rows) (j : BackgroundJob)
      → UniqueIds rows
      → find_job k rows ≡ some j
      → p j ≡ true
      → rowcount p rows ≡ 1
  unfolding rowcount find_job
  rowcount_found [] j u e h = cc
  rowcount_found (i ∷ rows) j u e h = elim (Bool-cases (i.id == k)) [
    | inl here ↦
        let same : i ≡ j = ground arith in
        let key : i.id ≡ k = (==_iff i.id k).0 here in
        let z : rowcount p rows ≡ 0 =
          rowcount-Absent p i.id rows (λ x q. ground (arith, only x q)) u.0 in
        ground (arith, z)
    | inr there ↦ ground (arith, only i, rowcount_found rows j u.1 (ground arith) h)
  ]

  rowcount_finds :
      (rows : Rows)
      → UniqueIds rows
      → rowcount p rows ≡ 1
      → (j : BackgroundJob) × (find_job k rows ≡ some j) × (p j ≡ true)
  unfolding rowcount find_job
  rowcount_finds [] u h = absurd (omega arith)
  rowcount_finds (i ∷ rows) u h = elim (Bool-cases (p i)) [
    | inl e ↦ (i, ground (arith, only i e), e)
    | inr e ↦ elim (Bool-cases (i.id == k)) [
      | inl here ↦
          let key : i.id ≡ k = (==_iff i.id k).0 here in
          let z : rowcount p rows ≡ 0 =
            rowcount-Absent p i.id rows (λ x q. ground (arith, only x q)) u.0 in
          absurd (ground arith)
      | inr there ↦ let (j, f, q) = rowcount_finds rows u.1 (rw e at h) in (j, rw there f, q)
    ]
  ]

pub fenced-HeldRow :
    (id : ℕ) (worker : String) (token : Option ℕ) (now : ℕ) (f : BackgroundJob → BackgroundJob)
    (rows : Rows)
    → UniqueIds rows
    → ((fenced (holds id worker token now) f id rows).0 ≡ ok tt) ↔ HeldRow id worker token now rows
unfolding fenced
fenced-HeldRow id worker token now f rows u = (
  (λ h. rowcount_finds p id only rows u (ground arith)),
  λ (j, e, q). ground (arith, rowcount_found p id only rows j u e q),
)
  where
    p : BackgroundJob → Bool
    p = holds id worker token now

    only : (j : BackgroundJob) → p j ≡ true → j.id ≡ id
    only j h = (holds-running id worker token now j h).0

fenced-Held :
    (id : ℕ) (worker : String) (token : Option ℕ) (now : ℕ) (f : BackgroundJob → BackgroundJob)
    (rows : Rows)
    → UniqueIds rows
    → ((fenced (holds id worker token now) f id rows).0 ≡ ok tt) ↔ Held id worker token now rows
fenced-Held id worker token now f rows u = (
  (λ h. let (j, e, q) = row.0 h in (j, e, holds-Holds id worker token now j q)),
  λ (j, e, q). row.1 (j, e, Holds-holds id worker token now j (find_job-id id rows j e) q),
)
  where
    row :
        ((fenced (holds id worker token now) f id rows).0 ≡ ok tt)
        ↔ HeldRow id worker token now rows
    row = fenced-HeldRow id worker token now f rows u

pub fenced-rejected :
    (p : BackgroundJob → Bool) (f : BackgroundJob → BackgroundJob) (id : ℕ) (rows : Rows)
    → (fenced p f id rows).0 ≢ ok tt
    → fenced p f id rows ≡ (err (lost_job_lease id), rows)
unfolding fenced
fenced-rejected p f id rows h = ground arith

pub fail-fenced :
    (id : ℕ) (worker : String) (token : Option ℕ) (now : ℕ) (code summary fingerprint : String)
    (rows : Rows)
    → str_eq code "" ≡ false
    → str_eq summary "" ≡ false
    → str_eq fingerprint "" ≡ false
    → fail_job_with_fence id worker token code summary fingerprint now rows
      ≡ fenced (holds id worker token now) (set_retried now code summary fingerprint) id rows
unfolding fail_job_with_fence
fail-fenced id worker token now code summary fingerprint rows c s f = rw (c, s, f)

-- Completing, extending the lease of and failing a job succeed exactly for the worker that holds it
-- under its current token with an open lease, on a table with unique keys. A failure is reported
-- with a code, a summary and a fingerprint that are not empty.
pub fence_exact :
    (id : ℕ) (worker : String) (token : Option ℕ) (lease now : ℕ)
    (code summary fingerprint : String) (rows : Rows)
    → UniqueIds rows
    → str_eq code "" ≡ false
    → str_eq summary "" ≡ false
    → str_eq fingerprint "" ≡ false
    → (((complete_job_with_fence id worker token now rows).0 ≡ ok tt)
        ↔ Held id worker token now rows)
      × (((heartbeat_job_with_fence id worker token lease now rows).0 ≡ ok tt)
          ↔ Held id worker token now rows)
      × (((fail_job_with_fence id worker token code summary fingerprint now rows).0 ≡ ok tt)
          ↔ Held id worker token now rows)
unfolding complete_job_with_fence heartbeat_job_with_fence
fence_exact id worker token lease now code summary fingerprint rows u c s f =
    rw (fail-fenced id worker token now code summary fingerprint rows c s f) (
      fenced-Held id worker token now (set_completed now) rows u,
      fenced-Held id worker token now (set_lease lease now) rows u,
      fenced-Held id worker token now (set_retried now code summary fingerprint) rows u,
    )

-- Who does not hold the job gets `LostJobLease` from all three statements, and nothing changes.
pub fence_rejects :
    (id : ℕ) (worker : String) (token : Option ℕ) (lease now : ℕ)
    (code summary fingerprint : String) (rows : Rows)
    → UniqueIds rows
    → str_eq code "" ≡ false
    → str_eq summary "" ≡ false
    → str_eq fingerprint "" ≡ false
    → ¬ Held id worker token now rows
    → (complete_job_with_fence id worker token now rows ≡ (err (lost_job_lease id), rows))
      × (heartbeat_job_with_fence id worker token lease now rows ≡ (err (lost_job_lease id), rows))
      × (fail_job_with_fence id worker token code summary fingerprint now rows
          ≡ (err (lost_job_lease id), rows))
unfolding complete_job_with_fence heartbeat_job_with_fence
fence_rejects id worker token lease now code summary fingerprint rows u c s f none_holds =
    rw (fail-fenced id worker token now code summary fingerprint rows c s f) (
      lost (set_completed now),
      lost (set_lease lease now),
      lost (set_retried now code summary fingerprint),
    )
  where
    lost :
        (g : BackgroundJob → BackgroundJob)
        → fenced (holds id worker token now) g id rows ≡ (err (lost_job_lease id), rows)
    lost g =
        fenced-rejected (holds id worker token now) g id rows
          (λ h. none_holds ((fenced-Held id worker token now g rows u).0 h))
