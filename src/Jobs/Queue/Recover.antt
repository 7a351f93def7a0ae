-- ===== src/Jobs/Queue/Recover.antt =====
-- `recover_expired_jobs`, against the fence.
use agentledger_mvp_v.Base.{
  ℕ, String, ◌≡◌, refl, true, false, Option, none, some, [], ◌∷◌, All, All-imp, arith, ◌<◌, ◌⊎◌,
  Bool-cases, inl, inr,
}
use agentledger_mvp_v.Jobs.Model.{BackgroundJob, running}
use agentledger_mvp_v.Jobs.Table.{update}
use agentledger_mvp_v.Jobs.Queue.{Rows, holds, is_expired, set_recovered, recover_expired_jobs}

holds-not_expired :
    (id : ℕ) (worker : String) (token : Option ℕ) (now : ℕ) (j : BackgroundJob)
    → holds id worker token now j ≡ true
    → is_expired now j ≡ false
unfolding holds is_expired
holds-not_expired id worker none now j h = cc
holds-not_expired id worker (some t) now j h = ground arith

set_recovered-not_expired :
    (now : ℕ) (j : BackgroundJob) → is_expired now (set_recovered now j) ≡ false
unfolding is_expired set_recovered
set_recovered-not_expired now j = ground arith

none_expired :
    (now : ℕ) (rows : Rows)
    → All
        (λ (i : BackgroundJob). is_expired now i ≡ false)
        (update (is_expired now) (set_recovered now) rows)
unfolding update
none_expired now [] = tt
none_expired now (i ∷ rows) = elim (Bool-cases (is_expired now i)) [
  | inl e ↦ rw e (set_recovered-not_expired now i, none_expired now rows)
  | inr e ↦ rw e (e, none_expired now rows)
]

-- A running job whose lease ended before `now`.
abbrev pub IsOverdue : ℕ → BackgroundJob → Type 0
IsOverdue now j = (j.status ≡ running) × ((t : ℕ) × (j.lock_expires_at ≡ some t) × (t < now))

not_expired-IsOverdue : (now : ℕ) (j : BackgroundJob) → is_expired now j ≡ false → ¬ IsOverdue now j
unfolding is_expired
not_expired-IsOverdue now j h (r, (t, e, lt)) =
    let z = rw (r, e, is_expired) at h in absurd (ground (arith, z, lt))

-- Row by row: whatever session `worker` holds the row under `token`, it stays as it was.
abbrev pub HeldKept : ℕ → String → Option ℕ → ℕ → Rows → Rows → Type 0
HeldKept id worker token now [] [] = Unit
HeldKept id worker token now (i ∷ rows) (k ∷ rows') =
    ((holds id worker token now i ≡ false) ⊎ (k ≡ i)) × HeldKept id worker token now rows rows'
HeldKept id worker token now _ _ = ⊥

update-HeldKept :
    (id : ℕ) (worker : String) (token : Option ℕ) (now : ℕ) (rows : Rows)
    → HeldKept id worker token now rows (update (is_expired now) (set_recovered now) rows)
unfolding update
update-HeldKept id worker token now [] = tt
update-HeldKept id worker token now (i ∷ rows) =
    let rest = update-HeldKept id worker token now rows in
    elim (Bool-cases (holds id worker token now i)) [
      | inl h ↦ rw (holds-not_expired id worker token now i h) (inr refl, rest)
      | inr h ↦ (inl h, rest)
    ]

-- Recovery leaves no running job whose lease ended before, and takes a job from nobody who could still
-- pass its fence: the rows stay in place, and a row that is held is as it was.
pub recover_exact :
    (id : ℕ) (worker : String) (token : Option ℕ) (now : ℕ) (rows : Rows)
    → All (λ i. ¬ IsOverdue now i) (recover_expired_jobs now rows).1
      × HeldKept id worker token now rows (recover_expired_jobs now rows).1
unfolding recover_expired_jobs
recover_exact id worker token now rows = (
  All-imp (not_expired-IsOverdue now) _ (none_expired now rows),
  update-HeldKept id worker token now rows,
)
