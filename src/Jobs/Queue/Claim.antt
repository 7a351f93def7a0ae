-- ===== src/Jobs/Queue/Claim.antt =====
-- What a claim takes: the first of the waiting jobs, and nothing else.
use agentledger_mvp_v.Base.{
  ℕ, ◌+◌, String, ◌≡◌, refl, subst, ◌≢◌, Bool, true, false, Option, none, some, [], ◌∷◌, All, arith,
  Bool-cases, Option-cases, ==_refl, sym, ◌∙◌, inl, inr,
}
use agentledger_mvp_v.Base.Json.{Json}
use agentledger_mvp_v.Base.Result.{ok}
use agentledger_mvp_v.Jobs.Model.{BackgroundJob, running}
use agentledger_mvp_v.Jobs.Table.{update}
use agentledger_mvp_v.Jobs.Queue.{
  Rows, ClaimedJob, claim_next_job, claimed_job, has_id, set_claimed, candidate, is_candidate,
  precedes,
}
use agentledger_mvp_v.Jobs.Queue.Find.{
  find_job, UniqueIds, find_job-update, candidate-is_candidate, find_job-candidate,
}

precedes_asym : (a b : BackgroundJob) → precedes a b ≡ true → precedes b a ≡ false
unfolding precedes
precedes_asym a b h = ground arith

precedes_irrefl : (a : BackgroundJob) → precedes a a ≡ false
unfolding precedes
precedes_irrefl a = ground arith

-- `precedes` is a strict weak order: what does not precede is as late.
precedes_late :
    (a b c : BackgroundJob) → precedes a b ≡ false → precedes b c ≡ false → precedes a c ≡ false
unfolding precedes
precedes_late a b c h k = ground arith

abbrev pub NotBefore : ℕ → (ℕ → Bool) → BackgroundJob → BackgroundJob → Type 0
NotBefore now locked j i = is_candidate now locked i ≡ true → precedes i j ≡ false

NotBefore-later :
    (now : ℕ) (locked : ℕ → Bool) (j k : BackgroundJob) (rows : Rows)
    → precedes k j ≡ false
    → All (NotBefore now locked k) rows
    → All (NotBefore now locked j) rows
NotBefore-later now locked j k [] late h = tt
NotBefore-later now locked j k (i ∷ rows) late h =
    ((λ c. precedes_late i k j (h.0 c) late), NotBefore-later now locked j k rows late h.1)

candidate-none :
    (now : ℕ) (locked : ℕ → Bool) (rows : Rows)
    → candidate now locked rows ≡ none
    → All (λ (i : BackgroundJob). is_candidate now locked i ≡ false) rows
unfolding candidate
candidate-none now locked [] h = tt
candidate-none now locked (i ∷ rows) h = ground (arith, candidate-none now locked rows)

candidate-none_of_All :
    (now : ℕ) (locked : ℕ → Bool) (j : BackgroundJob) (rows : Rows)
    → All (λ (i : BackgroundJob). is_candidate now locked i ≡ false) rows
    → All (NotBefore now locked j) rows
candidate-none_of_All now locked j [] h = tt
candidate-none_of_All now locked j (i ∷ rows) h =
    ((λ c. cc (h.0, c)), candidate-none_of_All now locked j rows h.1)

candidate-first :
    (now : ℕ) (locked : ℕ → Bool) (rows : Rows) (j : BackgroundJob)
    → candidate now locked rows ≡ some j
    → All (NotBefore now locked j) rows
unfolding candidate
candidate-first now locked [] j h = cc
candidate-first now locked (i ∷ rows) j h = elim (Bool-cases (is_candidate now locked i)) [
  | inr skipped ↦ ((λ c. cc (skipped, c)), candidate-first now locked rows j (rw skipped at h))
  | inl eligible ↦ elim (Option-cases (candidate now locked rows)) [
    | inl e ↦
        let same : i ≡ j = ground arith in
        (
          (λ c. ground (arith, precedes_irrefl j, same)),
          candidate-none_of_All now locked j rows (candidate-none now locked rows e),
        )
    | inr (k, e) ↦ elim (Bool-cases (precedes k i)) [
      | inl earlier ↦
          let same : k ≡ j = ground arith in
          (
            (λ c. rw (← same) (precedes_asym k i earlier)),
            subst (λ x. All (NotBefore now locked x) rows) same
                (candidate-first now locked rows k e),
          )
      | inr later ↦
          let same : i ≡ j = ground arith in
          (
            (λ c. ground (arith, precedes_irrefl j, same)),
            subst (λ x. All (NotBefore now locked x) rows) same
                (NotBefore-later now locked i k rows later (candidate-first now locked rows k e)),
          )
    ]
  ]
]

-- The row of a job that `worker` holds until `now + lease` after one more attempt, and that is otherwise
-- the row `taken`.
pub record Leased (token now : ℕ) (worker : String) (lease : ℕ) (taken held : BackgroundJob)
    : Type 0 where
  pub runs : held.status ≡ running
  pub by_worker : held.locked_by ≡ some worker
  pub since : held.locked_at ≡ some now
  pub until : held.lock_expires_at ≡ some (now + lease)
  pub under_token : held.claim_token ≡ some token
  pub one_more : held.attempts ≡ taken.attempts + 1
  pub same_job :
      (held.id ≡ taken.id)
      × (held.organization_id ≡ taken.organization_id)
      × (held.job_type ≡ taken.job_type)
      × (held.payload ≡ taken.payload)
      × (held.priority ≡ taken.priority)
      × (held.available_at ≡ taken.available_at)
      × (held.created_at ≡ taken.created_at)
      × (held.completed_at ≡ taken.completed_at)
  pub same_error :
      (held.error_code ≡ taken.error_code)
      × (held.safe_error_summary ≡ taken.safe_error_summary)
      × (held.error_fingerprint ≡ taken.error_fingerprint)

set_claimed-Leased :
    (token now : ℕ) (worker : String) (lease : ℕ) (j : BackgroundJob)
    → Leased token now worker lease j (set_claimed worker token lease now j)
unfolding set_claimed
set_claimed-Leased token now worker lease j = record {
  runs = refl;
  by_worker = refl;
  since = refl;
  until = refl;
  under_token = refl;
  one_more = refl;
  same_job = (refl, refl, refl, refl, refl, refl, refl, refl);
  same_error = (refl, refl, refl);
}

-- What a claim did to the rows: it took the row `taken` and left the row `held`.
pub record Claims (token now : ℕ) (locked : ℕ → Bool) (worker : String) (lease : ℕ)
    (rows rows' : Rows) (c : ClaimedJob) : Type 0 where
  pub taken : BackgroundJob
  pub was_there : find_job c.id rows ≡ some taken
  pub was_candidate : is_candidate now locked taken ≡ true
  pub first : All (NotBefore now locked taken) rows
  pub held : BackgroundJob
  pub is_held : find_job c.id rows' ≡ some held
  pub is_leased : Leased token now worker lease taken held
  pub others_kept : (k : ℕ) → k ≢ c.id → find_job k rows' ≡ find_job k rows
  pub counted : c.attempts ≡ taken.attempts + 1
  pub with_token : c.claim_token ≡ some token

claimed_job-fields :
    (loads : String → Option Json) (j : BackgroundJob) (c : ClaimedJob)
    → claimed_job loads j ≡ ok c
    → (c.id ≡ j.id) × (c.attempts ≡ j.attempts) × (c.claim_token ≡ j.claim_token)
unfolding claimed_job
claimed_job-fields loads j c h = ground arith

-- What an update by the key leaves of the other rows.
find_job-update_ne :
    (f : BackgroundJob → BackgroundJob) (k n : ℕ) (rows : Rows)
    → ((j : BackgroundJob) → (f j).id ≡ j.id)
    → k ≢ n
    → find_job k (update (has_id n) f rows) ≡ find_job k rows
unfolding find_job update
find_job-update_ne f k n [] keeps ne = refl
find_job-update_ne f k n (i ∷ rows) keeps ne =
    ground (arith, keeps i, find_job-update_ne f k n rows keeps ne)

-- A claim that returns a job has taken the first waiting one in the order of priority, time and
-- key that no other transaction holds, counts the attempt, leaves the row running under the new
-- token until the lease ends, with all else in it as it was, and leaves all other rows alone.
pub claim_takes_first :
    (loads : String → Option Json) (token now : ℕ) (locked : ℕ → Bool) (worker : String) (lease : ℕ)
    (rows : Rows) (c : ClaimedJob)
    → UniqueIds rows
    → (claim_next_job loads token now locked worker lease rows).0 ≡ ok (some c)
    → Claims token now locked worker lease rows
        (claim_next_job loads token now locked worker lease rows).1
        c
unfolding claim_next_job
claim_takes_first loads token now locked worker lease rows c u h =
    elim (Option-cases (candidate now locked rows)) [
      | inl e ↦ absurd (ground arith)
      | inr (j, e) ↦
          let f = set_claimed worker token lease now in
          let made : claimed_job loads (f j) ≡ ok c = ground arith in
          let (same, count, tok) = claimed_job-fields loads (f j) c made in
          let key : c.id ≡ j.id = unfold set_claimed in same in
          let there : find_job j.id rows ≡ some j = find_job-candidate now locked rows j e u in
          rw (e, claim_next_job)
            (record {
              taken = j;
              was_there = rw key there;
              was_candidate = candidate-is_candidate now locked rows j e;
              first = candidate-first now locked rows j e;
              held = f j;
              is_leased = set_claimed-Leased token now worker lease j;
              is_held = rw (
                key,
                find_job-update (has_id j.id) f (unfold set_claimed in λ i. refl) j.id rows j there,
                ==_refl j.id,
              );
              others_kept = λ k ne.
                  find_job-update_ne f k j.id rows (unfold set_claimed in λ i. refl)
                    (λ q. ne (q ∙ sym key));
              counted = unfold set_claimed in count;
              with_token = unfold set_claimed in tok;
            })
    ]

-- A claim that returns no job finds no waiting row that it may take, and writes nothing.
pub claim_none :
    (loads : String → Option Json) (token now : ℕ) (locked : ℕ → Bool) (worker : String) (lease : ℕ)
    (rows : Rows)
    → (claim_next_job loads token now locked worker lease rows).0 ≡ ok none
    → All (λ (i : BackgroundJob). is_candidate now locked i ≡ false) rows
      × ((claim_next_job loads token now locked worker lease rows).1 ≡ rows)
unfolding claim_next_job
claim_none loads token now locked worker lease rows h =
    elim (Option-cases (candidate now locked rows)) [
      | inl e ↦ (candidate-none now locked rows e, rw (e, claim_next_job))
      | inr (j, e) ↦ absurd (ground arith)
    ]
