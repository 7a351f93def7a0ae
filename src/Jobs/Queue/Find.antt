-- ===== src/Jobs/Queue/Find.antt =====
-- The row of a job, and what the statements do to it. The identifier is the table's primary key.
use agentledger_mvp_v.Base.{
  ℕ, ◌≤◌, ◌≡◌, refl, ◌≢◌, Bool, true, Option, none, some, [], ◌∷◌, All, arith, ◌==◌, if◌then◌else◌,
  Bool-cases, ==_iff, inl, inr,
}
use agentledger_mvp_v.Jobs.Model.{BackgroundJob}
use agentledger_mvp_v.Jobs.Table.{update, rowcount, update-rowcount_zero}
use agentledger_mvp_v.Jobs.Queue.{Rows, fenced, has_id, is_candidate, candidate}

-- `objects.filter(id=k).first()`
unfoldable pub find_job : ℕ → Rows → Option BackgroundJob
find_job k [] = none
find_job k (j ∷ rows) = if j.id == k then some j else find_job k rows

abbrev pub Absent : ℕ → Rows → Type 0
Absent k rows = All (λ (j : BackgroundJob). j.id ≢ k) rows

-- The primary key of the table.
abbrev pub UniqueIds : Rows → Type 0
UniqueIds [] = Unit
UniqueIds (j ∷ rows) = Absent j.id rows × UniqueIds rows

-- An update as one row sees it.
abbrev pub touch :
    (BackgroundJob → Bool) → (BackgroundJob → BackgroundJob) → BackgroundJob → BackgroundJob
touch p f j = if p j then f j else j

module _ (p : BackgroundJob → Bool) where
  pub rowcount-Absent :
      (k : ℕ) (rows : Rows)
      → ((j : BackgroundJob) → p j ≡ true → j.id ≡ k)
      → Absent k rows
      → rowcount p rows ≡ 0
  unfolding rowcount
  rowcount-Absent k [] only h = refl
  rowcount-Absent k (i ∷ rows) only h = ground (arith, only i, rowcount-Absent k rows only h.1)

  -- A statement that names the key touches one row at most.
  pub rowcount_key :
      (k : ℕ) (rows : Rows)
      → ((j : BackgroundJob) → p j ≡ true → j.id ≡ k)
      → UniqueIds rows
      → rowcount p rows ≤ 1
  unfolding rowcount
  rowcount_key k [] only h = omega arith
  rowcount_key k (i ∷ rows) only h = elim (Bool-cases (p i)) [
    | inl e ↦
        let z : rowcount p rows ≡ 0 =
          rowcount-Absent i.id rows (λ j q. ground (arith, only j q, only i e)) h.0 in
        rw (e, z) (omega arith)
    | inr e ↦ rw e (rowcount_key k rows only h.1)
  ]

module _ (p : BackgroundJob → Bool) (f : BackgroundJob → BackgroundJob) where
  module _ (keeps : (j : BackgroundJob) → (f j).id ≡ j.id) where
    pub touch-id : (j : BackgroundJob) → (touch p f j).id ≡ j.id
    touch-id j = ground (arith, keeps j)

    pub find_job-update :
        (k : ℕ) (rows : Rows) (j : BackgroundJob)
        → find_job k rows ≡ some j
        → find_job k (update p f rows) ≡ some (touch p f j)
    unfolding find_job update
    find_job-update k [] j h = cc
    find_job-update k (i ∷ rows) j h = ground (arith, keeps i, find_job-update k rows j)

    pub Absent-update : (k : ℕ) (rows : Rows) → Absent k rows → Absent k (update p f rows)
    unfolding update
    Absent-update k [] h = tt
    Absent-update k (i ∷ rows) h = (rw (touch-id i) h.0, Absent-update k rows h.1)

    pub UniqueIds-update : (rows : Rows) → UniqueIds rows → UniqueIds (update p f rows)
    unfolding update
    UniqueIds-update [] h = tt
    UniqueIds-update (i ∷ rows) h =
        (rw (touch-id i) (Absent-update i.id rows h.0), UniqueIds-update rows h.1)

  -- So a fenced statement leaves what a plain update would, whether or not it raises.
  pub fenced-rows :
      (k : ℕ) (rows : Rows)
      → ((j : BackgroundJob) → p j ≡ true → j.id ≡ k)
      → UniqueIds rows
      → (fenced p f k rows).1 ≡ update p f rows
  unfolding fenced
  fenced-rows k rows only h =
      ground (arith, rowcount_key p k rows only h, update-rowcount_zero p f rows)

pub find_job-Absent : (k : ℕ) (rows : Rows) → Absent k rows → find_job k rows ≡ none
unfolding find_job
find_job-Absent k [] h = refl
find_job-Absent k (i ∷ rows) h = ground (arith, find_job-Absent k rows h.1)

pub find_job-id : (k : ℕ) (rows : Rows) (j : BackgroundJob) → find_job k rows ≡ some j → j.id ≡ k
unfolding find_job
find_job-id k [] j h = cc
find_job-id k (i ∷ rows) j h = ground (arith, find_job-id k rows j)

-- What is claimed was a candidate.
pub candidate-is_candidate :
    (now : ℕ) (locked : ℕ → Bool) (rows : Rows) (j : BackgroundJob)
    → candidate now locked rows ≡ some j
    → is_candidate now locked j ≡ true
unfolding candidate
candidate-is_candidate now locked [] j h = cc
candidate-is_candidate now locked (i ∷ rows) j h =
    ground (arith, candidate-is_candidate now locked rows j)

pub candidate-Absent :
    (now : ℕ) (locked : ℕ → Bool) (k : ℕ) (rows : Rows) (j : BackgroundJob)
    → candidate now locked rows ≡ some j
    → Absent k rows
    → j.id ≢ k
unfolding candidate
candidate-Absent now locked k [] j h a = cc
candidate-Absent now locked k (i ∷ rows) j h a =
    ground (arith, candidate-Absent now locked k rows j)

pub find_job-candidate :
    (now : ℕ) (locked : ℕ → Bool) (rows : Rows) (j : BackgroundJob)
    → candidate now locked rows ≡ some j
    → UniqueIds rows
    → find_job j.id rows ≡ some j
unfolding candidate find_job
find_job-candidate now locked [] j h u = cc
find_job-candidate now locked (i ∷ rows) j h u =
    ground (arith, find_job-candidate now locked rows j, candidate-Absent now locked i.id rows j)

pub update-Absent :
    (f : BackgroundJob → BackgroundJob) (k : ℕ) (rows : Rows)
    → Absent k rows
    → update (has_id k) f rows ≡ rows
unfolding update
update-Absent f k [] h = refl
update-Absent f k (i ∷ rows) h = ground (arith, update-Absent f k rows h.1)

-- An update by the key needs to keep what holds of that one row.
pub All-update_key {κ} :
    (P : BackgroundJob → Type κ) (f : BackgroundJob → BackgroundJob) (k : ℕ) (rows : Rows)
    (j : BackgroundJob)
    → UniqueIds rows
    → find_job k rows ≡ some j
    → (P j → P (f j))
    → All P rows
    → All P (update (has_id k) f rows)
unfolding update find_job
All-update_key P f k [] j u e keep h = tt
All-update_key P f k (i ∷ rows) j u e keep h = elim (Bool-cases (i.id == k)) [
  | inl here ↦
      let same : i.id ≡ k = (==_iff i.id k).0 here in
      let e' : i ≡ j = ground arith in
      let kept : P (f i) = rw e' (keep (rw (← e') h.0)) in
      rw here (kept, rw (update-Absent f k rows (rw (← same) u.0)) h.1)
  | inr there ↦ rw there (h.0, All-update_key P f k rows j u.1 (ground arith) keep h.1)
]
