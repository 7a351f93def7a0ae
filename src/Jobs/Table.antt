-- ===== src/Jobs/Table.antt =====
-- PostgreSQL's `UPDATE … SET … WHERE …` on the rows of a table, and the row count that the cursor
-- reports.
use agentledger_mvp_v.Base.{
  ℕ, suc, ◌≡◌, refl, Bool, true, List, [], ◌∷◌, All, arith, if◌then◌else◌, Bool-cases, inl, inr,
}

module _ {ℓ} {A : Type ℓ} where
  unfoldable pub update : (A → Bool) → (A → A) → List A → List A
  update p f [] = []
  update p f (x ∷ xs) = (if p x then f x else x) ∷ update p f xs

  unfoldable pub rowcount : (A → Bool) → List A → ℕ
  rowcount p [] = 0
  rowcount p (x ∷ xs) = if p x then suc (rowcount p xs) else rowcount p xs

  -- What holds of every row, and is kept on the rows that match, holds after the update.
  pub All-update {κ} :
      {P : A → Type κ} (p : A → Bool) (f : A → A)
      → ((x : A) → P x → p x ≡ true → P (f x))
      → (xs : List A) → All P xs
      → All P (update p f xs)
  unfolding update
  All-update p f keep [] h = tt
  All-update p f keep (x ∷ xs) h = elim (Bool-cases (p x)) [
    | inl e ↦ rw e (keep x h.0 e, All-update p f keep xs h.1)
    | inr e ↦ rw e (h.0, All-update p f keep xs h.1)
  ]

  -- With no matching row the update writes nothing.
  pub update-rowcount_zero :
      (p : A → Bool) (f : A → A) (xs : List A) → rowcount p xs ≡ 0 → update p f xs ≡ xs
  unfolding update rowcount
  update-rowcount_zero p f [] h = refl
  update-rowcount_zero p f (x ∷ xs) h = ground (arith, update-rowcount_zero p f xs)
