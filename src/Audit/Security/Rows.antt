-- ===== src/Audit/Security/Rows.antt =====
-- What statements that return leave of the rows of a table.
use agentledger_mvp_v.Base.{
  ◌≡◌, refl, sym, ap, ◌∙◌, subst, Bool, true, false, ◌&&◌, List, [], ◌∷◌, IsRow, Bool-cases, inl,
  inr, filter,
}
use agentledger_mvp_v.Base.Result.{Result, ok, Result-cases, ok-injective}
use agentledger_mvp_v.Audit.Security.{
  SecurityError, insert_row, updated_row, row_after, update_rows, delete_protected,
}

module _ {A : Type 0} where
  -- Every row of the one table has a row of the other that it is related to.
  abbrev pub Kept : (A → A → Type 0) → List A → List A → Type 0
  Kept R xs ys = (x : A) → IsRow x xs → (y : A) × (IsRow y ys × R x y)

  pub insert_row-ok :
      (admitted : A → Bool) (x : A) (xs ys : List A)
      → insert_row admitted x xs ≡ ok ys
      → (ys ≡ x ∷ xs) × (admitted x ≡ true)
  unfolding insert_row
  insert_row-ok admitted x xs ys h = elim (Bool-cases (admitted x)) [
    | inl e ↦ (sym (ok-injective _ _ (rw (insert_row, e) at h)), e)
    | inr e ↦ absurd (let z = rw (insert_row, e) at h in cc (z))
  ]

  -- A protected table is as it was.
  pub delete_protected-ok :
      (admitted : A → Bool) (e : SecurityError) (p : A → Bool) (xs ys : List A)
      → delete_protected admitted e p xs ≡ ok ys
      → ys ≡ xs
  unfolding delete_protected
  delete_protected-ok admitted e p [] ys h = sym (ok-injective _ _ h)
  delete_protected-ok admitted e p (x ∷ xs) ys h = elim (Bool-cases (admitted x && p x)) [
    | inl m ↦ absurd (let z = rw (delete_protected, m) at h in cc (z))
    | inr m ↦ elim (Result-cases (delete_protected admitted e p xs)) [
      | inr (q, r) ↦ absurd (let z = rw (delete_protected, m, r) at h in cc (z))
      | inl (rest, r) ↦
          sym (ok-injective _ _ (rw (delete_protected, m, r) at h))
          ∙ ap (λ l. x ∷ l) (delete_protected-ok admitted e p xs rest r)
    ]
  ]

  module _ (admitted : A → Bool) (trigger : A → A → Result SecurityError A) (p : A → Bool)
      (f : A → A) where
    -- One row of an update: as it was, or admitted before and after, and let through by the trigger.
    pub data Updated (x y : A) : Type 0 where
      unchanged : y ≡ x → Updated x y
      changed : trigger x (f x) ≡ ok y → admitted x ≡ true → admitted y ≡ true → Updated x y

    updated_row-ok :
        (x y : A)
        → updated_row admitted trigger f x ≡ ok y
        → (trigger x (f x) ≡ ok y) × (admitted y ≡ true)
    unfolding updated_row
    updated_row-ok x y h = elim (Result-cases (trigger x (f x))) [
      | inr (e, r) ↦ absurd (let z = rw (updated_row, r) at h in cc (z))
      | inl (z, r) ↦ elim (Bool-cases (admitted z)) [
        | inr a ↦ absurd (let q = rw (updated_row, r, a) at h in cc (q))
        | inl a ↦
            let same : z ≡ y = ok-injective _ _ (rw (updated_row, r, a) at h) in
            (r ∙ ap ok same, subst (λ w. admitted w ≡ true) same a)
      ]
    ]

    row_after-ok : (x y : A) → row_after admitted trigger p f x ≡ ok y → Updated x y
    unfolding row_after
    row_after-ok x y h = elim (Bool-cases (admitted x)) [
      | inr a ↦ unchanged (sym (ok-injective _ _ (rw (row_after, a) at h)))
      | inl a ↦ elim (Bool-cases (p x)) [
        | inr m ↦ unchanged (sym (ok-injective _ _ (rw (row_after, a, m) at h)))
        | inl m ↦
            let (through, after) = updated_row-ok x y (rw (row_after, a, m) at h) in
            changed through a after
      ]
    ]

    abbrev pub UpdatedRows : List A → List A → Type 0
    UpdatedRows [] [] = Unit
    UpdatedRows (x ∷ xs) (y ∷ ys) = Updated x y × UpdatedRows xs ys
    UpdatedRows _ _ = ⊥

    pub update_rows-ok :
        (xs ys : List A) → update_rows admitted trigger p f xs ≡ ok ys → UpdatedRows xs ys
    unfolding update_rows
    update_rows-ok [] [] h = tt
    update_rows-ok [] (y ∷ ys) h = absurd (cc (ok-injective _ _ h))
    update_rows-ok (x ∷ xs) ys h = elim (Result-cases (row_after admitted trigger p f x)) [
      | inr (e, r) ↦ absurd (let z = rw (update_rows, r) at h in cc (z))
      | inl (y, r) ↦ elim (Result-cases (update_rows admitted trigger p f xs)) [
        | inr (e, q) ↦ absurd (let z = rw (update_rows, r, q) at h in cc (z))
        | inl (rest, q) ↦
            subst (UpdatedRows (x ∷ xs)) (ok-injective _ _ (rw (update_rows, r, q) at h))
              (row_after-ok x y r, update_rows-ok xs rest q)
      ]
    ]

    -- Each row that was there is related to its row after the update.
    pub UpdatedRows-Kept :
        (R : A → A → Type 0)
        → ((x y : A) → Updated x y → R x y)
        → (xs ys : List A) → UpdatedRows xs ys
        → Kept R xs ys
    UpdatedRows-Kept R related [] ys u x r = absurd (r)
    UpdatedRows-Kept R related (x ∷ xs) [] u z r = absurd (u)
    UpdatedRows-Kept R related (x ∷ xs) (y ∷ ys) u z (inl e) =
        (y, (inl refl, subst (λ w. R w y) (sym e) (related x y u.0)))
    UpdatedRows-Kept R related (x ∷ xs) (y ∷ ys) u z (inr r) =
        let (w, (there, k)) = UpdatedRows-Kept R related xs ys u.1 z r in (w, (inr there, k))

    -- Rows that are admitted neither before nor after are as they were.
    pub UpdatedRows-filter :
        (q : A → Bool)
        → ((x : A) → admitted x ≡ true → q x ≡ false)
        → (xs ys : List A) → UpdatedRows xs ys
        → filter q ys ≡ filter q xs
    UpdatedRows-filter q apart [] [] u = refl
    UpdatedRows-filter q apart [] (y ∷ ys) u = absurd (u)
    UpdatedRows-filter q apart (x ∷ xs) [] u = absurd (u)
    UpdatedRows-filter q apart (x ∷ xs) (y ∷ ys) (unchanged e, u) =
        rw (e, UpdatedRows-filter q apart xs ys u) refl
    UpdatedRows-filter q apart (x ∷ xs) (y ∷ ys) (changed t a b, u) =
        rw (apart x a, apart y b) (UpdatedRows-filter q apart xs ys u)
