-- ===== src/Catalog/Matching/Found.antt =====
-- The pairs that the queries of one priority give are the hits of that priority.
use agentledger_mvp_v.Base.{
  IsRow-append_left, IsRow-append_right, IsRow-append_split, ℕ, ◌≡◌, refl, sym, ap, subst, ◌∙◌,
  true, String, some, List, [], ◌∷◌, ◌⊎◌, inl, inr, ◌==◌, ==_iff, Bool-cases, Option-cases, IsRow,
}
use agentledger_mvp_v.Base.Result.{ok, Result-cases, ok-injective}
use agentledger_mvp_v.Catalog.Normalization.{identifier_error, value_error, Libraries, canonicalize}
use agentledger_mvp_v.Catalog.Matching.{
  ProductIdentifier, CandidateIdentifier, match_priority, Entry, satisfies, identifiers_of,
  matches_at, normalized_candidates,
}

-- The pair that a row stands for in `matches`.
abbrev pub pair_of : ProductIdentifier → ℕ × String
pair_of row = (row.product_id, row.identifier_type)

identifiers_of-IsRow :
    (rows : List ProductIdentifier) (c : CandidateIdentifier) (v : String) (row : ProductIdentifier)
    → IsRow row rows
    → satisfies c v row ≡ true
    → IsRow (pair_of row) (identifiers_of rows c v)
unfolding identifiers_of
identifiers_of-IsRow [] c v row r h = absurd (r)
identifiers_of-IsRow (x ∷ rows) c v row (inl e) h =
    let here = ap (satisfies c v) (sym e) ∙ h in rw here (inl (ap pair_of e))
identifiers_of-IsRow (x ∷ rows) c v row (inr r) h =
    let there = identifiers_of-IsRow rows c v row r h in
    elim (Bool-cases (satisfies c v x)) [ inl e ↦ rw e (inr there) | inr e ↦ rw e there ]

identifiers_of-found :
    (rows : List ProductIdentifier) (c : CandidateIdentifier) (v : String) (q : ℕ × String)
    → IsRow q (identifiers_of rows c v)
    → (row : ProductIdentifier) × IsRow row rows × (satisfies c v row ≡ true) × (q ≡ pair_of row)
unfolding identifiers_of
identifiers_of-found [] c v q r = absurd (r)
identifiers_of-found (x ∷ rows) c v q r =
    let later : IsRow q (identifiers_of rows c v)
        → (row : ProductIdentifier) × IsRow row (x ∷ rows)
          × (satisfies c v row ≡ true)
          × (q ≡ pair_of row) =
      λ s.
        let (row, there, sat, e) = identifiers_of-found rows c v q s in (row, inr there, sat, e) in
    elim (Bool-cases (satisfies c v x)) [
      | inr e ↦ later (rw e at r)
      | inl e ↦ elim (rw e at r) [ inl here ↦ (x, inl refl, e, here) | inr there ↦ later there ]
    ]

module _ (l : Libraries) (rows : List ProductIdentifier) where
  -- A candidate of priority `n` whose normal form a verified row has.
  abbrev pub HitBy : ℕ → ProductIdentifier → CandidateIdentifier → Type 0
  HitBy n row c =
      (canonical : String) × (match_priority c.identifier_type ≡ some n)
      × (canonicalize l c.identifier_type c.raw_value ≡ ok canonical)
      × (satisfies c canonical row ≡ true)

  -- What the first loop makes of one candidate.
  abbrev FirstKept : CandidateIdentifier → List CandidateIdentifier → List Entry → Type 0
  FirstKept c cs es =
      (n : ℕ) × (v : String) × (es' : List Entry) × (es
        ≡ record { priority = n; candidate = c; canonical = v } ∷ es')
      × (normalized_candidates l cs ≡ ok es')
      × (match_priority c.identifier_type ≡ some n)
      × (canonicalize l c.identifier_type c.raw_value ≡ ok v)

  abbrev FirstSkipped : CandidateIdentifier → List CandidateIdentifier → List Entry → Type 0
  FirstSkipped c cs es =
      (normalized_candidates l cs ≡ ok es)
      × ((n : ℕ) (v : String)
          → match_priority c.identifier_type ≡ some n
          → canonicalize l c.identifier_type c.raw_value ≡ ok v
          → ⊥)

  first_kept :
      (c : CandidateIdentifier) (cs : List CandidateIdentifier) (es : List Entry)
      → normalized_candidates l (c ∷ cs) ≡ ok es
      → FirstSkipped c cs es ⊎ FirstKept c cs es
  unfolding normalized_candidates
  first_kept c cs es h = elim (Option-cases (match_priority c.identifier_type)) [
    | inl e ↦
        inl (rw (e, normalized_candidates) at h, (λ n v p q. absurd (let k = sym e ∙ p in cc (k))))
    | inr (n, e) ↦ elim (Result-cases (canonicalize l c.identifier_type c.raw_value)) [
      | inr (identifier_error s, f) ↦ inl (
        rw (e, f, normalized_candidates) at h,
        (λ n' v p q. absurd (let k = sym f ∙ q in cc (k))),
      )
      | inr (value_error, f) ↦ absurd (let k = rw (e, f, normalized_candidates) at h in cc (k))
      | inl (v, f) ↦ elim (Result-cases (normalized_candidates l cs)) [
        | inr (x, g) ↦ absurd (let k = rw (e, f, g, normalized_candidates) at h in cc (k))
        | inl (es', g) ↦
            inr (
              n,
              v,
              es',
              sym (ok-injective _ _ (rw (e, f, g, normalized_candidates) at h)),
              g,
              e,
              f,
            )
      ]
    ]
  ]

  pub HitBy-first :
      (n : ℕ) (row : ProductIdentifier) (c : CandidateIdentifier) (m : ℕ) (v : String)
      → HitBy n row c
      → match_priority c.identifier_type ≡ some m
      → canonicalize l c.identifier_type c.raw_value ≡ ok v
      → (m ≡ n) × (satisfies c v row ≡ true)
  HitBy-first n row c m v (w, p, q, s) e f =
      let ranks : some m ≡ some n = sym e ∙ p in
      let values : v ≡ w = ok-injective v w (sym f ∙ q) in
      (cc (ranks), subst (λ x. satisfies c x row ≡ true) (sym values) s)

  pub matches_at-IsRow :
      (n : ℕ) (row : ProductIdentifier) (c : CandidateIdentifier) (cs : List CandidateIdentifier)
      (es : List Entry)
      → normalized_candidates l cs ≡ ok es
      → IsRow c cs
      → IsRow row rows
      → HitBy n row c
      → IsRow (pair_of row) (matches_at rows n es)
  unfolding matches_at
  matches_at-IsRow n row c [] es h r s hit = absurd (r)
  matches_at-IsRow n row c (d ∷ cs) es h r s hit = elim (first_kept d cs es h) [
    | inl (g, never) ↦ elim r [
      | inl e ↦ let (v, p, q, t) = subst (HitBy n row) e hit in absurd (never n v p q)
      | inr r' ↦ matches_at-IsRow n row c cs es g r' s hit
    ]
    | inr (m, v, es', same, g, p, q) ↦ rw same (elim r [
      | inl e ↦
          let (mn, sat) = HitBy-first n row d m v (subst (HitBy n row) e hit) p q in
          rw ((==_iff m n).1 mn) (
            IsRow-append_left (pair_of row) (identifiers_of rows d v) (matches_at rows n es')
              (identifiers_of-IsRow rows d v row s sat))
      | inr r' ↦
          let there = matches_at-IsRow n row c cs es' g r' s hit in
          elim (Bool-cases (m == n)) [
            | inl b ↦ rw b (
                IsRow-append_right (pair_of row) (identifiers_of rows d v) (matches_at rows n es')
                  there)
            | inr b ↦ rw b there
          ]
    ])
  ]

  pub matches_at-found :
      (n : ℕ) (q : ℕ × String) (cs : List CandidateIdentifier) (es : List Entry)
      → normalized_candidates l cs ≡ ok es
      → IsRow q (matches_at rows n es)
      → (c : CandidateIdentifier) × (row : ProductIdentifier) × IsRow c cs
        × IsRow row rows
        × HitBy n row c
        × (q ≡ pair_of row)
  unfolding matches_at normalized_candidates
  matches_at-found n q [] es h r =
      absurd (subst (λ xs. IsRow q (matches_at rows n xs)) (sym (ok-injective _ _ h)) r)
  matches_at-found n q (d ∷ cs) es h r =
      let later : (xs : List Entry)
          → normalized_candidates l cs ≡ ok xs
          → IsRow q (matches_at rows n xs)
          → (c : CandidateIdentifier) × (row : ProductIdentifier) × IsRow c (d ∷ cs)
            × IsRow row rows
            × HitBy n row c
            × (q ≡ pair_of row) =
        λ xs g s.
          let (c, row, there, listed, hit, e) = matches_at-found n q cs xs g s in
          (c, row, inr there, listed, hit, e) in
      elim (first_kept d cs es h) [
        | inl (g, never) ↦ later es g r
        | inr (m, v, es', same, g, p, q') ↦
            let r' = subst (λ xs. IsRow q (matches_at rows n xs)) same r in
            elim (Bool-cases (m == n)) [
              | inr b ↦ later es' g (rw b at r')
              | inl b ↦
                  elim (IsRow-append_split q (identifiers_of rows d v) (matches_at rows n es')
                    (rw b at r')) [
                      | inr s ↦ later es' g s
                      | inl s ↦
                          let (row, there, sat, e) = identifiers_of-found rows d v q s in
                          let mn = (==_iff m n).0 b in
                          (d, row, inl refl, there, (v, p ∙ ap some mn, q', sat), e)
                    ]
            ]
      ]
