-- ===== src/Catalog/Matching/Decides.antt =====
-- The match is decided by the best priority that has a hit.
use agentledger_mvp_v.Base.{
  ℕ, ◌<◌, ◌≤◌, ◌≡◌, ◌≢◌, refl, sym, ap, subst, ◌∙◌, String, some, List, [], ◌∷◌, map, inl, inr,
  All-row, List-cases, IsRow, arith,
}
use agentledger_mvp_v.Base.Result.{Result, err, ok}
use agentledger_mvp_v.Catalog.Normalization.{
  NormalizationError, value_error, Libraries, canonicalize,
}
use agentledger_mvp_v.Catalog.Matching.{
  ProductIdentifier, CandidateIdentifier, CatalogMatch, known, review, unknown, match_priority,
  Entry, distinct, matched_product, matched_type, matches_at, match_loop, entry_priority,
  priorities_of, normalized_candidates,
}
use agentledger_mvp_v.Catalog.Matching.Found.{pair_of, HitBy, matches_at-IsRow, matches_at-found}
use agentledger_mvp_v.Catalog.Matching.Ranks.{
  IsRow-map, map-IsRow, matched_type-IsRow, matches_at-rank, IsRow-distinct, distinct-IsRow,
  FirstTwoDiffer, distinct-FirstTwoDiffer, IsRow-sort_by, Ascending, sort_by-Ascending,
}

module _ (l : Libraries) (rows : List ProductIdentifier)
    (candidates : List CandidateIdentifier) where
  -- A verified row of the catalog whose kind, value and scope a candidate of priority `n` has.
  abbrev pub Hit : ℕ → ProductIdentifier → Type 0
  Hit n row = (c : CandidateIdentifier) × IsRow c candidates × IsRow row rows × HitBy l rows n row c

  abbrev pub NoneBelow : ℕ → Type 0
  NoneBelow n = (m : ℕ) (row : ProductIdentifier) → m < n → Hit m row → ⊥

  abbrev pub Decides : CatalogMatch → Type 0
  Decides (known product_id kind) =
      (n : ℕ) × ((row : ProductIdentifier) × Hit n row × (pair_of row ≡ (product_id, kind)))
      × ((row : ProductIdentifier) → Hit n row → row.product_id ≡ product_id)
      × NoneBelow n
  Decides review =
      (n : ℕ) × (one : ProductIdentifier) × (other : ProductIdentifier) × Hit n one
      × Hit n other
      × (one.product_id ≢ other.product_id)
      × NoneBelow n
  Decides unknown = (n : ℕ) (row : ProductIdentifier) → Hit n row → ⊥

  module _ (es : List Entry) (h : normalized_candidates l candidates ≡ ok es) where
    abbrev products : ℕ → List ℕ
    products n = map matched_product (matches_at rows n es)

    -- A hit is among the products of its rank, and a product of a rank is one of a hit.
    product_listed :
        (n : ℕ) (row : ProductIdentifier) → Hit n row → IsRow row.product_id (distinct (products n))
    product_listed n row (c, r, s, hit) = IsRow-distinct row.product_id (products n) (
        IsRow-map (pair_of row) (matches_at rows n es)
          (matches_at-IsRow l rows n row c candidates es h r s hit))

    pair-Hit :
        (n : ℕ) (q : ℕ × String)
        → IsRow q (matches_at rows n es)
        → (row : ProductIdentifier) × Hit n row × (pair_of row ≡ q)
    pair-Hit n q r =
        let (c, row, there, listed, hit, e) = matches_at-found l rows n q candidates es h r in
        (row, (c, there, listed, hit), sym e)

    product-Hit :
        (n i : ℕ)
        → IsRow i (distinct (products n))
        → (row : ProductIdentifier) × Hit n row × (row.product_id ≡ i)
    product-Hit n i r =
        let (q, there, e) = map-IsRow i (matches_at rows n es) (distinct-IsRow i (products n) r) in
        let (row, hit, same) = pair-Hit n q there in (row, hit, ap matched_product same ∙ e)

    -- No hit has a lower rank than the first of the ranks that are left.
    none_below :
        (n : ℕ) (ns : List ℕ)
        → Ascending (n ∷ ns)
        → ((m : ℕ) (row : ProductIdentifier) → Hit m row → IsRow m (n ∷ ns))
        → NoneBelow n
    none_below n ns up left m row lt hit = elim (left m row hit) [
      | inl e ↦ absurd (omega (arith, e, lt))
      | inr r ↦ let le = All-row (λ k. n ≤ k) m ns r up.0 in absurd (omega (arith, le, lt))
    ]

    loop_none :
        (n : ℕ) (ns : List ℕ)
        → distinct (products n) ≡ []
        → match_loop rows es (n ∷ ns) ≡ match_loop rows es ns
    unfolding match_loop
    loop_none n ns e = rw (e, match_loop) refl

    loop_one :
        (n i : ℕ) (ns : List ℕ)
        → distinct (products n) ≡ i ∷ []
        → match_loop rows es (n ∷ ns) ≡ known i (matched_type i (matches_at rows n es))
    unfolding match_loop
    loop_one n i ns e = rw (e, match_loop) refl

    loop_many :
        (n i j : ℕ) (rest ns : List ℕ)
        → distinct (products n) ≡ i ∷ j ∷ rest
        → match_loop rows es (n ∷ ns) ≡ review
    unfolding match_loop
    loop_many n i j rest ns e = rw (e, match_loop) refl

    match_loop-Decides :
        (ns : List ℕ)
        → Ascending ns
        → ((m : ℕ) (row : ProductIdentifier) → Hit m row → IsRow m ns)
        → Decides (match_loop rows es ns)
    unfolding match_loop
    match_loop-Decides [] up left = left
    match_loop-Decides (n ∷ ns) up left = elim (List-cases (distinct (products n))) [
      | inl e ↦ subst Decides (sym (loop_none n ns e)) (
          match_loop-Decides ns up.1 (λ m row hit. elim (left m row hit) [
            | inr later ↦ later
            | inl same ↦ absurd (
                subst (IsRow row.product_id) e
                  (product_listed n row (subst (λ k. Hit k row) same hit)))
          ]))
      | inr (i, (others, e)) ↦ elim (List-cases others) [
        | inl f ↦
            let one : distinct (products n) ≡ i ∷ [] = rw f at e in
            let first = subst (IsRow i) (sym one) (inl refl) in
            subst Decides (sym (loop_one n i ns one)) (
              n,
              pair-Hit n (i, matched_type i (matches_at rows n es))
                  (matched_type-IsRow i (matches_at rows n es)
                    (distinct-IsRow i (products n) first)),
              (λ row hit. elim (subst (IsRow row.product_id) one (product_listed n row hit)) [
                | inl same ↦ same
                | inr none_left ↦ absurd (none_left)
              ]),
              none_below n ns up left,
            )
        | inr (j, (rest, f)) ↦
            let two : distinct (products n) ≡ i ∷ j ∷ rest = rw f at e in
            let (one, hit, p) = product-Hit n i (subst (IsRow i) (sym two) (inl refl)) in
            let (other, hit', p') = product-Hit n j (subst (IsRow j) (sym two) (inr (inl refl))) in
            let apart : i ≢ j = subst FirstTwoDiffer two (distinct-FirstTwoDiffer (products n)) in
            subst Decides (sym (loop_many n i j rest ns two)) (
              n,
              one,
              other,
              hit,
              hit',
              (λ same. apart (sym p ∙ (same ∙ p'))),
              none_below n ns up left,
            )
      ]
    ]

    -- Every hit has one of the ranks.
    rank_listed : (m : ℕ) (row : ProductIdentifier) → Hit m row → IsRow m (priorities_of es)
    unfolding priorities_of
    rank_listed m row (c, r, s, hit) = IsRow-sort_by m (distinct (map entry_priority es)) (
        IsRow-distinct m (map entry_priority es) (
          matches_at-rank rows m (pair_of row) es
            (matches_at-IsRow l rows m row c candidates es h r s hit)))

    pub all_Decides : Decides (match_loop rows es (priorities_of es))
    unfolding priorities_of
    all_Decides =
        match_loop-Decides (priorities_of es) (sort_by-Ascending (distinct (map entry_priority es)))
          rank_listed

  -- A candidate whose URL `urlsplit` refuses.
  abbrev pub Refused : NormalizationError → CandidateIdentifier → Type 0
  Refused e c =
      (n : ℕ) × (match_priority c.identifier_type ≡ some n)
      × (canonicalize l c.identifier_type c.raw_value ≡ err e)
      × (e ≡ value_error)

  abbrev pub IsMatch : Result NormalizationError CatalogMatch → Type 0
  IsMatch (ok m) = Decides m
  IsMatch (err e) = (c : CandidateIdentifier) × IsRow c candidates × Refused e c
