-- ===== src/Catalog/Matching/Ranks.antt =====
-- The set of the ranks and of the products, the ranks in order, and the products of pairs.
use agentledger_mvp_v.Base.{
  ℕ, ◌≤◌, ◌≡◌, ◌≢◌, sym, subst, true, false, List, [], ◌∷◌, All, All-imp, inl, inr, ◌==◌, ==_iff,
  ltb, sort_by, insert, Bool-cases, IsRow, arith,
}
use agentledger_mvp_v.Base.{String, map, ap, refl}
use agentledger_mvp_v.Catalog.Matching.{
  is_in_set, distinct, ProductIdentifier, Entry, entry_priority, matched_product, matched_type,
  matches_at,
}

is_in_set-IsRow : (n : ℕ) (ms : List ℕ) → is_in_set n ms ≡ true → IsRow n ms
is_in_set-IsRow n [] h = absurd (cc (h))
is_in_set-IsRow n (m ∷ ms) h = elim (Bool-cases (n == m)) [
  | inl e ↦ inl ((==_iff n m).0 e)
  | inr e ↦ inr (is_in_set-IsRow n ms (rw e at h))
]

pub IsRow-distinct : (n : ℕ) (ns : List ℕ) → IsRow n ns → IsRow n (distinct ns)
IsRow-distinct n [] r = absurd (r)
IsRow-distinct n (m ∷ ns) r = elim (Bool-cases (is_in_set m (distinct ns))) [
  | inl e ↦ rw e (elim r [
    | inl same ↦ subst (λ k. IsRow k (distinct ns)) (sym same) (is_in_set-IsRow m (distinct ns) e)
    | inr later ↦ IsRow-distinct n ns later
  ])
  | inr e ↦ rw e (elim r [ inl same ↦ inl same | inr later ↦ inr (IsRow-distinct n ns later) ])
]

pub distinct-IsRow : (n : ℕ) (ns : List ℕ) → IsRow n (distinct ns) → IsRow n ns
distinct-IsRow n [] r = absurd (r)
distinct-IsRow n (m ∷ ns) r = elim (Bool-cases (is_in_set m (distinct ns))) [
  | inl e ↦ inr (distinct-IsRow n ns (rw e at r))
  | inr e ↦ elim (rw e at r) [ inl same ↦ inl same | inr later ↦ inr (distinct-IsRow n ns later) ]
]

-- The first two members of a set differ.
abbrev pub FirstTwoDiffer : List ℕ → Type 0
FirstTwoDiffer [] = Unit
FirstTwoDiffer (i ∷ []) = Unit
FirstTwoDiffer (i ∷ j ∷ rest) = i ≢ j

first_two : (n : ℕ) (ns : List ℕ) → is_in_set n ns ≡ false → FirstTwoDiffer (n ∷ ns)
first_two n [] h = tt
first_two n (m ∷ ns) h =
    λ e. absurd (let there = (==_iff n m).1 e in let k = rw there at h in cc (k))

pub distinct-FirstTwoDiffer : (ns : List ℕ) → FirstTwoDiffer (distinct ns)
distinct-FirstTwoDiffer [] = tt
distinct-FirstTwoDiffer (n ∷ ns) = elim (Bool-cases (is_in_set n (distinct ns))) [
  | inl e ↦ rw e (distinct-FirstTwoDiffer ns)
  | inr e ↦ rw e (first_two n (distinct ns) e)
]

IsRow-insert : (n m : ℕ) (ns : List ℕ) → IsRow n (m ∷ ns) → IsRow n (insert ltb m ns)
IsRow-insert n m [] r = r
IsRow-insert n m (k ∷ ns) r = elim (Bool-cases (ltb k m)) [
  | inr e ↦ rw e r
  | inl e ↦ rw e (elim r [
    | inl same ↦ inr (IsRow-insert n m ns (inl same))
    | inr (inl same) ↦ inl same
    | inr (inr later) ↦ inr (IsRow-insert n m ns (inr later))
  ])
]

pub IsRow-sort_by : (n : ℕ) (ns : List ℕ) → IsRow n ns → IsRow n (sort_by ltb ns)
IsRow-sort_by n [] r = r
IsRow-sort_by n (m ∷ ns) r =
    IsRow-insert n m (sort_by ltb ns)
      (elim r [ inl same ↦ inl same | inr later ↦ inr (IsRow-sort_by n ns later) ])

abbrev pub Ascending : List ℕ → Type 0
Ascending [] = Unit
Ascending (n ∷ ns) = All (λ m. n ≤ m) ns × Ascending ns

All-insert :
    (b n : ℕ) (ns : List ℕ) → b ≤ n → All (λ m. b ≤ m) ns → All (λ m. b ≤ m) (insert ltb n ns)
All-insert b n [] le h = (le, tt)
All-insert b n (k ∷ ns) le h = elim (Bool-cases (ltb k n)) [
  | inr e ↦ rw e (le, h)
  | inl e ↦ rw e (h.0, All-insert b n ns le h.1)
]

insert-Ascending : (n : ℕ) (ns : List ℕ) → Ascending ns → Ascending (insert ltb n ns)
insert-Ascending n [] h = (tt, tt)
insert-Ascending n (k ∷ ns) h = elim (Bool-cases (ltb k n)) [
  | inl e ↦ rw e (All-insert k n ns (ground arith) h.0, insert-Ascending n ns h.1)
  | inr e ↦ let le : n ≤ k = ground arith in rw e ((le, All-imp (λ m r. omega arith) ns h.0), h)
]

pub sort_by-Ascending : (ns : List ℕ) → Ascending (sort_by ltb ns)
sort_by-Ascending [] = tt
sort_by-Ascending (n ∷ ns) = insert-Ascending n (sort_by ltb ns) (sort_by-Ascending ns)

pub IsRow-map :
    (x : ℕ × String) (xs : List (ℕ × String)) → IsRow x xs → IsRow x.0 (map matched_product xs)
IsRow-map x [] r = absurd (r)
IsRow-map x (y ∷ ys) (inl e) = inl (ap matched_product e)
IsRow-map x (y ∷ ys) (inr r) = inr (IsRow-map x ys r)

pub map-IsRow :
    (n : ℕ) (xs : List (ℕ × String))
    → IsRow n (map matched_product xs)
    → (x : ℕ × String) × IsRow x xs × (x.0 ≡ n)
map-IsRow n [] r = absurd (r)
map-IsRow n (y ∷ ys) (inl e) = (y, inl refl, sym e)
map-IsRow n (y ∷ ys) (inr r) = let (x, there, e) = map-IsRow n ys r in (x, inr there, e)

matched_type-next :
    (n : ℕ) (y : ℕ × String) (ys : List (ℕ × String))
    → (y.0 == n) ≡ false
    → matched_type n (y ∷ ys) ≡ matched_type n ys
matched_type-next n y ys e = rw e refl

pub matches_at-rank :
    (rows : List ProductIdentifier) (n : ℕ) (q : ℕ × String) (es : List Entry)
    → IsRow q (matches_at rows n es)
    → IsRow n (map entry_priority es)
unfolding matches_at
matches_at-rank rows n q [] r = r
matches_at-rank rows n q (e ∷ es) r = elim (Bool-cases (e.priority == n)) [
  | inl b ↦ inl (sym ((==_iff e.priority n).0 b))
  | inr b ↦ inr (matches_at-rank rows n q es (rw b at r))
]

-- The kind that is reported is that of a match of the product.
pub matched_type-IsRow :
    (n : ℕ) (xs : List (ℕ × String))
    → IsRow n (map matched_product xs)
    → IsRow (n, matched_type n xs) xs
matched_type-IsRow n [] r = absurd (r)
matched_type-IsRow n (y ∷ ys) r = elim (Bool-cases (y.0 == n)) [
  | inl e ↦ rw e (inl (ap (λ k. (k, y.1)) (sym ((==_iff y.0 n).0 e))))
  | inr e ↦ (elim r [
    | inl same ↦ absurd (let k = (==_iff y.0 n).1 (sym same) in cc (k, e))
    | inr later ↦ inr (
        subst (λ k. IsRow (n, k) ys) (sym (matched_type-next n y ys e))
          (matched_type-IsRow n ys later))
  ])
]
