-- ===== src/Catalog/Matching/Save.antt =====
-- What was saved is matched.
use agentledger_mvp_v.Base.{
  ℕ, ◌≡◌, refl, ap, subst, Bool, true, false, ◌&&◌, ◌||◌, String, Option, none, some, List, [], ◌∷◌,
  inl, inr, ==_refl, str_eq, str_eq_iff, Bool-cases, insert, arith,
}
use agentledger_mvp_v.Base.Result.{ok, Result-cases, ok-injective}
use agentledger_mvp_v.Catalog.Normalization.{Libraries, canonicalize}
use agentledger_mvp_v.Catalog.Matching.{
  ProductIdentifier, CandidateIdentifier, known, match_priority, Entry, same_scope, satisfies,
  identifiers_of, matches_at, match_loop, priorities_of, normalized_candidates, match_product,
  is_duplicate, id_before, with_canonical, save,
}
use agentledger_mvp_v.Catalog.Matching.Found.{pair_of}

-- The identifier as it is observed.
abbrev pub observed : ProductIdentifier → CandidateIdentifier
observed x = record {
  identifier_type = x.identifier_type;
  raw_value = x.raw_value;
  provider_scope = x.provider_scope;
}

str_eq_refl : (s : String) → str_eq s s ≡ true
str_eq_refl s = (str_eq_iff s s).1 refl

same_scope_refl : (s : Option String) → same_scope s s ≡ true
same_scope_refl none = refl
same_scope_refl (some t) = str_eq_refl t

module _ (x : ProductIdentifier) (v : String) (is_verified : x.verified ≡ true) where
  satisfies_self : satisfies (observed x) v (with_canonical x v) ≡ true
  unfolding satisfies
  satisfies_self =
      rw
        (
          str_eq_refl x.identifier_type,
          str_eq_refl v,
          same_scope_refl x.provider_scope,
          is_verified,
        )
        refl

  satisfies-is_duplicate :
      (row : ProductIdentifier) (rows : List ProductIdentifier)
      → is_duplicate (with_canonical x v) (row ∷ rows) ≡ false
      → (satisfies (observed x) v row ≡ false) × (is_duplicate (with_canonical x v) rows ≡ false)
  unfolding satisfies
  satisfies-is_duplicate row rows h =
      parts (str_eq row.identifier_type x.identifier_type) (str_eq row.canonical_value v)
        (same_scope row.provider_scope x.provider_scope) row.verified
        (is_duplicate (with_canonical x v) rows) h
    where
      parts :
          (a b c d e : Bool)
          → ((a && b && c) || e) ≡ false
          → ((a && b && c && d) ≡ false) × (e ≡ false)
      parts a b c d e h = ground arith

  identifiers_of_none :
      (rows : List ProductIdentifier)
      → is_duplicate (with_canonical x v) rows ≡ false
      → identifiers_of rows (observed x) v ≡ []
  unfolding identifiers_of
  identifiers_of_none [] h = refl
  identifiers_of_none (row ∷ rows) h =
      let (other, rest) = satisfies-is_duplicate row rows h in
      rw (other, identifiers_of) (identifiers_of_none rows rest)

  identifiers_of-insert :
      (rows : List ProductIdentifier)
      → is_duplicate (with_canonical x v) rows ≡ false
      → identifiers_of (insert id_before (with_canonical x v) rows) (observed x) v ≡ pair_of x ∷ []
  unfolding identifiers_of
  identifiers_of-insert [] h = rw (satisfies_self, identifiers_of) refl
  identifiers_of-insert (row ∷ rows) h =
      let (other, rest) = satisfies-is_duplicate row rows h in
      elim (Bool-cases (id_before row (with_canonical x v))) [
        | inl e ↦ rw (e, identifiers_of, other, identifiers_of) (identifiers_of-insert rows rest)
        | inr e ↦
            rw (e, identifiers_of, satisfies_self, identifiers_of)
              (ap (λ l. pair_of x ∷ l) (identifiers_of_none (row ∷ rows) h))
      ]

match_one :
    (l : Libraries) (rows : List ProductIdentifier) (c : CandidateIdentifier) (n i : ℕ)
    (v kind : String)
    → match_priority c.identifier_type ≡ some n
    → canonicalize l c.identifier_type c.raw_value ≡ ok v
    → identifiers_of rows c v ≡ (i, kind) ∷ []
    → match_product l rows (c ∷ []) ≡ ok (known i kind)
unfolding match_product normalized_candidates match_loop priorities_of matches_at
match_one l rows c n i v kind p f q =
    let e : Entry = record { priority = n; candidate = c; canonical = v } in
    let one : matches_at rows n (e ∷ []) ≡ (i, kind) ∷ [] = rw (==_refl n, matches_at, q) refl in
    let loop : match_loop rows (e ∷ []) (n ∷ []) ≡ known i kind =
      rw (one, match_loop, one, ==_refl i) refl in
    rw (p, normalized_candidates, f, match_product) (ap ok loop)

-- A verified identifier of a kind that has a priority, once it was saved, is what its raw value is matched
-- with under its kind and scope: the match is known, with its product and its kind.
pub save-match_product :
    (l : Libraries) (x : ProductIdentifier) (n : ℕ) (rows rows' : List ProductIdentifier)
    → match_priority x.identifier_type ≡ some n
    → x.verified ≡ true
    → save l x rows ≡ ok rows'
    → match_product l rows' (observed x ∷ []) ≡ ok (known x.product_id x.identifier_type)
unfolding save
save-match_product l x n rows rows' p is_verified h =
    elim (Result-cases (canonicalize l x.identifier_type x.raw_value)) [
      | inr (e, f) ↦ absurd (let k = rw (f, save) at h in cc (k))
      | inl (v, f) ↦ elim (Bool-cases (is_duplicate (with_canonical x v) rows)) [
        | inl g ↦ absurd (let k = rw (f, save, g) at h in cc (k))
        | inr g ↦
            let same = ok-injective _ _ (rw (f, save, g) at h) in
            match_one l rows' (observed x) n x.product_id v x.identifier_type p f (
              subst (λ r. identifiers_of r (observed x) v ≡ pair_of x ∷ []) same
                (identifiers_of-insert x v is_verified rows g))
      ]
    ]
