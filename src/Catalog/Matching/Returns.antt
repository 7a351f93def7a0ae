-- ===== src/Catalog/Matching/Returns.antt =====
-- The match returns a decision, unless a URL raised a plain `ValueError`.
use agentledger_mvp_v.Base.{
  ◌≡◌, refl, sym, ap, subst, ◌∙◌, List, [], ◌∷◌, inl, inr, Option-cases, IsRow,
}
use agentledger_mvp_v.Base.Result.{Result, err, ok, Result-cases}
use agentledger_mvp_v.Catalog.Normalization.{
  NormalizationError, value_error, identifier_error, Libraries, canonicalize,
}
use agentledger_mvp_v.Catalog.Matching.{
  ProductIdentifier, CandidateIdentifier, match_priority, Entry, match_loop, priorities_of,
  normalized_candidates, match_product,
}
use agentledger_mvp_v.Catalog.Matching.Decides.{Refused, IsMatch, all_Decides}

err-injective :
    {a b : NormalizationError}
    → ◌≡◌ {A = Result NormalizationError (List Entry)} (err a) (err b)
    → a ≡ b
err-injective h = cc (h)

normalized_candidates-Refused :
    (l : Libraries) (rows : List ProductIdentifier) (cs : List CandidateIdentifier)
    (e : NormalizationError)
    → normalized_candidates l cs ≡ err e
    → (c : CandidateIdentifier) × IsRow c cs × Refused l rows cs e c
unfolding normalized_candidates
normalized_candidates-Refused l rows [] e h = absurd (cc (h))
normalized_candidates-Refused l rows (c ∷ cs) e h =
    let later : normalized_candidates l cs ≡ err e
        → (d : CandidateIdentifier) × IsRow d (c ∷ cs) × Refused l rows (c ∷ cs) e d =
      λ g.
        let (d, there, refused) = normalized_candidates-Refused l rows cs e g in
        (d, inr there, refused) in
    elim (Option-cases (match_priority c.identifier_type)) [
      | inl p ↦ later (rw (p, normalized_candidates) at h)
      | inr (n, p) ↦ elim (Result-cases (canonicalize l c.identifier_type c.raw_value)) [
        | inr (identifier_error s, f) ↦ later (rw (p, f, normalized_candidates) at h)
        | inr (value_error, f) ↦
            let same : value_error ≡ e = err-injective (rw (p, f, normalized_candidates) at h) in
            (c, inl refl, (n, p, f ∙ ap err same, sym same))
        | inl (v, f) ↦ elim (Result-cases (normalized_candidates l cs)) [
          | inr (x, g) ↦ later (g ∙ (rw (p, f, g, normalized_candidates) at h))
          | inl (es, g) ↦ absurd (let k = rw (p, f, g, normalized_candidates) at h in cc (k))
        ]
      ]
    ]

returned :
    (l : Libraries) (rows : List ProductIdentifier) (cs : List CandidateIdentifier)
    (es : List Entry)
    → normalized_candidates l cs ≡ ok es
    → match_product l rows cs ≡ ok (match_loop rows es (priorities_of es))
unfolding match_product
returned l rows cs es h = rw (h, match_product) refl

raised :
    (l : Libraries) (rows : List ProductIdentifier) (cs : List CandidateIdentifier)
    (e : NormalizationError)
    → normalized_candidates l cs ≡ err e
    → match_product l rows cs ≡ err e
unfolding match_product
raised l rows cs e h = rw (h, match_product) refl

-- The match returns, unless `urlsplit` raised a plain `ValueError` for a candidate of a known kind. It is
-- decided by the best priority at which a verified row of the catalog has the kind, the normal value and the
-- scope of a candidate: known, with the product and the kind of such a row, where all of them name one
-- product; for review, where two of them name different products; and unknown where no priority has any.
pub match_product-IsMatch :
    (l : Libraries) (rows : List ProductIdentifier) (candidates : List CandidateIdentifier)
    → IsMatch l rows candidates (match_product l rows candidates)
match_product-IsMatch l rows candidates = elim (Result-cases (normalized_candidates l candidates)) [
  | inl (es, h) ↦
      subst (IsMatch l rows candidates) (sym (returned l rows candidates es h))
        (all_Decides l rows candidates es h)
  | inr (e, h) ↦
      subst (IsMatch l rows candidates) (sym (raised l rows candidates e h))
        (normalized_candidates-Refused l rows candidates e h)
]
