-- ===== src/Catalog/Matching.antt =====
-- The match of observed identifiers with the catalog (apps/catalog/matching.py, and the rows of
-- apps/catalog/models.py). An unset scope is `none`; a UUID is its number. The rows come in the order of
-- their ids, which within one query is that of the model.
mod Found
mod Ranks
pub mod Decides
pub mod Returns
pub mod Save
use agentledger_mvp_v.Base.{
  ℕ, Bool, true, false, not, ◌&&◌, ◌||◌, String, Option, none, some, List, [], ◌∷◌, ◌++◌, map, ◌==◌,
  ltb, str_eq, sort_by, insert, if◌then◌else◌,
}
use agentledger_mvp_v.Base.Result.{Result, err, ok}
use agentledger_mvp_v.Catalog.Normalization.{
  NormalizationError, identifier_error, value_error, Libraries, canonicalize,
}

pub record ProductIdentifier : Type 0 where
  pub id : ℕ
  pub product_id : ℕ
  pub identifier_type : String
  pub raw_value : String
  pub canonical_value : String
  pub provider_scope : Option String
  pub verified : Bool

pub record CandidateIdentifier : Type 0 where
  pub identifier_type : String
  pub raw_value : String
  pub provider_scope : Option String

-- The statuses known, review and unknown, with what each carries; the reason is one text for each.
pub data CatalogMatch : Type 0 where
  known : (product_id : ℕ) (identifier_type : String) → CatalogMatch
  review unknown : CatalogMatch

abbrev pub match_priority : String → Option ℕ
match_priority kind =
    if str_eq kind "microsoft_app_id"
    then some 1
    else if str_eq kind "google_client_id"
    then some 1
    else if str_eq kind "hostname"
    then some 2
    else if str_eq kind "domain"
    then some 2
    else if str_eq kind "origin"
    then some 2
    else if str_eq kind "oauth_client_id"
    then some 3
    else if str_eq kind "redirect_uri"
    then some 3
    else if str_eq kind "product_name"
    then some 4
    else none

-- An entry of `normalized`.
pub record Entry : Type 0 where
  pub priority : ℕ
  pub candidate : CandidateIdentifier
  pub canonical : String

-- The members of `set(xs)`.
abbrev pub is_in_set : ℕ → List ℕ → Bool
is_in_set n [] = false
is_in_set n (m ∷ ms) = n == m || is_in_set n ms

abbrev pub distinct : List ℕ → List ℕ
distinct [] = []
distinct (n ∷ ns) = let rest = distinct ns in if is_in_set n rest then rest else n ∷ rest

abbrev pub same_scope : Option String → Option String → Bool
same_scope none none = true
same_scope none (some t) = false
same_scope (some s) none = false
same_scope (some s) (some t) = str_eq s t

unfoldable pub satisfies : CandidateIdentifier → String → ProductIdentifier → Bool
satisfies candidate canonical row =
    str_eq row.identifier_type candidate.identifier_type
    && str_eq row.canonical_value canonical
    && same_scope row.provider_scope candidate.provider_scope
    && row.verified

-- The pairs that the query of one candidate gives.
unfoldable pub identifiers_of :
    List ProductIdentifier → CandidateIdentifier → String → List (ℕ × String)
identifiers_of [] candidate canonical = []
identifiers_of (row ∷ rows) candidate canonical =
    let rest = identifiers_of rows candidate canonical in
    if satisfies candidate canonical row then (row.product_id, row.identifier_type) ∷ rest else rest

unfoldable pub matches_at : List ProductIdentifier → ℕ → List Entry → List (ℕ × String)
matches_at rows priority [] = []
matches_at rows priority (e ∷ es) =
    let rest = matches_at rows priority es in
    if e.priority == priority then identifiers_of rows e.candidate e.canonical ++ rest else rest

abbrev pub matched_product : ℕ × String → ℕ
matched_product found = found.0

-- `next(kind for found, kind in matches if found == product_id)`
abbrev pub matched_type : ℕ → List (ℕ × String) → String
matched_type product_id [] = ""
matched_type product_id (found ∷ matches) =
    let rest = matched_type product_id matches in if found.0 == product_id then found.1 else rest

unfoldable pub match_loop : List ProductIdentifier → List Entry → List ℕ → CatalogMatch
match_loop rows normalized [] = unknown
match_loop rows normalized (priority ∷ priorities) =
    let rest = match_loop rows normalized priorities in
    let matches = matches_at rows priority normalized in
    elim (distinct (map matched_product matches)) [
      | [] ↦ rest
      | product_id ∷ others ↦ elim others [
        | [] ↦ known product_id (matched_type product_id matches)
        | _ ∷ _ ↦ review
      ]
    ]

abbrev pub entry_priority : Entry → ℕ
entry_priority e = e.priority

unfoldable pub priorities_of : List Entry → List ℕ
priorities_of normalized = sort_by ltb (distinct (map entry_priority normalized))

module _ (l : Libraries) where
  -- The first loop: a `ValueError` that is no `IdentifierNormalizationError` leaves it.
  unfoldable pub normalized_candidates :
      List CandidateIdentifier → Result NormalizationError (List Entry)
  normalized_candidates [] = ok []
  normalized_candidates (c ∷ cs) =
      let rest = normalized_candidates cs in
      elim (match_priority c.identifier_type) [
        | none ↦ rest
        | some priority ↦ elim (canonicalize l c.identifier_type c.raw_value) [
          | err (identifier_error _) ↦ rest
          | err value_error ↦ err value_error
          | ok canonical ↦ elim rest [
            | err e ↦ err e
            | ok es ↦ ok (record { priority = priority; candidate = c; canonical = canonical } ∷ es)
          ]
        ]
      ]

  unfoldable pub match_product :
      List ProductIdentifier → List CandidateIdentifier → Result NormalizationError CatalogMatch
  match_product rows candidates = elim (normalized_candidates candidates) [
    | err e ↦ err e
    | ok normalized ↦ ok (match_loop rows normalized (priorities_of normalized))
  ]

-- `save`: the canonical value is that of the raw value, and the constraint on kind, value and scope
-- refuses a second row.
pub data SaveError : Type 0 where
  not_normal : NormalizationError → SaveError
  unique_catalog_identifier : SaveError

abbrev pub is_duplicate : ProductIdentifier → List ProductIdentifier → Bool
is_duplicate x [] = false
is_duplicate x (row ∷ rows) =
    (str_eq row.identifier_type x.identifier_type
      && str_eq row.canonical_value x.canonical_value
      && same_scope row.provider_scope x.provider_scope)
    || is_duplicate x rows

abbrev pub id_before : ProductIdentifier → ProductIdentifier → Bool
id_before x y = ltb x.id y.id

abbrev pub with_canonical : ProductIdentifier → String → ProductIdentifier
with_canonical x canonical = record x { canonical_value = canonical }

-- The row takes its place in the order of ids.
unfoldable pub save :
    Libraries
    → ProductIdentifier
    → List ProductIdentifier
    → Result SaveError (List ProductIdentifier)
save l x rows = elim (canonicalize l x.identifier_type x.raw_value) [
  | err e ↦ err (not_normal e)
  | ok canonical ↦
      if is_duplicate (with_canonical x canonical) rows
      then err unique_catalog_identifier
      else ok (insert id_before (with_canonical x canonical) rows)
]
