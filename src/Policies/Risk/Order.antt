-- ===== src/Policies/Risk/Order.antt =====
-- The risk score does not depend on the order of the contributions or of the floors.
use Prim.Native.Nat.{max}
use mathlib.Core.Path.{ap₂}
use mathlib.Core.List.{Permᴰ}
use mathlib.Core.List.Permᴰ.{nil, cons, swap, trans}
use agentledger_mvp_v.Base.{
  ℕ, ◌≡◌, refl, sym, ap, ◌∙◌, Option, none, some, List, [], ◌∷◌, map, arith, if◌then◌else◌, ltb,
  inl, inr,
}
use agentledger_mvp_v.Base.Int.{ℤ, ◌+ℤ◌, +ℤ_parts, eq_of_parts}
use agentledger_mvp_v.Base.Result.{ok, Result-cases}
use agentledger_mvp_v.Policies.Risk.{
  RiskDimension, RiskBand, low, moderate, high, critical, RiskConfiguration, RiskContribution,
  RiskScore, points_of, dimension_score, largest_floor, floor_minimum, round_half_up, weighted_sum,
  _band_minimum, classify_risk, calculate_risk,
}

+ℤ_left_comm : (a b r : ℤ) → a +ℤ (b +ℤ r) ≡ b +ℤ (a +ℤ r)
+ℤ_left_comm a b r =
    eq_of_parts _ _
      (omega (arith, +ℤ_parts b r, +ℤ_parts a r, +ℤ_parts a (b +ℤ r), +ℤ_parts b (a +ℤ r)))

points_of_perm :
    (d : RiskDimension) (ks ks' : List RiskContribution)
    → Permᴰ ks ks'
    → points_of d ks ≡ points_of d ks'
points_of_perm d _ _ nil = refl
points_of_perm d (a ∷ ks) (b ∷ ks') (cons e p) = ground (arith, e, points_of_perm d ks ks' p)
points_of_perm d (a ∷ b ∷ ks) (a' ∷ b' ∷ ks') (swap e f) =
    rw (← e, ← f) (ground (arith, +ℤ_left_comm a.points b.points (points_of d ks)))
points_of_perm d ks ks' (trans {l₂ = ms} p q) = points_of_perm d ks ms p ∙ points_of_perm d ms ks' q

dimension_scores_perm :
    (ks ks' : List RiskContribution) (ws : List (RiskDimension × ℕ))
    → Permᴰ ks ks'
    → map (dimension_score ks) ws ≡ map (dimension_score ks') ws
unfolding dimension_score
dimension_scores_perm ks ks' [] p = refl
dimension_scores_perm ks ks' ((d, w) ∷ ws) p =
    rw (points_of_perm d ks ks' p, dimension_scores_perm ks ks' ws p) refl

-- The band with a given minimum.
abbrev band_from : ℕ → RiskBand
band_from n =
    if ltb n 25 then low else if ltb n 50 then moderate else if ltb n 75 then high else critical

band_from-minimum : (b : RiskBand) → band_from (_band_minimum b) ≡ b
unfolding _band_minimum
band_from-minimum low = refl
band_from-minimum moderate = refl
band_from-minimum high = refl
band_from-minimum critical = refl

_band_minimum-injective : (a b : RiskBand) → _band_minimum a ≡ _band_minimum b → a ≡ b
_band_minimum-injective a b e = sym (band_from-minimum a) ∙ ap band_from e ∙ band_from-minimum b

-- The larger of a floor and those behind it.
abbrev larger : RiskBand → Option RiskBand → Option RiskBand
larger b o = elim o [
  | none ↦ some b
  | some rest ↦ some (if ltb (_band_minimum b) (_band_minimum rest) then rest else b)
]

largest_floor_swap :
    (a b : RiskBand) (bs : List RiskBand) → largest_floor (a ∷ b ∷ bs) ≡ largest_floor (b ∷ a ∷ bs)
unfolding largest_floor
largest_floor_swap a b bs = ground (arith, _band_minimum-injective a b)

largest_floor_perm : (bs bs' : List RiskBand) → Permᴰ bs bs' → largest_floor bs ≡ largest_floor bs'
unfolding largest_floor
largest_floor_perm _ _ nil = refl
largest_floor_perm (a ∷ bs) (b ∷ bs') (cons e p) = ap₂ larger e (largest_floor_perm bs bs' p)
largest_floor_perm (a ∷ b ∷ bs) (a' ∷ b' ∷ cs) (swap e f) =
    largest_floor_swap a b bs ∙ ap₂ (λ x y. largest_floor (x ∷ y ∷ bs)) f e
largest_floor_perm bs bs' (trans {l₂ = ms} p q) =
    largest_floor_perm bs ms p ∙ largest_floor_perm ms bs' q

calculate_risk-parts :
    (ks : List RiskContribution) (floors : List RiskBand) (configuration : RiskConfiguration)
    (r : RiskScore)
    → calculate_risk ks floors configuration ≡ ok r
    → (r.dimensions ≡ map (dimension_score ks) configuration.weights)
      × ((r.score
            ≡ max
                (round_half_up (weighted_sum (map (dimension_score ks) configuration.weights)))
                (floor_minimum (largest_floor floors)))
          × ((classify_risk r.score ≡ ok r.band) × (r.severity_floor ≡ largest_floor floors)))
unfolding calculate_risk
calculate_risk-parts ks floors configuration r h =
    let raw = weighted_sum (map (dimension_score ks) configuration.weights) in
    elim (Result-cases
      (classify_risk (max (round_half_up raw) (floor_minimum (largest_floor floors))))) [
        | inr (x, q) ↦ absurd (ground arith)
        | inl (b, q) ↦
            let score : r.score ≡ max (round_half_up raw) (floor_minimum (largest_floor floors)) =
              ground arith in
            let band : r.band ≡ b = ground arith in
            (ground arith, (score, (rw (score, band) q, ground arith)))
      ]

-- The order of the contributions and of the severity floors does not matter: with the same ones in another
-- order the dimensions, the score, the band and the reported floor are the same.
pub calculate_risk_perm :
    (configuration : RiskConfiguration) (ks ks' : List RiskContribution)
    (floors floors' : List RiskBand) (r r' : RiskScore)
    → Permᴰ ks ks'
    → Permᴰ floors floors'
    → calculate_risk ks floors configuration ≡ ok r
    → calculate_risk ks' floors' configuration ≡ ok r'
    → (r.dimensions ≡ r'.dimensions)
      × (r.score ≡ r'.score)
      × (r.band ≡ r'.band)
      × (r.severity_floor ≡ r'.severity_floor)
calculate_risk_perm configuration ks ks' floors floors' r r' p q h h' =
    let d = dimension_scores_perm ks ks' configuration.weights p in
    let f = largest_floor_perm floors floors' q in
    let (ds, (ss, (cs, fs))) = calculate_risk-parts ks floors configuration r h in
    let (ds', (ss', (cs', fs'))) = calculate_risk-parts ks' floors' configuration r' h' in
    let same_score : r.score ≡ r'.score = ss ∙ rw (d, f) (sym ss') in
    let classified : classify_risk r.score ≡ ok r'.band = ap classify_risk same_score ∙ cs' in
    (ds ∙ d ∙ sym ds', same_score, cc (cs, classified), fs ∙ f ∙ sym fs')
