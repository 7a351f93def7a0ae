-- ===== src/Policies/Risk/Bounds.antt =====
-- The score and its band: a configuration that was accepted always gives a score from 0 to 100, in the
-- band that its limits say and never below a floor.
use native.Mathlib.Nat.{mul-le-mul_right}
use Prim.Native.Nat.{min, max}
use mathlib.Core.Path.{ap₂}
use agentledger_mvp_v.Base.{
  ℕ, ◌+◌, ◌*◌, ◌≤◌, ◌<◌, ◌≡◌, refl, String, true, Option, none, some, List, [], ◌∷◌, All, map,
  arith, Option-cases, Bool-cases, All-imp, filter, ap, ◌⊎◌, inl, inr, leb,
}
use agentledger_mvp_v.Base.Int.{ℤ, pos, pos_part, ◌+ℤ◌}
use agentledger_mvp_v.Base.Result.{ok, Result-cases}
use agentledger_mvp_v.Policies.Risk.{
  RiskDimension, same_dimension, RiskBand, low, moderate, high, critical, RiskConfiguration,
  risk_configuration, natural_weights, total_weight, RiskContribution, RiskScore, points_of,
  dimension_score, weighted_sum, largest_floor, floor_minimum, _band_minimum, classify_risk,
  round_half_up, calculate_risk,
}

-- The highest score of a band.
abbrev pub band_maximum : RiskBand → ℕ
band_maximum low = 24
band_maximum moderate = 49
band_maximum high = 74
band_maximum critical = 100

-- The score lies in the band.
abbrev pub InBand : ℕ → RiskBand → Type 0
InBand score b = (_band_minimum b ≤ score) × (score ≤ band_maximum b)

risk_configuration-total :
    (version : String) (weights : List (RiskDimension × ℤ)) (configuration : RiskConfiguration)
    → risk_configuration version weights ≡ ok configuration
    → total_weight configuration.weights ≡ 100
unfolding risk_configuration
risk_configuration-total version weights configuration h =
    elim (Result-cases (natural_weights weights)) [
      | inr (x, q) ↦ absurd (ground arith)
      | inl (ws, q) ↦ ground arith
    ]

weighted_sum-bound :
    (ks : List RiskContribution) (ws : List (RiskDimension × ℕ))
    → weighted_sum (map (dimension_score ks) ws) ≤ 100 * total_weight ws
unfolding dimension_score
weighted_sum-bound ks [] = omega arith
weighted_sum-bound ks ((d, w) ∷ ws) = omega (
  arith,
  mul-le-mul_right {m = min 100 (pos_part (points_of d ks))} {n = 100} w (omega arith),
  weighted_sum-bound ks ws,
)

floor_minimum-bound : (o : Option RiskBand) → floor_minimum o ≤ 75
unfolding _band_minimum
floor_minimum-bound none = omega arith
floor_minimum-bound (some low) = omega arith
floor_minimum-bound (some moderate) = omega arith
floor_minimum-bound (some high) = omega arith
floor_minimum-bound (some critical) = omega arith

largest_floor-step :
    (b : RiskBand) (bs : List RiskBand)
    → (_band_minimum b ≤ floor_minimum (largest_floor (b ∷ bs)))
      × (floor_minimum (largest_floor bs) ≤ floor_minimum (largest_floor (b ∷ bs)))
unfolding largest_floor
largest_floor-step b bs = elim (Option-cases (largest_floor bs)) [
  | inl e ↦ (ground arith, ground arith)
  | inr (r, e) ↦ (ground arith, ground arith)
]

largest_floor-All :
    (bs : List RiskBand) → All (λ b. _band_minimum b ≤ floor_minimum (largest_floor bs)) bs
unfolding largest_floor
largest_floor-All [] = tt
largest_floor-All (b ∷ bs) =
    let (first, rest) = largest_floor-step b bs in
    (first, All-imp (λ x h. omega (arith, h, rest)) bs (largest_floor-All bs))

classify_risk-InBand :
    (score : ℕ) → score ≤ 100 → (b : RiskBand) × ((classify_risk score ≡ ok b) × InBand score b)
unfolding classify_risk _band_minimum
classify_risk-InBand score h =
    let within : leb score 100 ≡ true = ground arith in
    elim (Bool-cases (leb score 24)) [
      | inl a ↦ (low, (ground arith, (omega arith, ground arith)))
      | inr a ↦ elim (Bool-cases (leb score 49)) [
        | inl b ↦ (moderate, (ground arith, (ground arith, ground arith)))
        | inr b ↦ elim (Bool-cases (leb score 74)) [
          | inl d ↦ (high, (ground arith, (ground arith, ground arith)))
          | inr d ↦ (critical, (ground arith, (ground arith, h)))
        ]
      ]
    ]

-- The sum of all points of the contributions to a dimension.
abbrev pub sum_points : List RiskContribution → ℤ
sum_points [] = pos 0
sum_points (k ∷ ks) = k.points +ℤ sum_points ks

abbrev pub points_in : RiskDimension → List RiskContribution → ℤ
points_in d ks = sum_points (filter (λ k. same_dimension k.dimension d) ks)

-- The sum, over the dimensions, of the points between 0 and 100 times the weight.
abbrev pub weighted : List RiskContribution → List (RiskDimension × ℕ) → ℕ
weighted ks [] = 0
weighted ks (w ∷ ws) = min 100 (pos_part (points_in w.0 ks)) * w.1 + weighted ks ws

points_of-filter :
    (d : RiskDimension) (ks : List RiskContribution) → points_of d ks ≡ points_in d ks
points_of-filter d [] = refl
points_of-filter d (k ∷ ks) = elim (Bool-cases (same_dimension k.dimension d)) [
  | inl e ↦ rw e (ap (λ n. k.points +ℤ n) (points_of-filter d ks))
  | inr e ↦ rw e (points_of-filter d ks)
]

weighted_sum-weighted :
    (ks : List RiskContribution) (ws : List (RiskDimension × ℕ))
    → weighted_sum (map (dimension_score ks) ws) ≡ weighted ks ws
unfolding dimension_score
weighted_sum-weighted ks [] = refl
weighted_sum-weighted ks ((d, w) ∷ ws) =
    ap₂ (λ n rest. min 100 (pos_part n) * w + rest) (points_of-filter d ks)
      (weighted_sum-weighted ks ws)

-- What a score promises.
pub record IsScoreOf (ks : List RiskContribution) (ws : List (RiskDimension × ℕ))
    (floors : List RiskBand) (r : RiskScore) : Type 0 where
  pub weighs : r.raw_weighted_score ≡ weighted ks ws
  pub within : r.score ≤ 100
  pub in_band : InBand r.score r.band
  pub above_floors : All (λ b. _band_minimum b ≤ r.score) floors
  pub rounds_up : r.raw_weighted_score + 50 < 100 * (r.score + 1)
  pub is_tight :
      (100 * r.score ≤ r.raw_weighted_score + 50)
      ⊎ ((b : RiskBand) × (r.severity_floor ≡ some b) × (r.score ≡ _band_minimum b))

floor-some :
    (o : Option RiskBand) (n : ℕ)
    → floor_minimum o ≡ n
    → 0 < n
    → (b : RiskBand) × (o ≡ some b) × (n ≡ _band_minimum b)
floor-some none n e p = absurd (omega arith)
floor-some (some b) n e p = (b, refl, omega (arith, e))

score-is_tight :
    (raw : ℕ) (o : Option RiskBand)
    → (100 * max (round_half_up raw) (floor_minimum o) ≤ raw + 50)
      ⊎ ((b : RiskBand) × (o ≡ some b)
          × (max (round_half_up raw) (floor_minimum o) ≡ _band_minimum b))
score-is_tight raw o = elim (Bool-cases (leb (floor_minimum o) (round_half_up raw))) [
  | inl low_floor ↦
      let le : floor_minimum o ≤ round_half_up raw = ground arith in inl (omega (arith, le))
  | inr high_floor ↦
      let lt : round_half_up raw < floor_minimum o = ground arith in
      inr (
        floor-some o (max (round_half_up raw) (floor_minimum o)) (omega (arith, lt))
          (omega (arith, lt)))
]

-- With a configuration that was accepted the risk score is always calculated. It is a whole number from 0
-- to 100 in the reported band, not below the minimum of any severity floor; it is the weighted sum of the
-- dimensions rounded half up, unless the minimum of the reported floor is above that. A dimension weighs in
-- with the sum of its points, put between 0 and 100, times its weight, in hundredths.
pub calculate_risk-IsScoreOf :
    (version : String) (weights : List (RiskDimension × ℤ)) (configuration : RiskConfiguration)
    (contributions : List RiskContribution) (floors : List RiskBand)
    → risk_configuration version weights ≡ ok configuration
    → (r : RiskScore) × (calculate_risk contributions floors configuration ≡ ok r)
      × IsScoreOf contributions configuration.weights floors r
unfolding calculate_risk
calculate_risk-IsScoreOf version weights configuration ks floors h =
    let raw = weighted_sum (map (dimension_score ks) configuration.weights) in
    let o = largest_floor floors in
    let score = max (round_half_up raw) (floor_minimum o) in
    let total = risk_configuration-total version weights configuration h in
    let bound = weighted_sum-bound ks configuration.weights in
    let within : score ≤ 100 = omega (arith, total, bound, floor_minimum-bound o) in
    let (b, (made, in_band)) = classify_risk-InBand score within in
    let r : RiskScore = record {
      engine_version = "AL-RISK-1";
      configuration_version = configuration.version;
      dimensions = map (dimension_score ks) configuration.weights;
      contributions = ks;
      raw_weighted_score = raw;
      score = score;
      band = b;
      severity_floor = o;
    } in
    (
      r,
      rw made refl,
      record {
        weighs = weighted_sum-weighted ks configuration.weights;
        within = within;
        in_band = in_band;
        above_floors = All-imp (λ x p. omega (arith, p)) floors (largest_floor-All floors);
        rounds_up = omega arith;
        is_tight = score-is_tight raw o;
      },
    )

pos_part-more : (n : ℕ) (b : ℤ) → pos_part b ≤ pos_part (pos n +ℤ b)
unfolding ◌+ℤ◌
pos_part-more n b = ground arith

points_of-more :
    (d : RiskDimension) (k : RiskContribution) (ks : List RiskContribution) (n : ℕ)
    → k.points ≡ pos n
    → pos_part (points_of d ks) ≤ pos_part (points_of d (k ∷ ks))
points_of-more d k ks n e = ground (arith, e, pos_part-more n (points_of d ks))

weighted_sum-more :
    (k : RiskContribution) (ks : List RiskContribution) (n : ℕ) (ws : List (RiskDimension × ℕ))
    → k.points ≡ pos n
    → weighted_sum (map (dimension_score ks) ws) ≤ weighted_sum (map (dimension_score (k ∷ ks)) ws)
unfolding dimension_score
weighted_sum-more k ks n [] e = omega arith
weighted_sum-more k ks n ((d, w) ∷ ws) e = omega (
  arith,
  mul-le-mul_right {m = min 100 (pos_part (points_of d ks))}
      {n = min 100 (pos_part (points_of d (k ∷ ks)))} w (omega (arith, points_of-more d k ks n e)),
  weighted_sum-more k ks n ws e,
)

calculate_risk-score :
    (ks : List RiskContribution) (floors : List RiskBand) (configuration : RiskConfiguration)
    (r : RiskScore)
    → calculate_risk ks floors configuration ≡ ok r
    → r.score
      ≡ max
          (round_half_up (weighted_sum (map (dimension_score ks) configuration.weights)))
          (floor_minimum (largest_floor floors))
unfolding calculate_risk
calculate_risk-score ks floors configuration r h = ground arith

-- One more contribution of points that are not negative, or one more severity floor, never lowers the score.
pub calculate_risk_monotone :
    (configuration : RiskConfiguration) (k : RiskContribution) (n : ℕ) (ks : List RiskContribution)
    (b : RiskBand) (floors : List RiskBand) (r more higher : RiskScore)
    → k.points ≡ pos n
    → calculate_risk ks floors configuration ≡ ok r
    → calculate_risk (k ∷ ks) floors configuration ≡ ok more
    → calculate_risk ks (b ∷ floors) configuration ≡ ok higher
    → (r.score ≤ more.score) × (r.score ≤ higher.score)
calculate_risk_monotone configuration k n ks b floors r more higher e h h' h'' =
    let s = calculate_risk-score ks floors configuration r h in
    (
      omega (
        arith,
        s,
        calculate_risk-score (k ∷ ks) floors configuration more h',
        weighted_sum-more k ks n configuration.weights e,
      ),
      omega (
        arith,
        s,
        calculate_risk-score ks (b ∷ floors) configuration higher h'',
        (largest_floor-step b floors).1,
      ),
    )
