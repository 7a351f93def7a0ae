-- ===== src/Policies/Risk.antt =====
-- The risk score (apps/policies/risk.py). Points and weighted points are exact: a `Decimal` with two
-- places is its number of hundredths.
pub mod Bounds
pub mod Order
use Prim.Native.String.{count}
use Prim.Native.Nat.{min, max}
use agentledger_mvp_v.Base.{
  ℕ, zero, suc, ◌+◌, ◌*◌, ◌/◌, String, Bool, true, false, not, ◌&&◌, ◌||◌, Option, none, some, List,
  [], ◌∷◌, ◌++◌, ltb, leb, ◌==◌, if◌then◌else◌, str_eq, length, map,
}
use agentledger_mvp_v.Base.Int.{ℤ, pos, negsuc, ◌+ℤ◌, pos_part}
use agentledger_mvp_v.Base.Result.{Result, ok, err, ◌>>=◌, raise_if}
use agentledger_mvp_v.Policies.Effect.{Effect, EffectValue, no_value, number, name}
use agentledger_mvp_v.Policies.Engine.{RuleEvaluation, PolicyEvaluation}

pub data RiskError : Type 0 where
  weights_not_each_once negative_weight weights_not_total no_version : RiskError
  score_out_of_range contribution_without_reason unknown_dimension no_number unknown_severity :
      RiskError

pub data RiskDimension : Type 0 where
  data_sensitivity system_privilege autonomy external_connectivity : RiskDimension
  human_oversight financial_impact regulatory_relevance vendor_risk : RiskDimension

pub data RiskBand : Type 0 where
  low moderate high critical : RiskBand

-- The place of a dimension in `RiskDimension`, to compare two with `is`.
abbrev pub place : RiskDimension → ℕ
place data_sensitivity = 0
place system_privilege = 1
place autonomy = 2
place external_connectivity = 3
place human_oversight = 4
place financial_impact = 5
place regulatory_relevance = 6
place vendor_risk = 7

abbrev pub same_dimension : RiskDimension → RiskDimension → Bool
same_dimension d e = place d == place e

abbrev pub all_dimensions : List RiskDimension
all_dimensions =
    data_sensitivity ∷ system_privilege ∷ autonomy ∷ external_connectivity ∷ human_oversight
    ∷ financial_impact ∷ regulatory_relevance ∷ vendor_risk ∷ []

pub record RiskConfiguration : Type 0 where
  pub version : String
  pub weights : List (RiskDimension × ℕ)

abbrev pub times : RiskDimension → List (RiskDimension × ℤ) → ℕ
times d [] = 0
times d (w ∷ ws) = let rest = times d ws in if same_dimension d w.0 then suc rest else rest

-- Each member of `RiskDimension` is configured, and none twice.
abbrev pub each_once : List RiskDimension → List (RiskDimension × ℤ) → Bool
each_once [] ws = true
each_once (d ∷ ds) ws = (times d ws == 1) && each_once ds ws

unfoldable pub natural_weights :
    List (RiskDimension × ℤ) → Result RiskError (List (RiskDimension × ℕ))
natural_weights [] = ok []
natural_weights ((d, pos n) ∷ ws) = natural_weights ws >>= λ rest. ok ((d, n) ∷ rest)
natural_weights ((d, negsuc n) ∷ ws) = err negative_weight

abbrev pub total_weight : List (RiskDimension × ℕ) → ℕ
total_weight [] = 0
total_weight (w ∷ ws) = w.1 + total_weight ws

-- `RiskConfiguration.__post_init__`
unfoldable pub risk_configuration :
    String → List (RiskDimension × ℤ) → Result RiskError RiskConfiguration
unfolding natural_weights
risk_configuration version weights =
    raise_if (not (each_once all_dimensions weights)) weights_not_each_once >>= λ _.
    natural_weights weights >>= λ ws.
    raise_if (not (total_weight ws == 100)) weights_not_total >>= λ _.
    raise_if (count version == 0) no_version >>= λ _.
    ok (record { version = version; weights = ws })

pub record RiskContribution : Type 0 where
  pub reason : String
  pub rule_id : String
  pub rule_version : String
  pub dimension : RiskDimension
  pub points : ℤ

-- `RiskContribution.__post_init__`
unfoldable pub make_contribution : RiskContribution → Result RiskError RiskContribution
make_contribution k =
    if (count k.reason == 0) || ((count k.rule_id == 0) || (count k.rule_version == 0))
    then err contribution_without_reason
    else ok k

pub record DimensionScore : Type 0 where
  pub dimension : RiskDimension
  pub raw_points : ℤ
  pub score : ℕ
  pub weight_percent : ℕ
  pub weighted_points : ℕ

pub record RiskScore : Type 0 where
  pub engine_version : String
  pub configuration_version : String
  pub dimensions : List DimensionScore
  pub contributions : List RiskContribution
  pub raw_weighted_score : ℕ
  pub score : ℕ
  pub band : RiskBand
  pub severity_floor : Option RiskBand

-- `BAND_MINIMUMS`
unfoldable pub _band_minimum : RiskBand → ℕ
_band_minimum low = 0
_band_minimum moderate = 25
_band_minimum high = 50
_band_minimum critical = 75

unfoldable pub classify_risk : ℕ → Result RiskError RiskBand
classify_risk score =
    if not (leb score 100)
    then err score_out_of_range
    else if leb score 24
    then ok low
    else if leb score 49
    then ok moderate
    else if leb score 74
    then ok high
    else ok critical

abbrev pub points_of : RiskDimension → List RiskContribution → ℤ
points_of d [] = pos 0
points_of d (k ∷ ks) =
    let rest = points_of d ks in if same_dimension k.dimension d then k.points +ℤ rest else rest

-- One turn of the loop: `min(100, max(0, raw_points))`, weighted.
unfoldable pub dimension_score : List RiskContribution → RiskDimension × ℕ → DimensionScore
dimension_score contributions (dimension, weight) = record {
  dimension = dimension;
  raw_points = points_of dimension contributions;
  score = min 100 (pos_part (points_of dimension contributions));
  weight_percent = weight;
  weighted_points = min 100 (pos_part (points_of dimension contributions)) * weight;
}

abbrev pub weighted_sum : List DimensionScore → ℕ
weighted_sum [] = 0
weighted_sum (d ∷ ds) = d.weighted_points + weighted_sum ds

-- `max(severity_floors, key=_band_minimum, default=None)`: the first of the largest.
unfoldable pub largest_floor : List RiskBand → Option RiskBand
unfolding _band_minimum
largest_floor [] = none
largest_floor (b ∷ bs) = elim (largest_floor bs) [
  | none ↦ some b
  | some rest ↦ some (if ltb (_band_minimum b) (_band_minimum rest) then rest else b)
]

abbrev pub floor_minimum : Option RiskBand → ℕ
floor_minimum none = 0
floor_minimum (some b) = _band_minimum b

-- `quantize(Decimal("1"), ROUND_HALF_UP)` of a number of hundredths.
abbrev pub round_half_up : ℕ → ℕ
round_half_up hundredths = (hundredths + 50) / 100

unfoldable pub calculate_risk :
    List RiskContribution → List RiskBand → RiskConfiguration → Result RiskError RiskScore
unfolding dimension_score largest_floor classify_risk
calculate_risk contributions severity_floors configuration =
    let breakdowns = map (dimension_score contributions) configuration.weights in
    let severity_floor = largest_floor severity_floors in
    let score = max (round_half_up (weighted_sum breakdowns)) (floor_minimum severity_floor) in
    classify_risk score >>= λ band. ok (record {
      engine_version = "AL-RISK-1";
      configuration_version = configuration.version;
      dimensions = breakdowns;
      contributions = contributions;
      raw_weighted_score = weighted_sum breakdowns;
      score = score;
      band = band;
      severity_floor = severity_floor;
    })

-- `RiskDimension(effect.dimension)`, for a supported dimension.
unfoldable pub dimension_of : Option String → Option RiskDimension
dimension_of none = none
dimension_of (some d) =
    if str_eq d "data_sensitivity"
    then some data_sensitivity
    else if str_eq d "system_privilege"
    then some system_privilege
    else if str_eq d "autonomy"
    then some autonomy
    else if str_eq d "external_connectivity"
    then some external_connectivity
    else if str_eq d "human_oversight"
    then some human_oversight
    else if str_eq d "financial_impact"
    then some financial_impact
    else if str_eq d "regulatory_relevance"
    then some regulatory_relevance
    else if str_eq d "vendor_risk"
    then some vendor_risk
    else none

-- `RiskBand[Severity[effect.value].name]`: `NONE` is a severity and no band.
unfoldable pub floor_of : EffectValue → Result RiskError RiskBand
floor_of (name s) =
    if str_eq s "LOW"
    then ok low
    else if str_eq s "MODERATE"
    then ok moderate
    else if str_eq s "HIGH"
    then ok high
    else if str_eq s "CRITICAL"
    then ok critical
    else err unknown_severity
floor_of _ = err unknown_severity

-- `int(effect.value)` of an effect that gives points: `Effect.__post_init__` has seen to a number.
abbrev points_value : EffectValue → Result RiskError ℤ
points_value (number n) = ok n
points_value _ = err no_number

-- The contributions and the floors collected so far.
abbrev pub Collected : Type 0
Collected = List RiskContribution × List RiskBand

-- One effect of a result.
unfoldable pub collect_effect : RuleEvaluation → Effect → Result RiskError Collected
unfolding dimension_of floor_of make_contribution
collect_effect r e =
    if str_eq e.type "risk_points"
    then elim (dimension_of e.dimension) [
      | none ↦ err unknown_dimension
      | some d ↦ points_value e.value >>= λ n.
          make_contribution (record {
            reason = r.explanation;
            rule_id = r.rule_id;
            rule_version = r.rule_version;
            dimension = d;
            points = n;
          })
          >>= λ k. ok (k ∷ [], [])
    ]
    else if str_eq e.type "severity_floor"
    then (floor_of e.value >>= λ b. ok ([], b ∷ []))
    else ok ([], [])

abbrev joined : Collected → Collected → Collected
joined a b = (a.0 ++ b.0, a.1 ++ b.1)

unfoldable pub collect_effects : RuleEvaluation → List Effect → Result RiskError Collected
unfolding collect_effect
collect_effects r [] = ok ([], [])
collect_effects r (e ∷ es) =
    collect_effect r e >>= λ a. collect_effects r es >>= λ b. ok (joined a b)

unfoldable pub collect_results : List RuleEvaluation → Result RiskError Collected
unfolding collect_effects
collect_results [] = ok ([], [])
collect_results (r ∷ rs) =
    collect_effects r r.effects >>= λ a. collect_results rs >>= λ b. ok (joined a b)

unfoldable pub calculate_policy_risk :
    PolicyEvaluation → RiskConfiguration → Result RiskError RiskScore
unfolding collect_results calculate_risk
calculate_policy_risk evaluation configuration =
    collect_results evaluation.results >>= λ a. calculate_risk a.0 a.1 configuration
