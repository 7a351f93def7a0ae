-- ===== src/Policies/Tests.antt =====
-- Runs of the rule engine and the risk score, and the theorems at concrete inputs.
use agentledger_mvp_v.Base.{ℕ, ◌≤◌, ◌≡◌, refl, true, false, Option, none, some, List, [], ◌∷◌, map}
use agentledger_mvp_v.Base.Int.{ℤ, pos, negsuc, ◌+ℤ◌}
use agentledger_mvp_v.Base.Result.{Result, ok, err}
use agentledger_mvp_v.Policies.Effect.{PolicyError, Effect, number, name, fail, high}
use agentledger_mvp_v.Policies.Engine.{
  Value, tuple, string, boolean, nil, cons, Context, Rule, RuleEvaluation, industry,
  platform_recommendation, evaluate_policies, PolicyEvaluation,
}
use agentledger_mvp_v.Policies.Risk
use agentledger_mvp_v.Policies.Risk.{
  RiskDimension, data_sensitivity, system_privilege, autonomy, external_connectivity,
  human_oversight, financial_impact, regulatory_relevance, vendor_risk, RiskBand, RiskConfiguration,
  RiskContribution, RiskScore, risk_configuration, calculate_risk, calculate_policy_risk,
}
use mathlib.Core.List.{Permᴰ}
use agentledger_mvp_v.Policies.Risk.Order.{calculate_risk_perm}
use agentledger_mvp_v.Policies.Registry
use agentledger_mvp_v.Policies.Registry.{PublishedRuleSet, publish, publish_all, publish_kept}
use agentledger_mvp_v.Policies.Evaluation.{InPrecedence, Results, evaluate_policies-Results}
use agentledger_mvp_v.Policies.Risk.Bounds.{
  IsScoreOf, calculate_risk-IsScoreOf, calculate_risk_monotone,
}

-- `DEFAULT_RISK_CONFIGURATION`
abbrev default_weights : List (RiskDimension × ℤ)
default_weights =
    (data_sensitivity, pos 20)
    ∷ (system_privilege, pos 20)
    ∷ (autonomy, pos 15)
    ∷ (external_connectivity, pos 15)
    ∷ (human_oversight, pos 10)
    ∷ (financial_impact, pos 10)
    ∷ (regulatory_relevance, pos 5)
    ∷ (vendor_risk, pos 5)
    ∷ []

abbrev default_configuration : RiskConfiguration
default_configuration = record {
  version = "AL-RISK-1";
  weights =
      (data_sensitivity, 20)
      ∷ (system_privilege, 20)
      ∷ (autonomy, 15)
      ∷ (external_connectivity, 15)
      ∷ (human_oversight, 10)
      ∷ (financial_impact, 10)
      ∷ (regulatory_relevance, 5)
      ∷ (vendor_risk, 5)
      ∷ [];
}

default_accepted : risk_configuration "AL-RISK-1" default_weights ≡ ok default_configuration
unfolding risk_configuration
default_accepted = refl

-- The first rule of the accounting pack.
abbrev payroll_effects : List Effect
payroll_effects =
    record {
      type = "risk_points";
      dimension = some "data_sensitivity";
      value = number (pos 25);
      control = none;
      message = none;
    }
    ∷ record {
      type = "severity_floor";
      dimension = none;
      value = name "HIGH";
      control = none;
      message = none;
    }
    ∷ []

abbrev payroll : Rule
payroll = record {
  rule_id = "ACC-PAYROLL-EXT";
  version = "1.1.0";
  layer = industry;
  conditions =
      record { field = "data_categories"; operator = "contains"; value = string "payroll" }
      ∷ record { field = "human_approval"; operator = "is_false"; value = Value.none_value }
      ∷ [];
  effects = payroll_effects;
  result_on_match = fail;
  explanation = "payroll leaves the firm";
  severity = high;
  remediation = "approve";
  overridable = false;
}

abbrev context : Context
context =
    ("data_categories", tuple (cons (string "payroll") nil))
    ∷ ("human_approval", boolean false)
    ∷ []

abbrev contribution : RiskContribution
contribution = record {
  reason = "payroll leaves the firm";
  rule_id = "ACC-PAYROLL-EXT";
  rule_version = "1.1.0";
  dimension = data_sensitivity;
  points = pos 25;
}

abbrev score_of : Result Risk.RiskError RiskScore → ℕ × Option RiskBand
score_of (err e) = (0, none)
score_of (ok r) = (r.score, some r.band)

abbrev policy_score : Result PolicyError PolicyEvaluation → ℕ × Option RiskBand
policy_score (err e) = (0, none)
policy_score (ok e) = score_of (calculate_policy_risk e default_configuration)

-- The floor of the rule raises 5 points to a score of 50.
payroll_score : policy_score (evaluate_policies (payroll ∷ []) context) ≡ (50, some Risk.high)
unfolding evaluate_policies calculate_policy_risk ◌+ℤ◌
payroll_score = refl

calculate_risk-IsScoreOf_example :
    (r : RiskScore) × (calculate_risk (contribution ∷ []) (Risk.high ∷ []) default_configuration
      ≡ ok r)
    × IsScoreOf (contribution ∷ []) default_configuration.weights (Risk.high ∷ []) r
calculate_risk-IsScoreOf_example =
    calculate_risk-IsScoreOf "AL-RISK-1" default_weights default_configuration (contribution ∷ [])
      (Risk.high ∷ []) default_accepted

abbrev got : List RiskContribution → List RiskBand → RiskScore
got ks bs = elim (calculate_risk ks bs default_configuration) [ ok r ↦ r | err e ↦ blank ]
  where
    blank : RiskScore
    blank = record {
      engine_version = "";
      configuration_version = "";
      dimensions = [];
      contributions = [];
      raw_weighted_score = 0;
      score = 0;
      band = Risk.low;
      severity_floor = none;
    }

calculate_risk_monotone_example :
    ((got [] []).score ≤ (got (contribution ∷ []) []).score)
    × ((got [] []).score ≤ (got [] (Risk.high ∷ [])).score)
unfolding ◌+ℤ◌
calculate_risk_monotone_example =
    calculate_risk_monotone default_configuration contribution 25 [] Risk.high [] (got [] [])
      (got (contribution ∷ []) []) (got [] (Risk.high ∷ [])) refl calculated more higher
  where
    calculated : calculate_risk [] [] default_configuration ≡ ok (got [] [])
    calculated = unfold calculate_risk in refl

    more :
        calculate_risk (contribution ∷ []) [] default_configuration
        ≡ ok (got (contribution ∷ []) [])
    more = unfold calculate_risk in refl

    higher : calculate_risk [] (Risk.high ∷ []) default_configuration ≡ ok (got [] (Risk.high ∷ []))
    higher = unfold calculate_risk in refl

abbrev oversight : RiskContribution
oversight = record {
  reason = "nobody approves";
  rule_id = "ACC-2";
  rule_version = "1.1.0";
  dimension = human_oversight;
  points = negsuc 4;
}

calculate_risk_perm_example :
    let r = got (contribution ∷ oversight ∷ []) (Risk.low ∷ Risk.high ∷ []) in
    let r' = got (oversight ∷ contribution ∷ []) (Risk.high ∷ Risk.low ∷ []) in
    (r.dimensions ≡ r'.dimensions)
    × (r.score ≡ r'.score)
    × (r.band ≡ r'.band)
    × (r.severity_floor ≡ r'.severity_floor)
unfolding ◌+ℤ◌
calculate_risk_perm_example =
    calculate_risk_perm default_configuration (contribution ∷ oversight ∷ [])
      (oversight ∷ contribution ∷ []) (Risk.low ∷ Risk.high ∷ []) (Risk.high ∷ Risk.low ∷ [])
      (got (contribution ∷ oversight ∷ []) (Risk.low ∷ Risk.high ∷ []))
      (got (oversight ∷ contribution ∷ []) (Risk.high ∷ Risk.low ∷ [])) (Permᴰ.swap refl refl)
      (Permᴰ.swap refl refl) one other
  where
    one :
        calculate_risk
          (contribution ∷ oversight ∷ [])
          (Risk.low ∷ Risk.high ∷ [])
          default_configuration
        ≡ ok (got (contribution ∷ oversight ∷ []) (Risk.low ∷ Risk.high ∷ []))
    one = unfold calculate_risk in refl

    other :
        calculate_risk
          (oversight ∷ contribution ∷ [])
          (Risk.high ∷ Risk.low ∷ [])
          default_configuration
        ≡ ok (got (oversight ∷ contribution ∷ []) (Risk.high ∷ Risk.low ∷ []))
    other = unfold calculate_risk in refl

-- A recommendation, which goes after the rule of the industry.
abbrev review : Rule
review = record {
  rule_id = "A-REVIEW";
  version = "1";
  layer = platform_recommendation;
  conditions = record { field = "status"; operator = "equals"; value = string "active" } ∷ [];
  effects = [];
  result_on_match = fail;
  explanation = "review";
  severity = high;
  remediation = "review";
  overridable = true;
}

abbrev evaluated : PolicyEvaluation
evaluated = elim (evaluate_policies (review ∷ payroll ∷ []) context) [
  | ok e ↦ e
  | err x ↦ record { engine_version = ""; results = [] }
]

evaluated-ok : evaluate_policies (review ∷ payroll ∷ []) context ≡ ok evaluated
unfolding evaluate_policies
evaluated-ok = refl

first_evaluated :
    map (λ (e : RuleEvaluation). e.rule_id) evaluated.results ≡ "ACC-PAYROLL-EXT" ∷ "A-REVIEW" ∷ []
unfolding evaluate_policies
first_evaluated = refl

evaluate_policies-Results_example :
    (sorted : List Rule) × Permᴰ sorted (review ∷ payroll ∷ [])
    × InPrecedence sorted
    × Results context sorted evaluated.results
evaluate_policies-Results_example =
    evaluate_policies-Results (review ∷ payroll ∷ []) context evaluated evaluated-ok

abbrev pack : PublishedRuleSet
pack = record { name = "accounting_and_bookkeeping"; version = "1.1.0"; rules = payroll ∷ [] }

abbrev other_pack : PublishedRuleSet
other_pack = record { name = "accounting_and_bookkeeping"; version = "1.1.0"; rules = review ∷ [] }

first_published : (publish pack []).0 ≡ ok tt
unfolding publish
first_published = refl

publish_kept_example :
    (Registry.get pack.name pack.version (publish_all (other_pack ∷ []) (publish pack []).1)
      ≡ ok pack)
    × (publish other_pack (publish_all (other_pack ∷ []) (publish pack []).1)
        ≡ (err Registry.published_rule_conflict, publish_all (other_pack ∷ []) (publish pack []).1))
publish_kept_example = publish_kept pack other_pack [] (other_pack ∷ []) first_published refl refl
