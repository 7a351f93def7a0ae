-- ===== src/Policies/Effect.antt =====
-- Effects of rules and results of evaluations (apps/policies/engine.py), as far as the risk score reads
-- them.
use Prim.Native.String.{count}
use agentledger_mvp_v.Base.{
  String, Bool, true, false, not, ◌&&◌, ◌||◌, Option, none, some, List, [], ◌∷◌, ◌==◌, str_eq,
}
use agentledger_mvp_v.Base.Int.{ℤ}
use agentledger_mvp_v.Base.Result.{Result, ok, ◌>>=◌, raise_if}

pub data PolicyError : Type 0 where
  definition_error evaluation_error type_error : PolicyError

-- `int | str | None`
pub data EffectValue : Type 0 where
  no_value : EffectValue
  number : ℤ → EffectValue
  name : String → EffectValue

pub record Effect : Type 0 where
  pub type : String
  pub dimension : Option String
  pub value : EffectValue
  pub control : Option String
  pub message : Option String

abbrev pub member : String → List String → Bool
member s [] = false
member s (t ∷ ts) = str_eq s t || member s ts

-- `not text`: no text, or the empty one.
abbrev pub is_blank : Option String → Bool
is_blank none = true
is_blank (some s) = count s == 0

abbrev pub supported_effects : List String
supported_effects =
    "risk_points" ∷ "severity_floor" ∷ "require_control" ∷ "create_finding" ∷ "recommend_review"
    ∷ []

abbrev pub supported_risk_dimensions : List String
supported_risk_dimensions =
    "data_sensitivity" ∷ "system_privilege" ∷ "external_connectivity" ∷ "autonomy"
    ∷ "financial_impact" ∷ "human_oversight" ∷ "vendor_risk" ∷ "regulatory_relevance" ∷ []

abbrev is_number : EffectValue → Bool
is_number (number n) = true
is_number _ = false

abbrev in_dimensions : Option String → Bool
in_dimensions none = false
in_dimensions (some d) = member d supported_risk_dimensions

abbrev is_severity : EffectValue → Bool
is_severity (name s) = member s ("LOW" ∷ "MODERATE" ∷ "HIGH" ∷ "CRITICAL" ∷ [])
is_severity _ = false

-- `Effect.__post_init__`
unfoldable pub make_effect : Effect → Result PolicyError Effect
make_effect e = raise_if (not (member e.type supported_effects)) definition_error >>= λ _.
    raise_if (str_eq e.type "risk_points" && not (is_number e.value)) definition_error >>= λ _.
    raise_if (str_eq e.type "risk_points" && not (in_dimensions e.dimension)) definition_error
    >>= λ _.
        raise_if (str_eq e.type "severity_floor" && not (is_severity e.value)) definition_error
        >>= λ _.
            raise_if (str_eq e.type "require_control" && is_blank e.control) definition_error
            >>= λ _.
                raise_if
                  ((str_eq e.type "create_finding" || str_eq e.type "recommend_review")
                    && is_blank e.message)
                  definition_error
                >>= λ _. ok e

pub data PolicyResult : Type 0 where
  pass fail warning not_applicable : PolicyResult

pub data Severity : Type 0 where
  none_severity low moderate high critical : Severity
