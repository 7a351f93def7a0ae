-- ===== src/Policies/Engine.antt =====
-- The rule engine (apps/policies/engine.py): conditions on a context of plain values, rules, and their
-- evaluation in the order of precedence. Values are those that a context and a stored rule hold: no
-- `float`, and of the collections tuples and lists.
use Prim.Native.String.{count, compare}
use text.Mathlib.Text.{is_lt, is_le, find?}
use agentledger_mvp_v.Base.{
  sort_by, ℕ, String, Bool, true, false, not, ◌&&◌, ◌||◌, Option, none, some, List, [], ◌∷◌, ltb,
  ◌==◌, if◌then◌else◌, str_eq, map,
}
use agentledger_mvp_v.Base.Int.{ℤ, pos, eq_ℤ, ltb_ℤ, leb_ℤ}
use agentledger_mvp_v.Base.Result.{Result, ok, err, ◌>>=◌, raise_if}
use agentledger_mvp_v.Policies.Effect.{
  PolicyError, definition_error, evaluation_error, type_error, Effect, PolicyResult, not_applicable,
  Severity, none_severity, member,
}

mutual
  pub data Value : Type 0 where
    none_value : Value
    boolean : Bool → Value
    integer : ℤ → Value
    string : String → Value
    tuple : Values → Value
    list : Values → Value

  pub data Values : Type 0 where
    nil : Values
    cons : Value → Values → Values

-- A `bool` as the `int` that it is.
abbrev number_of : Bool → ℤ
number_of true = pos 1
number_of false = pos 0

-- Python's `==`: `True == 1`, and a tuple is no list.
unfoldable mutual
  pub value_eq : Value → Value → Bool
  value_eq none_value none_value = true
  value_eq (boolean a) (boolean b) = eq_ℤ (number_of a) (number_of b)
  value_eq (boolean a) (integer n) = eq_ℤ (number_of a) n
  value_eq (integer m) (boolean b) = eq_ℤ m (number_of b)
  value_eq (integer m) (integer n) = eq_ℤ m n
  value_eq (string s) (string t) = str_eq s t
  value_eq (tuple vs) (tuple ws) = values_eq vs ws
  value_eq (list vs) (list ws) = values_eq vs ws
  value_eq _ _ = false

  pub values_eq : Values → Values → Bool
  values_eq nil nil = true
  values_eq (cons v vs) (cons w ws) = value_eq v w && values_eq vs ws
  values_eq _ _ = false

abbrev pub is_in : Value → Values → Bool
is_in v nil = false
is_in v (cons w ws) = value_eq w v || is_in v ws

abbrev pub allowed_context_fields : List String
allowed_context_fields =
    "autonomy_level" ∷ "business_owner" ∷ "catalog_product_id" ∷ "capabilities"
    ∷ "connected_systems" ∷ "data_categories" ∷ "department" ∷ "human_approval"
    ∷ "monthly_cost_cents" ∷ "permissions" ∷ "retention_status" ∷ "seat_count" ∷ "status"
    ∷ "training_behavior" ∷ "user_count" ∷ "vendor_name" ∷ "vendor_review_status" ∷ []

-- `SUPPORTED_OPERATORS`, by group: those without a comparison value last.
abbrev pub ordered_operators : List String
ordered_operators =
    "greater_than" ∷ "greater_than_or_equal" ∷ "less_than" ∷ "less_than_or_equal" ∷ []

abbrev pub unary_operators : List String
unary_operators = "is_true" ∷ "is_false" ∷ "is_empty" ∷ "is_not_empty" ∷ []

abbrev pub is_supported : String → Bool
is_supported o =
    member o ("equals" ∷ "not_equals" ∷ "contains" ∷ "not_contains" ∷ [])
    || (member o ordered_operators || member o unary_operators)

unfoldable mutual
  pub _is_immutable_definition_value : Value → Bool
  _is_immutable_definition_value (tuple vs) = all_immutable vs
  _is_immutable_definition_value (list vs) = false
  _is_immutable_definition_value _ = true

  pub all_immutable : Values → Bool
  all_immutable nil = true
  all_immutable (cons v vs) = _is_immutable_definition_value v && all_immutable vs

pub record Condition : Type 0 where
  pub field : String
  pub operator : String
  pub value : Value

abbrev is_none : Value → Bool
is_none none_value = true
is_none _ = false

-- `Condition.__post_init__`
unfoldable pub make_condition : Condition → Result PolicyError Condition
unfolding _is_immutable_definition_value
make_condition k = raise_if (not (member k.field allowed_context_fields)) definition_error >>= λ _.
    raise_if (not (is_supported k.operator)) definition_error >>= λ _.
    raise_if (not (_is_immutable_definition_value k.value)) definition_error >>= λ _.
    raise_if (member k.operator unary_operators && not (is_none k.value)) definition_error >>= λ _.
    ok k

abbrev is_nil : Values → Bool
is_nil nil = true
is_nil _ = false

unfoldable pub _is_empty : Value → Bool
_is_empty none_value = true
_is_empty (string s) = count s == 0
_is_empty (tuple vs) = is_nil vs
_is_empty (list vs) = is_nil vs
_is_empty _ = false

-- The four comparisons, for an operator that is one of them.
abbrev compare_by : String → (gt ge lt le : Bool) → Bool
compare_by operator gt ge lt le =
    if str_eq operator "greater_than"
    then gt
    else if str_eq operator "greater_than_or_equal"
    then ge
    else if str_eq operator "less_than"
    then lt
    else le

unfoldable pub _ordered_comparison : Value → Value → String → Result PolicyError Bool
_ordered_comparison (integer a) (integer b) operator =
    ok (compare_by operator (ltb_ℤ b a) (leb_ℤ b a) (ltb_ℤ a b) (leb_ℤ a b))
_ordered_comparison (string s) (string t) operator = ok (
    compare_by operator (is_lt (compare t s)) (is_le (compare t s)) (is_lt (compare s t))
      (is_le (compare s t)))
_ordered_comparison _ _ operator = err evaluation_error

-- `needle in text`
abbrev is_found : Option ℕ → Bool
is_found none = false
is_found (some n) = true

-- `condition.value in actual`; a value that is no text is not looked up in a text (`TypeError`).
unfoldable pub contains : Value → Value → Result PolicyError Bool
unfolding value_eq
contains value (string s) = elim value [ string t ↦ ok (is_found (find? s t)) | _ ↦ err type_error ]
contains value (tuple vs) = ok (is_in value vs)
contains value (list vs) = ok (is_in value vs)
contains value _ = err evaluation_error

-- A context: its fields and their values. A missing field reads as `None`.
abbrev pub Context : Type 0
Context = List (String × Value)

unfoldable pub get : String → Context → Value
get field [] = none_value
get field (item ∷ items) = if str_eq item.0 field then item.1 else get field items

unfoldable pub evaluate_condition : Condition → Context → Result PolicyError Bool
unfolding get value_eq contains _ordered_comparison _is_empty
evaluate_condition k context =
    let actual = get k.field context in
    if str_eq k.operator "equals"
    then ok (value_eq actual k.value)
    else if str_eq k.operator "not_equals"
    then ok (not (value_eq actual k.value))
    else if str_eq k.operator "contains"
    then contains k.value actual
    else if str_eq k.operator "not_contains"
    then (contains k.value actual >>= λ found. ok (not found))
    else if member k.operator ordered_operators
    then _ordered_comparison actual k.value k.operator
    else if str_eq k.operator "is_true"
    then ok (elim actual [ boolean b ↦ b | _ ↦ false ])
    else if str_eq k.operator "is_false"
    then ok (elim actual [ boolean b ↦ not b | _ ↦ false ])
    else if str_eq k.operator "is_empty"
    then ok (_is_empty actual)
    else if str_eq k.operator "is_not_empty"
    then ok (not (_is_empty actual))
    else err evaluation_error

pub data RuleLayer : Type 0 where
  mandatory_platform industry organization platform_recommendation : RuleLayer

pub record Rule : Type 0 where
  pub rule_id : String
  pub version : String
  pub layer : RuleLayer
  pub conditions : List Condition
  pub effects : List Effect
  pub result_on_match : PolicyResult
  pub explanation : String
  pub severity : Severity
  pub remediation : String
  pub overridable : Bool

abbrev is_empty_list {ℓ} : {A : Type ℓ} → List A → Bool
is_empty_list [] = true
is_empty_list (x ∷ xs) = false

-- `Rule.__post_init__`, of which the types leave these tests.
unfoldable pub make_rule : Rule → Result PolicyError Rule
make_rule r = raise_if ((count r.rule_id == 0) || (count r.version == 0)) definition_error >>= λ _.
    raise_if (is_empty_list r.conditions) definition_error >>= λ _.
    raise_if ((count r.explanation == 0) || (count r.remediation == 0)) definition_error >>= λ _.
    ok r

pub record RuleEvaluation : Type 0 where
  pub rule_id : String
  pub rule_version : String
  pub evidence : List (String × Value)
  pub result : PolicyResult
  pub explanation : String
  pub severity : Severity
  pub recommended_remediation : String
  pub effects : List Effect

-- `all(evaluate_condition(condition, context) for …)`, which stops at the first that is false.
unfoldable pub all_hold : List Condition → Context → Result PolicyError Bool
unfolding evaluate_condition
all_hold [] context = ok true
all_hold (k ∷ ks) context = evaluate_condition k context >>= λ held. elim held [
  | false ↦ ok false
  | true ↦ all_hold ks context
]

unfoldable pub evaluate_rule : Rule → Context → Result PolicyError RuleEvaluation
unfolding get all_hold
evaluate_rule r context = all_hold r.conditions context >>= λ matched. ok (record {
  rule_id = r.rule_id;
  rule_version = r.version;
  evidence = map (λ (k : Condition). (k.field, get k.field context)) r.conditions;
  result = if matched then r.result_on_match else not_applicable;
  explanation = r.explanation;
  severity = if matched then r.severity else none_severity;
  recommended_remediation = r.remediation;
  effects = if matched then r.effects else [];
})

abbrev pub rank : RuleLayer → ℕ
rank mandatory_platform = 1
rank industry = 2
rank organization = 3
rank platform_recommendation = 4

-- `(rule.layer, rule.rule_id, rule.version)`, texts by code points.
unfoldable pub rule_before : Rule → Rule → Bool
rule_before a b =
    ltb (rank a.layer) (rank b.layer)
    || ((rank a.layer == rank b.layer)
        && (is_lt (compare a.rule_id b.rule_id)
            || (str_eq a.rule_id b.rule_id && is_lt (compare a.version b.version))))

unfoldable pub evaluate_all : List Rule → Context → Result PolicyError (List RuleEvaluation)
unfolding evaluate_rule
evaluate_all [] context = ok []
evaluate_all (r ∷ rs) context =
    evaluate_rule r context >>= λ e. evaluate_all rs context >>= λ es. ok (e ∷ es)

pub record PolicyEvaluation : Type 0 where
  pub engine_version : String
  pub results : List RuleEvaluation

unfoldable pub evaluate_policies : List Rule → Context → Result PolicyError PolicyEvaluation
unfolding rule_before evaluate_all
evaluate_policies rules context = evaluate_all (sort_by rule_before rules) context >>= λ results.
    ok (record { engine_version = "AL-POLICY-1"; results = results })
