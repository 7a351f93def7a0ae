-- ===== src/Policies/Accounting/Decisions.antt =====
-- What the rules for accountants decide on an inventory item, against a table of plain tests.
use mathlib.Core.Path.{ap₂}
use agentledger_mvp_v.Base.Int.{pos}
use agentledger_mvp_v.Base.{
  sort_by, All, ℕ, ◌+◌, ◌∙◌, arith, String, ◌≡◌, refl, ap, Bool, true, false, not, ◌&&◌, ◌||◌, List,
  [], ◌∷◌, map, str_eq, leb, if◌then◌else◌, Bool-cases, inl, inr,
}
use agentledger_mvp_v.Base.Result.{ok}
use agentledger_mvp_v.Inventory.Model.{InventoryItem}
use agentledger_mvp_v.Policies.Effect.{
  Effect, PolicyResult, not_applicable, Severity, none_severity,
}
use agentledger_mvp_v.Policies.Engine.{
  none_value, integer, string, Condition, Context, Rule, RuleEvaluation, PolicyEvaluation, is_in,
  value_eq, contains, get, evaluate_condition, all_hold, evaluate_rule, rule_before, evaluate_all,
  evaluate_policies, _ordered_comparison,
}
use agentledger_mvp_v.Policies.Context.{texts, vendor_review_status, inventory_policy_context}
use agentledger_mvp_v.Policies.Accounting.{
  condition, acc_payroll_ext, acc_payroll_ext_no_approval, acc_bank_write,
  acc_bank_transaction_no_approval, acc_tax_ext, acc_client_financial_export,
  acc_client_external_communication, acc_autonomous_accounting_modification,
  acc_vendor_review_incomplete, acc_retention_unknown, acc_training_behavior_unknown,
  accounting_risk_pack_v1,
}

-- `s` is one of the texts.
abbrev pub has : String → List String → Bool
has s [] = false
has s (t ∷ ts) = str_eq t s || has s ts

is_in-texts : (s : String) (ts : List String) → is_in (string s) (texts ts) ≡ has s ts
unfolding value_eq
is_in-texts s [] = refl
is_in-texts s (t ∷ ts) = ap (λ b. str_eq t s || b) (is_in-texts s ts)

-- The rules in the order of their evaluation, each with the test that decides it.
abbrev pub accounting_table : InventoryItem → List (Rule × Bool)
accounting_table i =
    let exports = has "external_transfer" i.capabilities in
    let payroll = has "payroll" i.data_categories in
    let banking = has "banking" i.connected_systems in
    let financial = has "financial_records" i.data_categories in
    (
      acc_autonomous_accounting_modification,
      has "record_modification" i.capabilities && leb 3 i.autonomy_level,
    )
    ∷ (
      acc_bank_transaction_no_approval,
      banking && (has "financial_transaction" i.capabilities && not i.human_approval),
    )
    ∷ (acc_bank_write, banking && has "write" i.permissions)
    ∷ (acc_client_external_communication, financial && has "communication" i.capabilities)
    ∷ (acc_client_financial_export, financial && has "data_export" i.capabilities)
    ∷ (acc_payroll_ext, payroll && exports)
    ∷ (acc_payroll_ext_no_approval, payroll && (exports && not i.human_approval))
    ∷ (acc_retention_unknown, true)
    ∷ (acc_tax_ext, has "tax_records" i.data_categories && exports)
    ∷ (acc_training_behavior_unknown, true)
    ∷ (acc_vendor_review_incomplete, not (str_eq (vendor_review_status i.product) "complete"))
    ∷ []

-- What an evaluation says of a rule: its name, its result, its severity and its effects.
abbrev pub Decision : Type 0
Decision = String × (PolicyResult × (Severity × List Effect))

abbrev pub decided : Rule × Bool → Decision
decided (r, true) = (r.rule_id, (r.result_on_match, (r.severity, r.effects)))
decided (r, false) = (r.rule_id, (not_applicable, (none_severity, [])))

abbrev pub decision_of : RuleEvaluation → Decision
decision_of e = (e.rule_id, (e.result, (e.severity, e.effects)))

-- The answers of a rule's conditions.
abbrev Answers : Context → List Condition → List Bool → Type 0
Answers context [] [] = Unit
Answers context (k ∷ ks) (b ∷ bs) = (evaluate_condition k context ≡ ok b) × Answers context ks bs
Answers context _ _ = ⊥

abbrev all_true : List Bool → Bool
all_true [] = true
all_true (b ∷ bs) = b && all_true bs

all_hold-Answers :
    (context : Context) (ks : List Condition) (bs : List Bool)
    → Answers context ks bs
    → all_hold ks context ≡ ok (all_true bs)
unfolding all_hold
all_hold-Answers context [] [] h = refl
all_hold-Answers context [] (b ∷ bs) h = absurd (h)
all_hold-Answers context (k ∷ ks) [] h = absurd (h)
all_hold-Answers context (k ∷ ks) (b ∷ bs) h = elim (Bool-cases b) [
  | inl e ↦ rw (all_hold, h.0, e) (all_hold-Answers context ks bs h.1)
  | inr e ↦ rw (all_hold, h.0, e) refl
]

and_true : (a : Bool) → (a && true) ≡ a
and_true true = refl
and_true false = refl

module _ (context : Context) where
  all_hold-one :
      (k : Condition) (a : Bool)
      → evaluate_condition k context ≡ ok a
      → all_hold (k ∷ []) context ≡ ok a
  all_hold-one k a h = all_hold-Answers context (k ∷ []) (a ∷ []) (h, tt) ∙ ap ok (and_true a)

  all_hold-two :
      (k l : Condition) (a b : Bool)
      → evaluate_condition k context ≡ ok a
      → evaluate_condition l context ≡ ok b
      → all_hold (k ∷ l ∷ []) context ≡ ok (a && b)
  all_hold-two k l a b h g =
      all_hold-Answers context (k ∷ l ∷ []) (a ∷ b ∷ []) (h, (g, tt))
      ∙ ap (λ x. ok (a && x)) (and_true b)

  all_hold-three :
      (k l m : Condition) (a b c : Bool)
      → evaluate_condition k context ≡ ok a
      → evaluate_condition l context ≡ ok b
      → evaluate_condition m context ≡ ok c
      → all_hold (k ∷ l ∷ m ∷ []) context ≡ ok (a && (b && c))
  all_hold-three k l m a b c h g f =
      all_hold-Answers context (k ∷ l ∷ m ∷ []) (a ∷ b ∷ c ∷ []) (h, (g, (f, tt)))
      ∙ ap (λ x. ok (a && (b && x))) (and_true c)

  -- The evaluation of a rule, by whether it matched.
  abbrev evaluated : Rule → Bool → RuleEvaluation
  evaluated r matched = record {
    rule_id = r.rule_id;
    rule_version = r.version;
    evidence = map (λ (k : Condition). (k.field, get k.field context)) r.conditions;
    result = if matched then r.result_on_match else not_applicable;
    explanation = r.explanation;
    severity = if matched then r.severity else none_severity;
    recommended_remediation = r.remediation;
    effects = if matched then r.effects else [];
  }

  evaluate_rule-evaluated :
      (r : Rule) (b : Bool)
      → all_hold r.conditions context ≡ ok b
      → evaluate_rule r context ≡ ok (evaluated r b)
  unfolding evaluate_rule
  evaluate_rule-evaluated r b h = rw (evaluate_rule, h) refl

  decision_of-evaluated : (r : Rule) (b : Bool) → decision_of (evaluated r b) ≡ decided (r, b)
  decision_of-evaluated r true = refl
  decision_of-evaluated r false = refl

  abbrev Matches : Rule × Bool → Type 0
  Matches row = all_hold row.0.conditions context ≡ ok row.1

  evaluate_all-decided :
      (rows : List (Rule × Bool))
      → All Matches rows
      → (es : List RuleEvaluation) × ((evaluate_all (map (λ row. row.0) rows) context ≡ ok es)
          × (map decision_of es ≡ map decided rows))
  unfolding evaluate_all
  evaluate_all-decided [] h = ([], (refl, refl))
  evaluate_all-decided ((r, b) ∷ rows) h =
      let (es, (made, same)) = evaluate_all-decided rows h.1 in
      (
        evaluated r b ∷ es,
        (
          rw (evaluate_all, evaluate_rule-evaluated r b h.0, made) refl,
          ap₂ (λ d ds. d ∷ ds) (decision_of-evaluated r b) same,
        ),
      )

module _ (i : InventoryItem) where
  abbrev ctx : Context
  ctx = inventory_policy_context i

  data_category :
      (s : String)
      → evaluate_condition (condition "data_categories" "contains" (string s)) ctx
        ≡ ok (has s i.data_categories)
  unfolding evaluate_condition inventory_policy_context get contains
  data_category s = ap ok (is_in-texts s i.data_categories)

  capability :
      (s : String)
      → evaluate_condition (condition "capabilities" "contains" (string s)) ctx
        ≡ ok (has s i.capabilities)
  unfolding evaluate_condition inventory_policy_context get contains
  capability s = ap ok (is_in-texts s i.capabilities)

  connected :
      (s : String)
      → evaluate_condition (condition "connected_systems" "contains" (string s)) ctx
        ≡ ok (has s i.connected_systems)
  unfolding evaluate_condition inventory_policy_context get contains
  connected s = ap ok (is_in-texts s i.connected_systems)

  permission :
      (s : String)
      → evaluate_condition (condition "permissions" "contains" (string s)) ctx
        ≡ ok (has s i.permissions)
  unfolding evaluate_condition inventory_policy_context get contains
  permission s = ap ok (is_in-texts s i.permissions)

  unapproved :
      evaluate_condition (condition "human_approval" "is_false" none_value) ctx
      ≡ ok (not i.human_approval)
  unfolding evaluate_condition inventory_policy_context get
  unapproved = refl

  leb-plus_zero : (m n : ℕ) → leb (m + 0) (n + 0) ≡ leb m n
  leb-plus_zero m n = ground arith

  autonomous :
      evaluate_condition (condition "autonomy_level" "greater_than_or_equal" (integer (pos 3))) ctx
      ≡ ok (leb 3 i.autonomy_level)
  unfolding evaluate_condition inventory_policy_context get _ordered_comparison
  autonomous = ap ok (leb-plus_zero 3 i.autonomy_level)

  unreviewed :
      evaluate_condition (condition "vendor_review_status" "not_equals" (string "complete")) ctx
      ≡ ok (not (str_eq (vendor_review_status i.product) "complete"))
  unfolding evaluate_condition inventory_policy_context get value_eq
  unreviewed = refl

  unknown_retention :
      evaluate_condition (condition "retention_status" "equals" (string "unknown")) ctx ≡ ok true
  unfolding evaluate_condition inventory_policy_context get value_eq
  unknown_retention = refl

  unknown_training :
      evaluate_condition (condition "training_behavior" "equals" (string "unknown")) ctx ≡ ok true
  unfolding evaluate_condition inventory_policy_context get value_eq
  unknown_training = refl

  accounting_table-Matches : All (Matches ctx) (accounting_table i)
  accounting_table-Matches = (
    all_hold-two ctx _ _ _ _ (capability "record_modification") autonomous,
    (
      all_hold-three ctx _ _ _ _ _ _ (connected "banking") (capability "financial_transaction")
          unapproved,
      (
        all_hold-two ctx _ _ _ _ (connected "banking") (permission "write"),
        (
          all_hold-two ctx _ _ _ _ (data_category "financial_records") (capability "communication"),
          (
            all_hold-two ctx _ _ _ _ (data_category "financial_records") (capability "data_export"),
            (
              all_hold-two ctx _ _ _ _ (data_category "payroll") (capability "external_transfer"),
              (
                all_hold-three ctx _ _ _ _ _ _ (data_category "payroll")
                    (capability "external_transfer") unapproved,
                (
                  all_hold-one ctx _ _ unknown_retention,
                  (
                    all_hold-two ctx _ _ _ _ (data_category "tax_records")
                        (capability "external_transfer"),
                    (all_hold-one ctx _ _ unknown_training, (all_hold-one ctx _ _ unreviewed, tt)),
                  ),
                ),
              ),
            ),
          ),
        ),
      ),
    ),
  )

  in_order :
      sort_by rule_before accounting_risk_pack_v1.rules ≡ map (λ row. row.0) (accounting_table i)
  unfolding rule_before
  in_order = refl

evaluate_policies-sorted :
    (rules : List Rule) (context : Context) (es : List RuleEvaluation)
    → evaluate_all (sort_by rule_before rules) context ≡ ok es
    → evaluate_policies rules context ≡ ok (record { engine_version = "AL-POLICY-1"; results = es })
unfolding evaluate_policies
evaluate_policies-sorted rules context es h = rw (evaluate_policies, h) refl

-- The evaluation of the rules for accountants on the context of any inventory item returns, and decides
-- each of the eleven rules as the table of plain tests on the item says: where the test holds the rule
-- gives its result, severity and effects, and elsewhere it is not applicable and has no effects.
pub accounting_pack_decides :
    (i : InventoryItem)
    → (v : PolicyEvaluation) × ((evaluate_policies accounting_risk_pack_v1.rules
            (inventory_policy_context i)
          ≡ ok v)
        × (map decision_of v.results ≡ map decided (accounting_table i)))
accounting_pack_decides i =
    let (es, (made, same)) =
      evaluate_all-decided (inventory_policy_context i) (accounting_table i)
        (accounting_table-Matches i) in
    (
      record { engine_version = "AL-POLICY-1"; results = es },
      (
        evaluate_policies-sorted accounting_risk_pack_v1.rules (inventory_policy_context i) es
            (ap (λ rs. evaluate_all rs (inventory_policy_context i)) (in_order i) ∙ made),
        same,
      ),
    )
