-- ===== src/Policies/Accounting.antt =====
-- The published rules for accountants (apps/policies/packs/accounting.py).
pub mod Decisions
use Prim.Native.String.{◌++◌}
use agentledger_mvp_v.Base.{ℕ, String, false, none, some, List, [], ◌∷◌}
use agentledger_mvp_v.Base.Int.{pos}
use agentledger_mvp_v.Policies.Effect.{
  Effect, no_value, number, name, fail, warning, moderate, high, critical,
}
use agentledger_mvp_v.Policies.Engine.{
  Value, none_value, integer, string, Condition, Rule, industry,
}
use agentledger_mvp_v.Policies.Registry.{PublishedRuleSet}

abbrev pub pack_name : String
pack_name = "accounting_and_bookkeeping"

abbrev pub pack_version : String
pack_version = "1.1.0"

abbrev pub condition : String → String → Value → Condition
condition f o v = record { field = f; operator = o; value = v }

abbrev pub risk_points : String → ℕ → Effect
risk_points d n = record {
  type = "risk_points";
  dimension = some d;
  value = number (pos n);
  control = none;
  message = none;
}

abbrev pub require_control : String → Effect
require_control c = record {
  type = "require_control";
  dimension = none;
  value = no_value;
  control = some c;
  message = none;
}

abbrev pub severity_floor : String → Effect
severity_floor s = record {
  type = "severity_floor";
  dimension = none;
  value = name s;
  control = none;
  message = none;
}

abbrev pub recommend_review : String → Effect
recommend_review m = record {
  type = "recommend_review";
  dimension = none;
  value = no_value;
  control = none;
  message = some m;
}

abbrev pub acc_payroll_ext : Rule
acc_payroll_ext = record {
  rule_id = "ACC-PAYROLL-EXT";
  version = pack_version;
  layer = industry;
  conditions =
      condition "data_categories" "contains" (string "payroll")
      ∷ condition "capabilities" "contains" (string "external_transfer")
      ∷ [];
  effects =
      risk_points "data_sensitivity" 25
      ∷ require_control "human_approval"
      ∷ severity_floor "HIGH"
      ∷ [];
  result_on_match = fail;
  explanation =
      "This software can access payroll information and send information outside the " ++ "firm.";
  severity = high;
  remediation =
      "Document and configure a human approval step in the source system or business "
      ++ "process before payroll information is sent.";
  overridable = false;
}

abbrev pub acc_payroll_ext_no_approval : Rule
acc_payroll_ext_no_approval = record {
  rule_id = "ACC-PAYROLL-EXT-NO-APPROVAL";
  version = pack_version;
  layer = industry;
  conditions =
      condition "data_categories" "contains" (string "payroll")
      ∷ condition "capabilities" "contains" (string "external_transfer")
      ∷ condition "human_approval" "is_false" none_value
      ∷ [];
  effects = severity_floor "CRITICAL" ∷ [];
  result_on_match = fail;
  explanation = "Payroll information can leave the firm without a recorded human approval step.";
  severity = critical;
  remediation =
      "Add an approval step in the source application or operating procedure, then "
      ++ "record that step in AgentLedger.";
  overridable = false;
}

abbrev pub acc_bank_write : Rule
acc_bank_write = record {
  rule_id = "ACC-BANK-WRITE";
  version = pack_version;
  layer = industry;
  conditions =
      condition "connected_systems" "contains" (string "banking")
      ∷ condition "permissions" "contains" (string "write")
      ∷ [];
  effects =
      risk_points "system_privilege" 30
      ∷ recommend_review "Review banking write access."
      ∷ severity_floor "HIGH"
      ∷ [];
  result_on_match = warning;
  explanation = "This software has permission to change information in a banking system.";
  severity = high;
  remediation =
      "Confirm that banking write access is necessary and document who reviews " ++ "changes.";
  overridable = false;
}

abbrev pub acc_bank_transaction_no_approval : Rule
acc_bank_transaction_no_approval = record {
  rule_id = "ACC-BANK-TRANSACTION-NO-APPROVAL";
  version = pack_version;
  layer = industry;
  conditions =
      condition "connected_systems" "contains" (string "banking")
      ∷ condition "capabilities" "contains" (string "financial_transaction")
      ∷ condition "human_approval" "is_false" none_value
      ∷ [];
  effects =
      risk_points "financial_impact" 40
      ∷ risk_points "human_oversight" 30
      ∷ severity_floor "CRITICAL"
      ∷ require_control "human_approval"
      ∷ [];
  result_on_match = fail;
  explanation =
      "This software can initiate financial activity without a recorded approval " ++ "step.";
  severity = critical;
  remediation =
      "Require transaction approval in the banking or payment system before "
      ++ "continued autonomous use.";
  overridable = false;
}

abbrev pub acc_tax_ext : Rule
acc_tax_ext = record {
  rule_id = "ACC-TAX-EXT";
  version = pack_version;
  layer = industry;
  conditions =
      condition "data_categories" "contains" (string "tax_records")
      ∷ condition "capabilities" "contains" (string "external_transfer")
      ∷ [];
  effects =
      risk_points "data_sensitivity" 25
      ∷ require_control "human_approval"
      ∷ severity_floor "HIGH"
      ∷ [];
  result_on_match = fail;
  explanation = "This software can send tax records outside the firm.";
  severity = high;
  remediation =
      "Document who approves tax-record transfers and how recipients are checked "
      ++ "before information is sent.";
  overridable = false;
}

abbrev pub acc_client_financial_export : Rule
acc_client_financial_export = record {
  rule_id = "ACC-CLIENT-FINANCIAL-EXPORT";
  version = pack_version;
  layer = industry;
  conditions =
      condition "data_categories" "contains" (string "financial_records")
      ∷ condition "capabilities" "contains" (string "data_export")
      ∷ [];
  effects =
      risk_points "data_sensitivity" 20 ∷ recommend_review "Review client export controls." ∷ [];
  result_on_match = warning;
  explanation = "This software can export a client's financial records.";
  severity = high;
  remediation =
      "Confirm who may export client records and document how each export is "
      ++ "reviewed and delivered.";
  overridable = false;
}

abbrev pub acc_client_external_communication : Rule
acc_client_external_communication = record {
  rule_id = "ACC-CLIENT-EXTERNAL-COMMUNICATION";
  version = pack_version;
  layer = industry;
  conditions =
      condition "data_categories" "contains" (string "financial_records")
      ∷ condition "capabilities" "contains" (string "communication")
      ∷ [];
  effects = risk_points "external_connectivity" 20 ∷ require_control "recipient_review" ∷ [];
  result_on_match = warning;
  explanation =
      "This software can include client financial information in messages sent "
      ++ "outside the firm.";
  severity = high;
  remediation =
      "Require a person to check the recipient and message before client financial "
      ++ "information is sent.";
  overridable = false;
}

abbrev pub acc_autonomous_accounting_modification : Rule
acc_autonomous_accounting_modification = record {
  rule_id = "ACC-AUTONOMOUS-ACCOUNTING-MODIFICATION";
  version = pack_version;
  layer = industry;
  conditions =
      condition "capabilities" "contains" (string "record_modification")
      ∷ condition "autonomy_level" "greater_than_or_equal" (integer (pos 3))
      ∷ [];
  effects =
      risk_points "autonomy" 30 ∷ require_control "change_review" ∷ severity_floor "HIGH" ∷ [];
  result_on_match = fail;
  explanation =
      "This software can change accounting records while performing some tasks on " ++ "its own.";
  severity = high;
  remediation =
      "Require a person to review accounting changes and document how incorrect "
      ++ "changes are corrected.";
  overridable = false;
}

abbrev pub acc_vendor_review_incomplete : Rule
acc_vendor_review_incomplete = record {
  rule_id = "ACC-VENDOR-REVIEW-INCOMPLETE";
  version = pack_version;
  layer = industry;
  conditions = condition "vendor_review_status" "not_equals" (string "complete") ∷ [];
  effects = risk_points "vendor_risk" 15 ∷ recommend_review "Complete the vendor review." ∷ [];
  result_on_match = warning;
  explanation =
      "The vendor review is incomplete, so the firm's review of this software is not "
      ++ "yet documented.";
  severity = moderate;
  remediation =
      "Complete and record the vendor review, including data handling, security, and "
      ++ "contract terms.";
  overridable = false;
}

abbrev pub acc_retention_unknown : Rule
acc_retention_unknown = record {
  rule_id = "ACC-RETENTION-UNKNOWN";
  version = pack_version;
  layer = industry;
  conditions = condition "retention_status" "equals" (string "unknown") ∷ [];
  effects =
      risk_points "regulatory_relevance" 10 ∷ recommend_review "Confirm the retention terms." ∷ [];
  result_on_match = warning;
  explanation = "The firm has not recorded how long this software keeps its data.";
  severity = moderate;
  remediation = "Confirm the vendor's retention and deletion terms and record the review.";
  overridable = false;
}

abbrev pub acc_training_behavior_unknown : Rule
acc_training_behavior_unknown = record {
  rule_id = "ACC-TRAINING-BEHAVIOR-UNKNOWN";
  version = pack_version;
  layer = industry;
  conditions = condition "training_behavior" "equals" (string "unknown") ∷ [];
  effects =
      risk_points "vendor_risk" 10
      ∷ recommend_review "Confirm whether customer data is used for training."
      ∷ [];
  result_on_match = warning;
  explanation =
      "The firm has not recorded whether the vendor uses customer data to train " ++ "models.";
  severity = moderate;
  remediation =
      "Confirm the vendor's model-training terms and record whether firm or client "
      ++ "data is used.";
  overridable = false;
}

abbrev pub accounting_risk_pack_v1 : PublishedRuleSet
accounting_risk_pack_v1 = record {
  name = pack_name;
  version = pack_version;
  rules =
      acc_payroll_ext ∷ acc_payroll_ext_no_approval ∷ acc_bank_write
      ∷ acc_bank_transaction_no_approval ∷ acc_tax_ext ∷ acc_client_financial_export
      ∷ acc_client_external_communication ∷ acc_autonomous_accounting_modification
      ∷ acc_vendor_review_incomplete ∷ acc_retention_unknown ∷ acc_training_behavior_unknown ∷ [];
}
