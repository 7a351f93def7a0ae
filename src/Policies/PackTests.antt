-- ===== src/Policies/PackTests.antt =====
-- The published rules on a concrete inventory item.
use agentledger_mvp_v.Base.{◌≡◌, refl, false, none, [], ◌∷◌, map}
use agentledger_mvp_v.Base.Result.{ok}
use agentledger_mvp_v.Inventory.Model.{InventoryItem, manual, active}
use agentledger_mvp_v.Policies.Engine.{PolicyEvaluation, evaluate_policies}
use agentledger_mvp_v.Policies.Registry.{published_ruleset}
use agentledger_mvp_v.Policies.Context.{inventory_policy_context}
use agentledger_mvp_v.Policies.Accounting.{accounting_risk_pack_v1}
use agentledger_mvp_v.Policies.Accounting.Decisions.{
  decision_of, decided, accounting_table, accounting_pack_decides,
}

abbrev pub item : InventoryItem
item = record {
  id = 3;
  organization_id = 7;
  product = none;
  display_name = "PayBot";
  vendor_name = "Acme";
  business_owner = "";
  department = "";
  user_count = 4;
  business_purpose = "";
  monthly_cost_cents = 4900;
  seat_count = 4;
  connected_systems = "banking" ∷ [];
  data_categories = "payroll" ∷ [];
  permissions = "read" ∷ [];
  capabilities = "external_transfer" ∷ [];
  autonomy_level = 3;
  human_approval = false;
  status = active;
  source_type = manual;
  discovery_fingerprint = "";
  declared_fields = [];
}

published_run : published_ruleset accounting_risk_pack_v1 ≡ ok accounting_risk_pack_v1
unfolding published_ruleset
published_run = refl

accounting_pack_decides_example :
    (v : PolicyEvaluation) × ((evaluate_policies accounting_risk_pack_v1.rules
          (inventory_policy_context item)
        ≡ ok v)
      × (map decision_of v.results ≡ map decided (accounting_table item)))
accounting_pack_decides_example = accounting_pack_decides item
