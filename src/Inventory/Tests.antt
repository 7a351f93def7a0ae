-- ===== src/Inventory/Tests.antt =====
-- The origin of facts, at concrete items.
use agentledger_mvp_v.Base.{◌≡◌, refl, sym, true, some, [], ◌∷◌, inl, inr}
use agentledger_mvp_v.Inventory.Model.{InventoryItem, manual, discovered, reviewing}
use agentledger_mvp_v.Inventory.Provenance.{
  inventory_fact_fields, normalized_declared_fields, fact_set, inventory_provenance, FactsOf,
  inventory_provenance-facts,
}

abbrev pub item : InventoryItem
item = record {
  id = 3;
  organization_id = 7;
  product = some (record { id = 9; name = "ChatGPT"; vendor_name = "OpenAI"; is_verified = true });
  display_name = "ChatGPT";
  vendor_name = "OpenAI";
  business_owner = "Ada";
  department = "";
  user_count = 0;
  business_purpose = "";
  monthly_cost_cents = 2000;
  seat_count = 0;
  connected_systems = [];
  data_categories = [];
  permissions = [];
  capabilities = [];
  autonomy_level = 0;
  human_approval = true;
  status = reviewing;
  source_type = discovered;
  discovery_fingerprint = "f0";
  declared_fields = "business_owner" ∷ "monthly_cost_cents" ∷ [];
}

names_run :
    normalized_declared_fields ("monthly_cost" ∷ "business_owner" ∷ "csrf" ∷ "monthly_cost" ∷ [])
    ≡ item.declared_fields
unfolding normalized_declared_fields fact_set
names_run = refl

abbrev pub entered_item : InventoryItem
entered_item = record item { source_type = manual; declared_fields = inventory_fact_fields }

entered_facts_run :
    FactsOf manual entered_item.product inventory_fact_fields (inventory_provenance entered_item)
entered_facts_run = inventory_provenance-facts entered_item inventory_fact_fields (inl refl)

inventory_provenance-facts_example :
    FactsOf discovered item.product
      ("monthly_cost" ∷ "business_owner" ∷ "csrf" ∷ "monthly_cost" ∷ [])
      (inventory_provenance item)
inventory_provenance-facts_example =
    inventory_provenance-facts item
      ("monthly_cost" ∷ "business_owner" ∷ "csrf" ∷ "monthly_cost" ∷ []) (inr (sym names_run))
