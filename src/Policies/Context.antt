-- ===== src/Policies/Context.antt =====
-- The context in which an inventory item is evaluated (apps/policies/context.py).
use agentledger_mvp_v.Base.{String, Option, none, some, List, [], ◌∷◌, if◌then◌else◌}
use agentledger_mvp_v.Base.Int.{pos}
use agentledger_mvp_v.Audit.Texts.{uuid_text}
use agentledger_mvp_v.Inventory.Model.{Product, InventoryItem, status_value}
use agentledger_mvp_v.Policies.Engine.{
  Value, Values, nil, cons, none_value, boolean, integer, string, tuple, Context,
}

-- `tuple(texts)`
abbrev pub texts : List String → Values
texts [] = nil
texts (s ∷ ss) = cons (string s) (texts ss)

abbrev pub vendor_review_status : Option Product → String
vendor_review_status none = "incomplete"
vendor_review_status (some p) = if p.is_verified then "complete" else "incomplete"

abbrev pub product_id : Option Product → Value
product_id none = none_value
product_id (some p) = string (uuid_text p.id)

unfoldable pub inventory_policy_context : InventoryItem → Context
inventory_policy_context item =
    ("autonomy_level", integer (pos item.autonomy_level))
    ∷ ("business_owner", string item.business_owner)
    ∷ ("catalog_product_id", product_id item.product)
    ∷ ("capabilities", tuple (texts item.capabilities))
    ∷ ("connected_systems", tuple (texts item.connected_systems))
    ∷ ("data_categories", tuple (texts item.data_categories))
    ∷ ("department", string item.department)
    ∷ ("human_approval", boolean item.human_approval)
    ∷ ("monthly_cost_cents", integer (pos item.monthly_cost_cents))
    ∷ ("permissions", tuple (texts item.permissions))
    ∷ ("retention_status", string "unknown")
    ∷ ("seat_count", integer (pos item.seat_count))
    ∷ ("status", string (status_value item.status))
    ∷ ("training_behavior", string "unknown")
    ∷ ("user_count", integer (pos item.user_count))
    ∷ ("vendor_name", string item.vendor_name)
    ∷ ("vendor_review_status", string (vendor_review_status item.product))
    ∷ []
