-- ===== src/Inventory/Model.antt =====
-- The row of an inventory item (apps/inventory/models.py), with the product that it names. The four JSON
-- columns and the declared fields hold lists of texts; an amount is a whole number of cents.
use agentledger_mvp_v.Base.{ℕ, String, Bool, Option, List}

pub data SourceType : Type 0 where
  manual csv discovered : SourceType

pub data ItemStatus : Type 0 where
  active trial inactive reviewing : ItemStatus

abbrev pub status_value : ItemStatus → String
status_value active = "active"
status_value trial = "trial"
status_value inactive = "inactive"
status_value reviewing = "reviewing"

-- A product of the catalog; `is_verified` says that its vendor's status is `verified`.
pub record Product : Type 0 where
  pub id : ℕ
  pub name : String
  pub vendor_name : String
  pub is_verified : Bool

pub record InventoryItem : Type 0 where
  pub id : ℕ
  pub organization_id : ℕ
  pub product : Option Product
  pub display_name : String
  pub vendor_name : String
  pub business_owner : String
  pub department : String
  pub user_count : ℕ
  pub business_purpose : String
  pub monthly_cost_cents : ℕ
  pub seat_count : ℕ
  pub connected_systems : List String
  pub data_categories : List String
  pub permissions : List String
  pub capabilities : List String
  pub autonomy_level : ℕ
  pub human_approval : Bool
  pub status : ItemStatus
  pub source_type : SourceType
  pub discovery_fingerprint : String
  pub declared_fields : List String
