-- ===== src/Audit/Store.antt =====
-- The tables of the audit trail (apps/audit/models.py), the order of their queries, and the updates.
-- Identifiers are numbers; times are microseconds since 1970 in UTC.
use agentledger_mvp_v.Base.{
  filter, sort_by, ℕ, String, Bool, true, false, ◌&&◌, ◌||◌, Option, none, some, List, [], ◌∷◌, ltb,
  ◌==◌, if◌then◌else◌, str_eq,
}
use agentledger_mvp_v.Base.Json.{Json}

pub record AuditEvent : Type 0 where
  pub id : ℕ
  pub organization_id : ℕ
  pub occurred_at : ℕ
  pub actor_user_id : Option ℕ
  pub event_type : String
  pub entity_type : String
  pub entity_id : Option ℕ
  pub event_data : Json
  pub node_hash : Option String
  pub batch_block_id : Option ℕ
  pub batch_position : Option ℕ

pub record AuditChainHead : Type 0 where
  pub organization_id : ℕ
  pub last_block_sequence : ℕ
  pub last_block_hash : Option String

pub record AuditMerkleBlock : Type 0 where
  pub id : ℕ
  pub organization_id : ℕ
  pub block_sequence : ℕ
  pub algorithm_version : String
  pub canonicalization_version : String
  pub event_count : ℕ
  pub first_event_id : ℕ
  pub last_event_id : ℕ
  pub merkle_root : String
  pub previous_block_hash : Option String
  pub block_hash : String

pub record Tables : Type 0 where
  pub events : List AuditEvent
  pub blocks : List AuditMerkleBlock
  pub heads : List AuditChainHead

abbrev pub is_null {ℓ} : {A : Type ℓ} → Option A → Bool
is_null none = true
is_null (some a) = false

-- SQL's `column = value`, which a NULL does not meet.
abbrev pub is_number : Option ℕ → ℕ → Bool
is_number none n = false
is_number (some m) n = m == n

-- `IS NOT DISTINCT FROM`, and Python's `==` on texts that may be `None`.
abbrev pub same_text : Option String → Option String → Bool
same_text none none = true
same_text (some s) (some t) = str_eq s t
same_text _ _ = false

-- `(event.occurred_at, event.id)`
unfoldable pub occurs_before : AuditEvent → AuditEvent → Bool
occurs_before a b =
    ltb a.occurred_at b.occurred_at || (a.occurred_at == b.occurred_at && ltb a.id b.id)

abbrev nulls_last : Option ℕ → Option ℕ → Bool
nulls_last (some m) (some n) = ltb m n
nulls_last (some m) none = true
nulls_last none _ = false

-- `ORDER BY batch_position`, where PostgreSQL puts a NULL last.
abbrev pub position_before : AuditEvent → AuditEvent → Bool
position_before a b = nulls_last a.batch_position b.batch_position

abbrev pub sequence_before : AuditMerkleBlock → AuditMerkleBlock → Bool
sequence_before a b = ltb a.block_sequence b.block_sequence

-- The committed events of a block, by position.
unfoldable pub events_of : ℕ → ℕ → Tables → List AuditEvent
events_of organization_id block_id s = sort_by position_before (
    filter (λ e. e.organization_id == organization_id && is_number e.batch_block_id block_id)
      s.events)

unfoldable pub blocks_of : ℕ → Tables → List AuditMerkleBlock
blocks_of organization_id s =
    sort_by sequence_before (filter (λ b. b.organization_id == organization_id) s.blocks)

-- The row of `audit_chain_heads`, whose key is the organization.
abbrev pub find_head : ℕ → List AuditChainHead → Option AuditChainHead
find_head organization_id [] = none
find_head organization_id (h ∷ hs) =
    if h.organization_id == organization_id then some h else find_head organization_id hs
