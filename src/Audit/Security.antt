-- ===== src/Audit/Security.antt =====
-- What the database lets a session do to the audit tables: the grants, row policies and triggers of
-- apps/audit/migrations/0002_audit_security.py. A statement runs on the rows that its session sees; one
-- row that is refused makes the whole statement fail. `same_json` is the equality of the type jsonb.
pub mod Rows
pub mod Kept
pub mod Isolated
pub mod Sealing
use agentledger_mvp_v.Base.{
  ℕ, String, Bool, true, false, not, ◌&&◌, ◌||◌, Option, none, some, List, [], ◌∷◌, ◌==◌,
  if◌then◌else◌, str_eq,
}
use agentledger_mvp_v.Base.Json.{Json}
use agentledger_mvp_v.Base.Result.{Result, err, ok, ◌>>=◌, ◌>>◌, raise_if}
use agentledger_mvp_v.Audit.Store.{
  AuditEvent, AuditMerkleBlock, AuditChainHead, Tables, is_null, is_number, same_text,
}

pub data SecurityError : Type 0 where
  permission_denied row_security events_cannot_be_deleted envelope_is_immutable : SecurityError
  sealed_event metadata_incomplete blocks_are_immutable : SecurityError

-- The owner of the tables, the roles of the web application and of the worker, and any other.
pub data Role : Type 0 where
  agentledger_owner agentledger_app agentledger_worker other_role : Role

-- A session, with `app_private.current_organization_id()`.
pub record Session : Type 0 where
  pub role : Role
  pub current_organization_id : Option ℕ

-- The columns of `audit_events`.
pub data Column : Type 0 where
  id organization_id occurred_at actor_user_id event_type entity_type entity_id : Column
  event_data node_hash batch_block_id batch_position : Column

-- The grants on the three tables.
abbrev pub may_insert_event : Role → Bool
may_insert_event agentledger_owner = true
may_insert_event agentledger_app = true
may_insert_event _ = false

abbrev pub is_sealing_column : Column → Bool
is_sealing_column node_hash = true
is_sealing_column batch_block_id = true
is_sealing_column batch_position = true
is_sealing_column _ = false

abbrev pub may_update_event : Role → Column → Bool
may_update_event agentledger_owner c = true
may_update_event agentledger_worker c = is_sealing_column c
may_update_event _ c = false

abbrev pub is_owner : Role → Bool
is_owner agentledger_owner = true
is_owner _ = false

abbrev pub is_owner_or_worker : Role → Bool
is_owner_or_worker agentledger_owner = true
is_owner_or_worker agentledger_worker = true
is_owner_or_worker _ = false

-- The policies, whose `USING` and `WITH CHECK` are one test of the row's organization. A session without
-- an organization meets none, and neither does a role without a policy.
unfoldable pub admits : Session → ℕ → Bool
admits s row_organization = elim s.role [
  | agentledger_owner ↦ true
  | other_role ↦ false
  | _ ↦ is_number s.current_organization_id row_organization
]

abbrev pub same_number : Option ℕ → Option ℕ → Bool
same_number none none = true
same_number (some m) (some n) = m == n
same_number _ _ = false

abbrev pub all_granted : Role → List Column → Bool
all_granted role [] = true
all_granted role (c ∷ cs) = may_update_event role c && all_granted role cs

unfoldable pub is_sealed : AuditEvent → Bool
is_sealed e =
    not (is_null e.node_hash) || (not (is_null e.batch_block_id) || not (is_null e.batch_position))

unfoldable pub is_incomplete : AuditEvent → Bool
is_incomplete e = is_null e.node_hash || (is_null e.batch_block_id || is_null e.batch_position)

module _ (same_json : Json → Json → Bool) where
  -- `NEW` and `OLD` have one envelope.
  unfoldable pub same_envelope : AuditEvent → AuditEvent → Bool
  same_envelope old new =
      new.id == old.id
      && (new.organization_id == old.organization_id
          && (new.occurred_at == old.occurred_at
              && (same_number new.actor_user_id old.actor_user_id
                  && (str_eq new.event_type old.event_type
                      && (str_eq new.entity_type old.entity_type
                          && (same_number new.entity_id old.entity_id
                              && same_json new.event_data old.event_data))))))

  -- `protect_audit_event` before an update.
  unfoldable pub protect_audit_event : AuditEvent → AuditEvent → Result SecurityError AuditEvent
  protect_audit_event old new =
      raise_if (not (same_envelope old new)) envelope_is_immutable
      >> raise_if (is_sealed old) sealed_event
      >> raise_if (is_incomplete new) metadata_incomplete
      >> ok new

module _ {A : Type 0} where
  -- `INSERT`
  unfoldable pub insert_row : (admitted : A → Bool) → A → List A → Result SecurityError (List A)
  insert_row admitted x xs = raise_if (not (admitted x)) row_security >> ok (x ∷ xs)

  -- One row of an `UPDATE`: the trigger, then the check of the policy.
  unfoldable pub updated_row :
      (admitted : A → Bool)
      → (A → A → Result SecurityError A)
      → (A → A)
      → A
      → Result SecurityError A
  updated_row admitted trigger f x =
      trigger x (f x) >>= λ y. raise_if (not (admitted y)) row_security >> ok y

  unfoldable pub row_after :
      (admitted : A → Bool)
      → (A → A → Result SecurityError A)
      → (p : A → Bool) → (A → A)
      → A
      → Result SecurityError A
  row_after admitted trigger p f x =
      if admitted x && p x then updated_row admitted trigger f x else ok x

  unfoldable pub update_rows :
      (admitted : A → Bool)
      → (A → A → Result SecurityError A)
      → (p : A → Bool) → (A → A)
      → List A
      → Result SecurityError (List A)
  update_rows admitted trigger p f [] = ok []
  update_rows admitted trigger p f (x ∷ xs) = row_after admitted trigger p f x >>= λ y.
      update_rows admitted trigger p f xs >>= λ ys. ok (y ∷ ys)

  -- A `DELETE`, or an `UPDATE`, whose trigger raises at every row that matches.
  unfoldable pub delete_protected :
      (admitted : A → Bool)
      → SecurityError
      → (p : A → Bool) → List A
      → Result SecurityError (List A)
  delete_protected admitted e p [] = ok []
  delete_protected admitted e p (x ∷ xs) =
      raise_if (admitted x && p x) e >> (delete_protected admitted e p xs >>= λ ys. ok (x ∷ ys))

abbrev column_number : Column → ℕ
column_number id = 0
column_number organization_id = 1
column_number occurred_at = 2
column_number actor_user_id = 3
column_number event_type = 4
column_number entity_type = 5
column_number entity_id = 6
column_number event_data = 7
column_number node_hash = 8
column_number batch_block_id = 9
column_number batch_position = 10

abbrev pub is_listed : Column → List Column → Bool
is_listed c [] = false
is_listed c (d ∷ ds) = (column_number c == column_number d) || is_listed c ds

-- `SET columns = …` on a row: the listed columns are those of the new row.
unfoldable pub set_columns : List Column → (AuditEvent → AuditEvent) → AuditEvent → AuditEvent
set_columns cs f e = record {
  id = if is_listed id cs then (f e).id else e.id;
  organization_id =
      if is_listed organization_id cs then (f e).organization_id else e.organization_id;
  occurred_at = if is_listed occurred_at cs then (f e).occurred_at else e.occurred_at;
  actor_user_id = if is_listed actor_user_id cs then (f e).actor_user_id else e.actor_user_id;
  event_type = if is_listed event_type cs then (f e).event_type else e.event_type;
  entity_type = if is_listed entity_type cs then (f e).entity_type else e.entity_type;
  entity_id = if is_listed entity_id cs then (f e).entity_id else e.entity_id;
  event_data = if is_listed event_data cs then (f e).event_data else e.event_data;
  node_hash = if is_listed node_hash cs then (f e).node_hash else e.node_hash;
  batch_block_id = if is_listed batch_block_id cs then (f e).batch_block_id else e.batch_block_id;
  batch_position = if is_listed batch_position cs then (f e).batch_position else e.batch_position;
}

-- The statements on the three tables.
pub data Statement : Type 0 where
  insert_event : AuditEvent → Statement
  update_events : List Column → (AuditEvent → Bool) → (AuditEvent → AuditEvent) → Statement
  delete_events : (AuditEvent → Bool) → Statement
  insert_block : AuditMerkleBlock → Statement
  update_blocks : (AuditMerkleBlock → Bool) → Statement
  delete_blocks : (AuditMerkleBlock → Bool) → Statement
  insert_head : AuditChainHead → Statement
  update_heads : (AuditChainHead → Bool) → (AuditChainHead → AuditChainHead) → Statement

abbrev pub with_events :
    Tables → Result SecurityError (List AuditEvent) → Result SecurityError Tables
with_events t r = r >>= λ events. ok (record t { events = events })

abbrev pub with_blocks :
    Tables → Result SecurityError (List AuditMerkleBlock) → Result SecurityError Tables
with_blocks t r = r >>= λ blocks. ok (record t { blocks = blocks })

abbrev pub with_chain_heads :
    Tables → Result SecurityError (List AuditChainHead) → Result SecurityError Tables
with_chain_heads t r = r >>= λ heads. ok (record t { heads = heads })

module _ (same_json : Json → Json → Bool) where
  -- A statement of a session: refused without the grant, and then run under the policies and triggers.
  unfoldable pub permitted : Session → Statement → Tables → Result SecurityError Tables
  permitted s (insert_event e) t =
      raise_if (not (may_insert_event s.role)) permission_denied
      >> with_events t (insert_row (λ (x : AuditEvent). admits s x.organization_id) e t.events)
  permitted s (update_events cs p f) t =
      raise_if (not (all_granted s.role cs)) permission_denied
      >> with_events t (
          update_rows (λ (x : AuditEvent). admits s x.organization_id)
            (protect_audit_event same_json) p (set_columns cs f) t.events)
  permitted s (delete_events p) t =
      raise_if (not (is_owner s.role)) permission_denied
      >> with_events t (
          delete_protected (λ (x : AuditEvent). admits s x.organization_id) events_cannot_be_deleted
            p t.events)
  permitted s (insert_block b) t =
      raise_if (not (is_owner_or_worker s.role)) permission_denied
      >> with_blocks t
          (insert_row (λ (x : AuditMerkleBlock). admits s x.organization_id) b t.blocks)
  permitted s (update_blocks p) t =
      raise_if (not (is_owner s.role)) permission_denied
      >> with_blocks t (
          delete_protected (λ (x : AuditMerkleBlock). admits s x.organization_id)
            blocks_are_immutable p t.blocks)
  permitted s (delete_blocks p) t =
      raise_if (not (is_owner s.role)) permission_denied
      >> with_blocks t (
          delete_protected (λ (x : AuditMerkleBlock). admits s x.organization_id)
            blocks_are_immutable p t.blocks)
  permitted s (insert_head h) t =
      raise_if (not (is_owner_or_worker s.role)) permission_denied
      >> with_chain_heads t
          (insert_row (λ (x : AuditChainHead). admits s x.organization_id) h t.heads)
  permitted s (update_heads p f) t =
      raise_if (not (is_owner_or_worker s.role)) permission_denied
      >> with_chain_heads t (
          update_rows (λ (x : AuditChainHead). admits s x.organization_id) (λ x y. ok y) p f
            t.heads)

  -- A statement that fails writes nothing.
  unfoldable pub execute : Session → Statement → Tables → Tables
  execute s statement t = elim (permitted s statement t) [ err e ↦ t | ok t' ↦ t' ]

  -- A history of statements of any sessions.
  unfoldable pub run_history : List (Session × Statement) → Tables → Tables
  run_history [] t = t
  run_history ((s, statement) ∷ rest) t = run_history rest (execute s statement t)
