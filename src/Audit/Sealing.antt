-- ===== src/Audit/Sealing.antt =====
-- Sealing (apps/audit/sealing.py): the oldest unsealed events of a tenant become the next block of
-- its chain, in one transaction. A body that raises keeps none of its writes.
pub mod Counts
pub mod Oldest
pub mod Written
pub mod Head
pub mod Exact
use agentledger_mvp_v.Base.{
  filter, sort_by, ℕ, suc, ◌+◌, String, Bool, not, ◌&&◌, Option, none, some, List, [], ◌∷◌, length,
  take, drop, head_or, ltb, ◌==◌, if◌then◌else◌,
}
use agentledger_mvp_v.Base.Int.{pos}
use agentledger_mvp_v.Base.Json.{Json, Fields, obj, field, end, str, int, null}
use agentledger_mvp_v.Base.Result.{Result, ok, err, ◌>>=◌, raise_if}
use agentledger_mvp_v.Jobs.Table.{update, rowcount}
use agentledger_mvp_v.Audit.Merkle.{
  Bytes, MerkleError, Primitives, hash_leaves, hash_block, merkle_root_from_hashes,
}
use agentledger_mvp_v.Audit.Texts.{hex, uuid_text, utc_text}
use agentledger_mvp_v.Audit.Block.{build_block_envelope}
use agentledger_mvp_v.Audit.Store.{
  AuditEvent, AuditChainHead, AuditMerkleBlock, Tables, is_null, same_text, occurs_before,
  find_head,
}

-- The exceptions of sealing and verification.
pub data AuditError : Type 0 where
  value_error : AuditError
  merkle_error : MerkleError → AuditError
  naive_time undecodable not_object no_chain_head lost_event lost_head : AuditError
  integrity_error index_error : AuditError

abbrev pub from_merkle {ℓ} : {A : Type ℓ} → Result MerkleError A → Result AuditError A
from_merkle (err e) = err (merkle_error e)
from_merkle (ok a) = ok a

-- A `datetime`: without a time zone, or the instant that it is in UTC.
pub data Datetime : Type 0 where
  naive aware : ℕ → Datetime

unfoldable pub _utc_timestamp : Datetime → Result AuditError String
_utc_timestamp (naive t) = err naive_time
_utc_timestamp (aware t) = ok (utc_text t)

abbrev pub optional_uuid : Option ℕ → Json
optional_uuid none = null
optional_uuid (some u) = str (uuid_text u)

-- How `data` comes to `_event_envelope`: a text is decoded, and the result is an object.
unfoldable pub event_object : (String → Option Json) → Json → Result AuditError Fields
event_object loads (obj fields) = ok fields
event_object loads (str text) = elim (loads text) [
  | none ↦ err undecodable
  | some (obj fields) ↦ ok fields
  | some _ ↦ err not_object
]
event_object loads _ = err not_object

-- `_event_envelope` on the columns of an event, with `data` as the cursor or the model gives it.
unfoldable pub _event_envelope :
    (String → Option Json) → AuditEvent → Json → Result AuditError Fields
unfolding _utc_timestamp event_object
_event_envelope loads e value = event_object loads value >>= λ fields.
    _utc_timestamp (aware e.occurred_at) >>= λ time. ok (
      field "schema_version" (int (pos 1)) (
        field "organization_id" (str (uuid_text e.organization_id)) (
          field "event_id" (str (uuid_text e.id)) (
            field "occurred_at" (str time) (
              field "actor_user_id" (optional_uuid e.actor_user_id) (
                field "event_type" (str e.event_type) (
                  field "entity_type" (str e.entity_type) (
                    field "entity_id" (optional_uuid e.entity_id)
                      (field "data" (obj fields) end)))))))))

-- `INSERT … ON CONFLICT (organization_id) DO NOTHING`
unfoldable pub _ensure_chain_head : ℕ → List AuditChainHead → List AuditChainHead
_ensure_chain_head organization_id heads = elim (find_head organization_id heads) [
  | some h ↦ heads
  | none ↦
      record { organization_id = organization_id; last_block_sequence = 0; last_block_hash = none }
      ∷ heads
]

abbrev pub with_heads : List AuditChainHead → Tables → Tables
with_heads heads s = record { events = s.events; blocks = s.blocks; heads = heads }

-- The `WHERE` of the query for unsealed events.
unfoldable pub is_unsealed : ℕ → AuditEvent → Bool
is_unsealed organization_id e =
    e.organization_id == organization_id
    && (is_null e.batch_block_id && (is_null e.node_hash && is_null e.batch_position))

-- `ORDER BY occurred_at ASC, id ASC LIMIT max_events`
unfoldable pub unsealed : ℕ → ℕ → Tables → List AuditEvent
unsealed organization_id max_events s =
    take max_events (sort_by occurs_before (filter (is_unsealed organization_id) s.events))

-- The `WHERE` and the `SET` of the update of one event.
abbrev pub may_seal : ℕ → ℕ → AuditEvent → Bool
may_seal organization_id event_id e = (e.id == event_id) && is_unsealed organization_id e

unfoldable pub set_sealed : String → ℕ → ℕ → AuditEvent → AuditEvent
set_sealed node_hash block_id position e = record {
  id = e.id;
  organization_id = e.organization_id;
  occurred_at = e.occurred_at;
  actor_user_id = e.actor_user_id;
  event_type = e.event_type;
  entity_type = e.entity_type;
  entity_id = e.entity_id;
  event_data = e.event_data;
  node_hash = some node_hash;
  batch_block_id = some block_id;
  batch_position = some position;
}

-- `for position, row in enumerate(rows)`, with the leaf hash of each.
unfoldable pub seal_events :
    (organization_id block_id position : ℕ)
    → List AuditEvent
    → List Bytes
    → List AuditEvent
    → Result AuditError (List AuditEvent)
unfolding set_sealed is_unsealed
seal_events organization_id block_id position [] hashes events = ok events
seal_events organization_id block_id position (row ∷ rows) hashes events =
    raise_if (not (rowcount (may_seal organization_id row.id) events == 1)) lost_event >>= λ _.
    seal_events organization_id block_id (suc position) rows (drop 1 hashes) (
      update (may_seal organization_id row.id)
        (set_sealed (hex (head_or [] hashes)) block_id position) events)

-- The compare-and-set of the chain head.
unfoldable pub is_head : ℕ → AuditChainHead → AuditChainHead → Bool
is_head organization_id old h =
    h.organization_id == organization_id
    && (h.last_block_sequence == old.last_block_sequence
        && same_text h.last_block_hash old.last_block_hash)

unfoldable pub set_head : ℕ → String → AuditChainHead → AuditChainHead
set_head block_sequence block_hash h = record {
  organization_id = h.organization_id;
  last_block_sequence = block_sequence;
  last_block_hash = some block_hash;
}

-- `AuditMerkleBlock.objects.create`: the keys of the table are its id and, in a tenant, the sequence.
unfoldable pub create_block :
    AuditMerkleBlock → List AuditMerkleBlock → Result AuditError (List AuditMerkleBlock)
create_block b blocks =
    raise_if
      (not (
        rowcount (λ x. x.id == b.id) blocks == 0
        && rowcount
            (λ x. x.organization_id == b.organization_id && (x.block_sequence == b.block_sequence))
            blocks
          == 0))
      integrity_error
    >>= λ _. ok (b ∷ blocks)

pub record SealedAuditBlock : Type 0 where
  pub id : ℕ
  pub organization_id : ℕ
  pub block_sequence : ℕ
  pub event_count : ℕ
  pub first_event_id : ℕ
  pub last_event_id : ℕ
  pub merkle_root : String
  pub previous_block_hash : Option String
  pub block_hash : String

abbrev pub first_id : List AuditEvent → ℕ
first_id [] = 0
first_id (row ∷ rows) = row.id

abbrev pub last_id : List AuditEvent → ℕ
last_id [] = 0
last_id (row ∷ []) = row.id
last_id (row ∷ rows) = last_id rows

module _ (c : Primitives) (loads : String → Option Json) (jsonb_text : Json → String) where
  -- `[hash_leaf(envelope) for envelope in [_event_envelope(row) for row in rows]]`: the cursor gives
  -- the column `data` as a text.
  unfoldable pub envelopes : List AuditEvent → Result AuditError (List Fields)
  unfolding _event_envelope
  envelopes [] = ok []
  envelopes (row ∷ rows) = _event_envelope loads row (str (jsonb_text row.event_data)) >>= λ e.
      envelopes rows >>= λ es. ok (e ∷ es)

  -- The block that the rows make after the given head.
  unfoldable pub new_block :
      (organization_id block_id : ℕ)
      → AuditChainHead
      → List AuditEvent
      → List Bytes
      → Result AuditError AuditMerkleBlock
  unfolding merkle_root_from_hashes build_block_envelope hash_block
  new_block organization_id block_id head rows hashes =
      from_merkle (merkle_root_from_hashes c hashes) >>= λ root_bytes.
      from_merkle (
        build_block_envelope (uuid_text organization_id) (head.last_block_sequence + 1)
          (length rows) (uuid_text (first_id rows)) (uuid_text (last_id rows)) (hex root_bytes)
          head.last_block_hash)
      >>= λ envelope. from_merkle (hash_block c envelope) >>= λ block_hash. ok (record {
        id = block_id;
        organization_id = organization_id;
        block_sequence = head.last_block_sequence + 1;
        algorithm_version = "AL-MERKLE-1";
        canonicalization_version = "RFC8785";
        event_count = length rows;
        first_event_id = first_id rows;
        last_event_id = last_id rows;
        merkle_root = hex root_bytes;
        previous_block_hash = head.last_block_hash;
        block_hash = hex block_hash;
      })

  -- The statements from the first write on, for rows that are there.
  unfoldable pub write_block :
      (organization_id : ℕ)
      → AuditChainHead
      → List AuditEvent
      → List Bytes
      → AuditMerkleBlock
      → Tables
      → Result AuditError Tables
  unfolding create_block seal_events is_head set_head
  write_block organization_id head rows hashes block s = create_block block s.blocks >>= λ blocks.
      seal_events organization_id block.id 0 rows hashes s.events >>= λ events.
      raise_if (not (rowcount (is_head organization_id head) s.heads == 1)) lost_head >>= λ _.
      ok (record {
        events = events;
        blocks = blocks;
        heads =
            update (is_head organization_id head) (set_head block.block_sequence block.block_hash)
              s.heads;
      })

  abbrev pub sealed_block : AuditMerkleBlock → SealedAuditBlock
  sealed_block b = record {
    id = b.id;
    organization_id = b.organization_id;
    block_sequence = b.block_sequence;
    event_count = b.event_count;
    first_event_id = b.first_event_id;
    last_event_id = b.last_event_id;
    merkle_root = b.merkle_root;
    previous_block_hash = b.previous_block_hash;
    block_hash = b.block_hash;
  }

  -- The body of the transaction, on tables in which the chain head has been ensured.
  unfoldable pub seal_rows :
      (organization_id block_id : ℕ)
      → AuditChainHead
      → List AuditEvent
      → Tables
      → Result AuditError (Option SealedAuditBlock × Tables)
  unfolding envelopes hash_leaves new_block write_block
  seal_rows organization_id block_id head [] s = ok (none, s)
  seal_rows organization_id block_id head (row ∷ rows) s = envelopes (row ∷ rows) >>= λ es.
      from_merkle (hash_leaves c es) >>= λ hashes.
      new_block organization_id block_id head (row ∷ rows) hashes >>= λ block.
      write_block organization_id head (row ∷ rows) hashes block s >>= λ s'.
      ok (some (sealed_block block), s')

  unfoldable pub seal_body :
      (organization_id block_id max_events : ℕ)
      → Tables
      → Result AuditError (Option SealedAuditBlock × Tables)
  unfolding _ensure_chain_head unsealed seal_rows
  seal_body organization_id block_id max_events s =
      let ensured = with_heads (_ensure_chain_head organization_id s.heads) s in
      elim (find_head organization_id ensured.heads) [
        | none ↦ err no_chain_head
        | some head ↦
            seal_rows organization_id block_id head (unsealed organization_id max_events ensured)
              ensured
      ]

  -- `transaction.atomic` puts the tables back when the body raises. The id of the new block is the
  -- UUID that the model draws.
  unfoldable pub seal_tenant_audit_events :
      (organization_id block_id max_events : ℕ)
      → Tables
      → Result AuditError (Option SealedAuditBlock) × Tables
  unfolding seal_body
  seal_tenant_audit_events organization_id block_id max_events s =
      if ltb max_events 1
      then (err value_error, s)
      else if ltb 1000 max_events
      then (err value_error, s)
      else elim (seal_body organization_id block_id max_events s) [
        | err e ↦ (err e, s)
        | ok (block, s') ↦ (ok block, s')
      ]
