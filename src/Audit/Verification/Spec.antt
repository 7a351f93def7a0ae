-- ===== src/Audit/Verification/Spec.antt =====
-- What the verification promises of a chain, in terms of the envelopes, the Merkle root and the block
-- hash alone.
use agentledger_mvp_v.Base.{
  sort_by, ℕ, suc, ◌+◌, ◌≢◌, ◌≡◌, String, Option, some, none, List, [], ◌∷◌, All, length, map,
}
use agentledger_mvp_v.Base.Json.{Json, Fields}
use agentledger_mvp_v.Base.Result.{Result, ok}
use agentledger_mvp_v.Audit.Merkle.{Bytes, Primitives, hash_block, hash_leaves, merkle_root}
use agentledger_mvp_v.Audit.Texts.{hex, uuid_text}
use agentledger_mvp_v.Audit.Block.{block_fields}
use agentledger_mvp_v.Audit.Store.{
  AuditEvent, AuditChainHead, AuditMerkleBlock, Tables, occurs_before, events_of, blocks_of,
  find_head,
}
use agentledger_mvp_v.Audit.Sealing.{AuditError, _event_envelope, first_id, last_id}
use agentledger_mvp_v.Audit.Verification.{AuditVerification}

-- `n`, `n + 1`, … as batch positions.
abbrev pub places : ℕ → List AuditEvent → List (Option ℕ)
places n [] = []
places n (e ∷ es) = some n ∷ places (suc n) es

-- The last hash of a chain that starts after `previous`.
abbrev pub final_hash : Option String → List AuditMerkleBlock → Option String
final_hash previous [] = previous
final_hash previous (b ∷ bs) = final_hash (some b.block_hash) bs

abbrev pub event_total : List AuditMerkleBlock → ℕ
event_total [] = 0
event_total (b ∷ bs) = b.event_count + event_total bs

-- The envelope of a committed event.
abbrev pub envelope_of : (String → Option Json) → AuditEvent → Result AuditError Fields
envelope_of loads e = _event_envelope loads e e.event_data

module _ (c : Primitives) (loads : String → Option Json) (organization_id : ℕ) where
  -- The block at place `n` of a chain, after a block with the hash `previous`.
  pub record CommittedBlock (n : ℕ) (previous : Option String) (block : AuditMerkleBlock)
      (events : List AuditEvent) : Type 0 where
    pub in_sequence : block.block_sequence ≡ n
    pub is_linked : block.previous_block_hash ≡ previous
    pub all_there : length events ≡ block.event_count
    pub in_place : map (λ e. e.batch_position) events ≡ places 0 events
    pub in_order : map (λ e. e.id) events ≡ map (λ e. e.id) (sort_by occurs_before events)
    pub starts : block.first_event_id ≡ first_id events
    pub ends : block.last_event_id ≡ last_id events
    pub envelopes : List Fields
    pub decoded : map (envelope_of loads) events ≡ map ok envelopes
    pub leaf_hashes : List Bytes
    pub has_leaves : hash_leaves c envelopes ≡ ok leaf_hashes
    pub kept_leaves : map (λ e. e.node_hash) events ≡ map (λ h. some (hex h)) leaf_hashes
    pub root : Bytes
    pub has_root : merkle_root c envelopes ≡ ok root
    pub kept_root : block.merkle_root ≡ hex root
    pub digest : Bytes
    pub has_digest :
        hash_block c (
          block_fields
            (uuid_text organization_id)
            n
            block.event_count
            (uuid_text block.first_event_id)
            (uuid_text block.last_event_id)
            block.merkle_root
            previous)
        ≡ ok digest
    pub kept_hash : block.block_hash ≡ hex digest

  abbrev pub CommittedChain : Tables → ℕ → Option String → List AuditMerkleBlock → Type 0
  CommittedChain s n previous [] = Unit
  CommittedChain s n previous (b ∷ bs) =
      CommittedBlock n previous b (events_of organization_id b.id s)
      × CommittedChain s (suc n) (some b.block_hash) bs

-- A tenant's history as a valid verdict `v` promises it.
pub record CommittedHistory (c : Primitives) (loads : String → Option Json) (organization_id : ℕ)
    (s : Tables) (v : AuditVerification) : Type 0 where
  pub chain : CommittedChain c loads organization_id s 1 none (blocks_of organization_id s)
  pub head : AuditChainHead
  pub has_head : find_head organization_id s.heads ≡ some head
  pub head_counts : head.last_block_sequence ≡ length (blocks_of organization_id s)
  pub head_seals : head.last_block_hash ≡ final_hash none (blocks_of organization_id s)
  pub none_waits : All (λ e. e.organization_id ≡ organization_id → e.batch_block_id ≢ none) s.events
  pub counts_blocks : v.blocks_checked ≡ length (blocks_of organization_id s)
  pub counts_events : v.events_checked ≡ event_total (blocks_of organization_id s)
