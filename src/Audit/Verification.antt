-- ===== src/Audit/Verification.antt =====
-- Verification of a tenant's chain (apps/audit/verification.py). Nothing is written, so the tables
-- are an argument only; `_event_envelope` is that of apps/audit/sealing.py, and the model hands it
-- `data` decoded.
pub mod Spec
pub mod Passed
pub mod Fault
pub mod Sound
pub mod Binds
use agentledger_mvp_v.Base.{
  sort_by, ℕ, zero, suc, ◌+◌, String, Bool, true, false, not, ◌&&◌, ◌||◌, Option, none, some, List,
  [], ◌∷◌, length, last_or, ◌==◌, if◌then◌else◌, str_eq, ◌⊎◌, inl, inr,
}
use agentledger_mvp_v.Base.Json.{Json}
use agentledger_mvp_v.Base.Result.{Result, ok, err, ◌>>=◌}
use agentledger_mvp_v.Audit.Merkle.{
  Bytes, Primitives, hash_leaf, hash_block, merkle_root_from_hashes,
}
use agentledger_mvp_v.Audit.Texts.{hex, uuid_text}
use agentledger_mvp_v.Audit.Block.{build_block_envelope}
use agentledger_mvp_v.Audit.Store.{
  AuditEvent, AuditChainHead, AuditMerkleBlock, Tables, is_null, same_text, occurs_before,
  events_of, blocks_of, find_head,
}
use agentledger_mvp_v.Audit.Sealing.{
  AuditError, value_error, merkle_error, index_error, from_merkle, _event_envelope, first_id,
  last_id,
}

pub data VerificationStatus : Type 0 where
  valid invalid incomplete : VerificationStatus

pub record AuditVerification : Type 0 where
  pub status : VerificationStatus
  pub blocks_checked : ℕ
  pub events_checked : ℕ
  pub reason : String

unfoldable pub _result : VerificationStatus → ℕ → ℕ → String → AuditVerification
_result status blocks_checked events_checked reason = record {
  status = status;
  blocks_checked = blocks_checked;
  events_checked = events_checked;
  reason = reason;
}

-- A status and its reason: what a block fails with.
abbrev pub Fault : Type 0
Fault = VerificationStatus × String

abbrev pub same_ids : List AuditEvent → List AuditEvent → Bool
same_ids [] [] = true
same_ids (d ∷ ds) (e ∷ es) = (d.id == e.id) && same_ids ds es
same_ids _ _ = false

-- `actual_positions == list(range(len(block_events)))`, from a given position on.
abbrev pub positions_from : ℕ → List AuditEvent → Bool
positions_from n [] = true
positions_from n (e ∷ es) = same_position e.batch_position && positions_from (suc n) es
  where
    same_position : Option ℕ → Bool
    same_position none = false
    same_position (some p) = p == n

-- `except (TypeError, ValueError)`: `MerkleError` is a `ValueError`, `AuditSealingError` is none.
abbrev pub is_caught : AuditError → Bool
is_caught value_error = true
is_caught (merkle_error e) = true
is_caught _ = false

abbrev pub catch {ℓ} : {A : Type ℓ} → Result AuditError (Fault ⊎ A) → Result AuditError (Fault ⊎ A)
catch (ok a) = ok a
catch (err e) =
    if is_caught e
    then ok (inl (invalid, "Committed audit material is not canonicalizable."))
    else err e

-- `AuditEvent.objects.filter(batch_block_id__isnull=True).exists()`
abbrev pub exists_awaiting : ℕ → List AuditEvent → Bool
exists_awaiting organization_id [] = false
exists_awaiting organization_id (e ∷ es) =
    ((e.organization_id == organization_id) && is_null e.batch_block_id)
    || exists_awaiting organization_id es

module _ (c : Primitives) (loads : String → Option Json) where
  -- The loop over the events of a block in the `try`.
  unfoldable pub check_leaves : List AuditEvent → Result AuditError (Fault ⊎ List Bytes)
  unfolding _event_envelope hash_leaf
  check_leaves [] = ok (inr [])
  check_leaves (event ∷ events) = _event_envelope loads event event.event_data >>= λ envelope.
      from_merkle (hash_leaf c envelope) >>= λ leaf_hash.
      if not (same_text event.node_hash (some (hex leaf_hash)))
      then ok (inl (invalid, "A committed event leaf hash failed."))
      else check_leaves events >>= λ r.
          ok (elim r [ inl f ↦ inl f | inr hs ↦ inr (leaf_hash ∷ hs) ])

  -- The rest of the `try`: the Merkle root and the block hash, as texts.
  unfoldable pub block_digests :
      ℕ → AuditMerkleBlock → List Bytes → Result AuditError (Fault ⊎ (String × String))
  unfolding merkle_root_from_hashes build_block_envelope hash_block
  block_digests organization_id block leaf_hashes =
      from_merkle (merkle_root_from_hashes c leaf_hashes) >>= λ root.
      from_merkle (
        build_block_envelope (uuid_text organization_id) block.block_sequence block.event_count
          (uuid_text block.first_event_id) (uuid_text block.last_event_id) (hex root)
          block.previous_block_hash)
      >>= λ envelope.
          from_merkle (hash_block c envelope) >>= λ block_hash. ok (inr (hex root, hex block_hash))

  unfoldable pub block_material :
      ℕ → AuditMerkleBlock → List AuditEvent → Result AuditError (Fault ⊎ (String × String))
  unfolding check_leaves block_digests
  block_material organization_id block events = catch (
      check_leaves events >>= λ r. elim r [
        | inl fault ↦ ok (inl fault)
        | inr leaf_hashes ↦ block_digests organization_id block leaf_hashes
      ])

  -- One turn of the loop over the blocks: the fault that the verification returns, or none.
  -- `block_events[0]` has no value on an empty list.
  unfoldable pub check_block :
      (organization_id expected_sequence : ℕ)
      → Option String
      → AuditMerkleBlock
      → List AuditEvent
      → Result AuditError (Option Fault)
  unfolding block_material occurs_before
  check_block organization_id expected_sequence previous_block_hash block events =
      if not (length events == block.event_count)
      then ok (some (incomplete, "A sealed block is missing committed event material."))
      else if not (block.block_sequence == expected_sequence)
      then ok (some (invalid, "Block sequence continuity failed."))
      else if not (str_eq block.algorithm_version "AL-MERKLE-1")
          || not (str_eq block.canonicalization_version "RFC8785")
      then ok (some (invalid, "A block uses unexpected cryptographic versions."))
      else if not (same_text block.previous_block_hash previous_block_hash)
      then ok (some (invalid, "Previous-block linkage failed."))
      else if not (positions_from 0 events) || not (same_ids events (sort_by occurs_before events))
      then ok (some (invalid, "Event membership order failed."))
      else if length events == 0
      then err index_error
      else if not (block.first_event_id == first_id events)
          || not (block.last_event_id == last_id events)
      then ok (some (invalid, "Block event boundaries failed."))
      else block_material organization_id block events >>= λ r. elim r [
        | inl fault ↦ ok (some fault)
        | inr digests ↦ ok (
            if not (str_eq block.merkle_root digests.0)
            then some (invalid, "Merkle root verification failed.")
            else if not (str_eq block.block_hash digests.1)
            then some (invalid, "Block hash verification failed.")
            else none)
      ]

  -- The loop over the blocks, with its counters: a fault ends the verification.
  unfoldable pub check_blocks :
      (organization_id : ℕ)
      → Tables
      → (expected_sequence : ℕ) → Option String
      → (blocks_checked events_checked : ℕ) → List AuditMerkleBlock
      → Result AuditError (AuditVerification ⊎ (ℕ × ℕ))
  unfolding check_block events_of _result
  check_blocks organization_id s expected previous blocks_checked events_checked [] =
      ok (inr (blocks_checked, events_checked))
  check_blocks organization_id s expected previous blocks_checked events_checked (block ∷ blocks) =
      let events = events_of organization_id block.id s in
      check_block organization_id expected previous block events >>= λ r. elim r [
        | some fault ↦ ok (inl (_result fault.0 blocks_checked events_checked fault.1))
        | none ↦
            check_blocks organization_id s (suc expected) (some block.block_hash)
              (suc blocks_checked) (events_checked + length events) blocks
      ]

  -- What follows the loop, where there are blocks.
  unfoldable pub check_head :
      (organization_id : ℕ) → Tables → AuditChainHead → AuditMerkleBlock → ℕ × ℕ → AuditVerification
  unfolding _result
  check_head organization_id s head last checked =
      if not (head.last_block_sequence == last.block_sequence)
        || not (same_text head.last_block_hash (some last.block_hash))
      then _result invalid checked.0 checked.1 "The chain head does not match the final block."
      else if exists_awaiting organization_id s.events
      then _result incomplete checked.0 checked.1 "The tenant has audit events awaiting sealing."
      else _result valid checked.0 checked.1 "All committed audit chain material verified."

  unfoldable pub verify_tenant_audit_history : ℕ → Tables → Result AuditError AuditVerification
  unfolding blocks_of check_blocks check_head _result
  verify_tenant_audit_history organization_id s = elim (blocks_of organization_id s) [
    | [] ↦ ok (_result incomplete 0 0 "No sealed audit chain material exists.")
    | block ∷ blocks ↦ elim (find_head organization_id s.heads) [
      | none ↦ ok (_result incomplete 0 0 "The tenant chain head is missing.")
      | some head ↦ check_blocks organization_id s 1 none 0 0 (block ∷ blocks) >>= λ r. elim r [
        | inl verdict ↦ ok verdict
        | inr checked ↦ ok (check_head organization_id s head (last_or block blocks) checked)
      ]
    ]
  ]
