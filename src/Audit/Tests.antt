-- ===== src/Audit/Tests.antt =====
-- Runs of the audit trail on small tables, and the theorems at concrete inputs. The hash of these runs
-- keeps the first 32 bytes of its input, and the canonical text is one byte.
use agentledger_mvp_v.Base.{
  ℕ, zero, suc, ◌*◌, ◌%◌, ◌^◌, ◌≤◌, ◌<◌, ◌≡◌, refl, sym, ap, ◌∙◌, String, true, ◌&&◌, Option, none,
  some, List, [], ◌∷◌, All, length, map, arith, ◌==◌, str_eq, str_eq_iff, ==_iff, if◌then◌else◌,
  ◌⊎◌,
}
use agentledger_mvp_v.Base.Int.{pos}
use agentledger_mvp_v.Base.Json.{Json, Fields, obj, field, end, str, int, null}
use agentledger_mvp_v.Base.Result.{ok}
use agentledger_mvp_v.Audit.Merkle.{
  Bytes, Primitives, largest_power_of_two_less_than, merkle_root_from_hashes, hash_leaves,
  merkle_root,
}
use agentledger_mvp_v.Audit.Texts.{hex}
use agentledger_mvp_v.Jobs.Table.{rowcount, update}
use agentledger_mvp_v.Audit.Merkle.Power.{largest_power_of_two_lem}
use agentledger_mvp_v.Audit.Merkle.Tree.{
  Tree, leaves, digest, IsBalanced, merkle_root_from_hashes-Roots,
}
use agentledger_mvp_v.Audit.Merkle.Collision.{Collision, IsInput, canonical, merkle_root_binds}
use agentledger_mvp_v.Audit.Block.{block_fields}
use agentledger_mvp_v.Audit.Store.{AuditEvent, AuditChainHead, Tables, blocks_of, find_head}
use agentledger_mvp_v.Audit.Sealing.Exact.{SealsOldest, seal_tenant_audit_events-SealsOldest}
use agentledger_mvp_v.Audit.Sealing.{SealedAuditBlock, seal_tenant_audit_events}
use agentledger_mvp_v.Audit.Verification.{
  AuditVerification, valid, incomplete, verify_tenant_audit_history,
}
use agentledger_mvp_v.Audit.Verification.Spec.{CommittedHistory}
use agentledger_mvp_v.Audit.Verification.Sound.{verify_sound}
use agentledger_mvp_v.Audit.Verification.Binds.{
  FaithfulBlocks, SameHistory, IsChainInput, verified_head_binds,
}

abbrev pub pad : ℕ → Bytes → Bytes
pad zero b = []
pad (suc n) [] = 0 ∷ pad n []
pad (suc n) (x ∷ b) = x % 256 ∷ pad n b

pub length-pad : (n : ℕ) (b : Bytes) → length (pad n b) ≡ n
length-pad zero b = refl
length-pad (suc n) [] = ap suc (length-pad n [])
length-pad (suc n) (x ∷ b) = ap suc (length-pad n b)

pub pad-All : (n : ℕ) (b : Bytes) → All (λ x. x < 256) (pad n b)
pad-All zero b = tt
pad-All (suc n) [] = (omega arith, pad-All n [])
pad-All (suc n) (x ∷ b) = (omega arith, pad-All n b)

abbrev root_text : String
root_text = "0045000000000000000000000000000000000000000000000000000000000000"

-- The text of the first block of the tenant, and of an event.
abbrev pub text_of : Json → Option Bytes
text_of
      (obj (
        field _ (str v) (
          field _ o (
            field _
              (int (pos n))
              (field _ k (field _ f (field _ l (field _ (str r) (field _ null end))))))))) =
    if (n == 1) && str_eq r root_text then some (66 ∷ []) else none
text_of (obj (field _ (int i) rest)) = some (69 ∷ [])
text_of _ = none

abbrev pub c : Primitives
c = record {
  sha256 = pad 32;
  dumps = text_of;
  sha256_length = length-pad 32;
  sha256_bytes = pad-All 32;
}

text_of-some :
    (o f l r : String) (n k : ℕ) (text : Bytes)
    → text_of (obj (block_fields o n k f l r none)) ≡ some text
    → (n ≡ 1) × (r ≡ root_text)
text_of-some o f l r n k text e =
    let first : (n == 1) ≡ true = ground arith in
    let same : str_eq r root_text ≡ true = ground arith in
    ((==_iff n 1).0 first, (str_eq_iff r root_text).0 same)

text_of-FaithfulBlocks : FaithfulBlocks c
text_of-FaithfulBlocks o o' n n' k k' f f' l l' r r' none none text e e' =
    let (one, root) = text_of-some o f l r n k text e in
    let (one', root') = text_of-some o' f' l' r' n' k' text e' in
    (one ∙ sym one', (root ∙ sym root', refl))
text_of-FaithfulBlocks o o' n n' k k' f f' l l' r r' (some p) p' text e e' = absurd (cc)
text_of-FaithfulBlocks o o' n n' k k' f f' l l' r r' none (some p') text e e' = absurd (cc)

abbrev pub loads : String → Option Json
loads _ = some (obj end)

abbrev pub jsonb_text : Json → String
jsonb_text _ = "{}"

abbrev pub signed_in : AuditEvent
signed_in = record {
  id = 5;
  organization_id = 7;
  occurred_at = 1000;
  actor_user_id = some 3;
  event_type = "user.signed_in";
  entity_type = "user";
  entity_id = none;
  event_data = obj end;
  node_hash = none;
  batch_block_id = none;
  batch_position = none;
}

abbrev pub before : Tables
before = record { events = signed_in ∷ []; blocks = []; heads = [] }

abbrev after : Tables
after = (seal_tenant_audit_events c loads jsonb_text 7 11 1000 before).1

abbrev the_block : SealedAuditBlock
the_block = record {
  id = 11;
  organization_id = 7;
  block_sequence = 1;
  event_count = 1;
  first_event_id = 5;
  last_event_id = 5;
  merkle_root = root_text;
  previous_block_hash = none;
  block_hash = "0242000000000000000000000000000000000000000000000000000000000000";
}

seal_before :
    seal_tenant_audit_events c loads jsonb_text 7 11 1000 before ≡ (ok (some the_block), after)
unfolding seal_tenant_audit_events hex rowcount update
seal_before = refl

seal_tenant_audit_events-SealsOldest_example :
    SealsOldest c loads jsonb_text 7 1000 before after the_block
seal_tenant_audit_events-SealsOldest_example =
    seal_tenant_audit_events-SealsOldest c loads jsonb_text 7 11 1000 before after the_block
      seal_before

abbrev verdict : AuditVerification
verdict = record {
  status = valid;
  blocks_checked = 1;
  events_checked = 1;
  reason = "All committed audit chain material verified.";
}

verify_sealed : verify_tenant_audit_history c loads 7 after ≡ ok verdict
unfolding seal_tenant_audit_events verify_tenant_audit_history hex rowcount update
verify_sealed = refl

-- An event that waits makes the history incomplete.
verify_unsealed :
    verify_tenant_audit_history c loads 7
      (record { events = signed_in ∷ after.events; blocks = after.blocks; heads = after.heads })
    ≡ ok (record {
      status = incomplete;
      blocks_checked = 1;
      events_checked = 1;
      reason = "The tenant has audit events awaiting sealing.";
    })
unfolding seal_tenant_audit_events verify_tenant_audit_history hex rowcount update
verify_unsealed = refl

abbrev head_after : AuditChainHead
head_after = record {
  organization_id = 7;
  last_block_sequence = 1;
  last_block_hash = some "0242000000000000000000000000000000000000000000000000000000000000";
}

find_head-after : find_head 7 after.heads ≡ some head_after
unfolding seal_tenant_audit_events hex rowcount update
find_head-after = refl

verify_sound_example : CommittedHistory c loads 7 after verdict
verify_sound_example = verify_sound c loads 7 after verdict verify_sealed refl

verified_head_binds_example :
    SameHistory c loads 7 after after (blocks_of 7 after) (blocks_of 7 after)
    ⊎ Collision c
        (IsChainInput c loads 7 after (blocks_of 7 after))
        (IsChainInput c loads 7 after (blocks_of 7 after))
verified_head_binds_example =
    verified_head_binds c loads 7 after after verdict verdict head_after head_after
      text_of-FaithfulBlocks verify_sealed refl verify_sealed refl find_head-after find_head-after
      refl

abbrev one_event : List Fields
one_event = field "schema_version" (int (pos 1)) end ∷ []

abbrev two_events : List Fields
two_events =
    field "schema_version" (int (pos 1)) end ∷ field "schema_version" (int (pos 1)) end ∷ []

merkle_root_one : merkle_root c one_event ≡ ok (pad 32 (0 ∷ 69 ∷ []))
unfolding merkle_root hash_leaves merkle_root_from_hashes
merkle_root_one = refl

merkle_root_binds_example :
    (map (canonical c) one_event ≡ map (canonical c) one_event)
    ⊎ Collision c
        (IsInput c one_event (pad 32 (0 ∷ 69 ∷ [])))
        (IsInput c one_event (pad 32 (0 ∷ 69 ∷ [])))
merkle_root_binds_example =
    merkle_root_binds c one_event one_event (pad 32 (0 ∷ 69 ∷ [])) merkle_root_one merkle_root_one

abbrev three_hashes : List Bytes
three_hashes = pad 32 (1 ∷ []) ∷ pad 32 (2 ∷ []) ∷ pad 32 (3 ∷ []) ∷ []

merkle_root_from_hashes-Roots_example :
    (t : Tree) × (leaves t ≡ three_hashes)
    × IsBalanced t
    × (merkle_root_from_hashes c three_hashes ≡ ok (digest c (λ b. b) t))
merkle_root_from_hashes-Roots_example =
    merkle_root_from_hashes-Roots c three_hashes (omega arith) (refl, (refl, (refl, tt)))

largest_power_of_two_lem_example :
    (k : ℕ) × (largest_power_of_two_less_than 5 ≡ ok (2 ^ k)) × (2 ^ k < 5) × (5 ≤ 2 * 2 ^ k)
largest_power_of_two_lem_example = largest_power_of_two_lem 5 (omega arith)
