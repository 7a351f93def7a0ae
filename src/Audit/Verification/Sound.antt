-- ===== src/Audit/Verification/Sound.antt =====
-- A history that the verification calls valid is a committed chain.
use agentledger_mvp_v.Base.{
  ℕ, suc, ◌+◌, ◌≡◌, ◌≢◌, refl, sym, ap, subst, ◌∙◌, String, true, false, Option, some, none, List,
  [], ◌∷◌, All, length, last_or, arith, inl, inr, List-cases, Option-cases,
}
use agentledger_mvp_v.Base.Json.{Json}
use agentledger_mvp_v.Base.Result.{ok, Result-cases}
use agentledger_mvp_v.Audit.Merkle.{Primitives}
use agentledger_mvp_v.Audit.Store.{
  AuditEvent, AuditChainHead, AuditMerkleBlock, Tables, events_of, blocks_of, find_head, same_text,
}
use agentledger_mvp_v.Audit.Verification.{
  AuditVerification, valid, _result, exists_awaiting, check_blocks, check_head,
  verify_tenant_audit_history, check_block,
}
use agentledger_mvp_v.Audit.Verification.Passed.{same_text-eq, check_block-CommittedBlock}
use agentledger_mvp_v.Audit.Verification.Fault.{check_blocks-fault}
use agentledger_mvp_v.Audit.Verification.Spec.{
  CommittedChain, CommittedHistory, event_total, final_hash,
}

none_waits-awaiting :
    (organization_id : ℕ) (es : List AuditEvent)
    → exists_awaiting organization_id es ≡ false
    → All (λ e. e.organization_id ≡ organization_id → e.batch_block_id ≢ none) es
none_waits-awaiting organization_id [] h = tt
none_waits-awaiting organization_id (e ∷ es) h =
    ((λ p q. ground arith), none_waits-awaiting organization_id es (ground arith))

module _ (c : Primitives) (loads : String → Option Json) where
  check_blocks-ok :
      (organization_id : ℕ) (s : Tables) (n : ℕ) (previous : Option String) (k m : ℕ)
      (blocks : List AuditMerkleBlock) (checked : ℕ × ℕ)
      → check_blocks c loads organization_id s n previous k m blocks ≡ ok (inr checked)
      → CommittedChain c loads organization_id s n previous blocks
        × ((checked.0 ≡ k + length blocks) × (checked.1 ≡ m + event_total blocks))
  unfolding check_blocks
  check_blocks-ok organization_id s n previous k m [] checked h = (tt, (ground arith, ground arith))
  check_blocks-ok organization_id s n previous k m (b ∷ bs) checked h =
      elim (Result-cases
        (check_block c loads organization_id n previous b (events_of organization_id b.id s))) [
          | inr (x, q) ↦ absurd (ground arith)
          | inl (some f, q) ↦ absurd (ground arith)
          | inl (none, q) ↦
              let held =
                check_block-CommittedBlock c loads organization_id n previous b
                  (events_of organization_id b.id s) q in
              let (chain, (count, total)) =
                check_blocks-ok organization_id s (suc n) (some b.block_hash) (suc k)
                  (m + length (events_of organization_id b.id s)) bs checked (rw q at h) in
              ((held, chain), (omega (arith, count), omega (arith, total, held.all_there)))
        ]

  CommittedChain-last :
      (organization_id : ℕ) (s : Tables) (n : ℕ) (previous : Option String) (b : AuditMerkleBlock)
      (bs : List AuditMerkleBlock)
      → CommittedChain c loads organization_id s n previous (b ∷ bs)
      → (last_or b bs).block_sequence ≡ n + length bs
  CommittedChain-last organization_id s n previous b [] h = omega (arith, h.0.in_sequence)
  CommittedChain-last organization_id s n previous b (x ∷ xs) h =
      omega (arith, CommittedChain-last organization_id s (suc n) (some b.block_hash) x xs h.1)

  pub final_hash-last :
      (previous : Option String) (b : AuditMerkleBlock) (bs : List AuditMerkleBlock)
      → final_hash previous (b ∷ bs) ≡ some (last_or b bs).block_hash
  final_hash-last previous b [] = refl
  final_hash-last previous b (x ∷ xs) = final_hash-last (some b.block_hash) x xs

  -- A valid verdict in its parts, for a chain that starts with the block `b`.
  check_head-valid :
      (organization_id : ℕ) (s : Tables) (head : AuditChainHead) (last : AuditMerkleBlock)
      (checked : ℕ × ℕ)
      → (check_head c loads organization_id s head last checked).status ≡ valid
      → (head.last_block_sequence ≡ last.block_sequence)
        × ((head.last_block_hash ≡ some last.block_hash)
            × ((exists_awaiting organization_id s.events ≡ false)
                × (check_head c loads organization_id s head last checked
                    ≡ _result valid checked.0 checked.1
                        "All committed audit chain material verified.")))
  unfolding check_head _result
  check_head-valid organization_id s head last checked h =
      let linked : same_text head.last_block_hash (some last.block_hash) ≡ true = ground arith in
      (ground arith, (same_text-eq _ _ linked, (ground arith, ground arith)))

  valid-CommittedHistory :
      (organization_id : ℕ) (s : Tables) (head : AuditChainHead) (b : AuditMerkleBlock)
      (bs : List AuditMerkleBlock) (checked : ℕ × ℕ)
      → blocks_of organization_id s ≡ b ∷ bs
      → find_head organization_id s.heads ≡ some head
      → check_blocks c loads organization_id s 1 none 0 0 (b ∷ bs) ≡ ok (inr checked)
      → (check_head c loads organization_id s head (last_or b bs) checked).status ≡ valid
      → CommittedHistory c loads organization_id s
          (check_head c loads organization_id s head (last_or b bs) checked)
  unfolding _result
  valid-CommittedHistory organization_id s head b bs checked e found passed v =
      let (chain, (count, total)) =
        check_blocks-ok organization_id s 1 none 0 0 (b ∷ bs) checked passed in
      let (sequence, (linked, (none_left, verdict))) =
        check_head-valid organization_id s head (last_or b bs) checked v in
      rw verdict (record {
        chain = rw e chain;
        head = head;
        has_head = found;
        head_counts =
            rw e (omega (arith, sequence, CommittedChain-last organization_id s 1 none b bs chain));
        head_seals = rw e (linked ∙ sym (final_hash-last none b bs));
        none_waits = none_waits-awaiting organization_id s.events none_left;
        counts_blocks = rw e (omega (arith, count));
        counts_events = rw e (omega (arith, total));
      })

-- A history that the verification calls valid is committed: the blocks of the tenant count up from 1,
-- each is linked to the hash before it, has all its events at their positions and in order of time,
-- each with its leaf hash, its Merkle root is that of their envelopes and its hash that of its own
-- envelope; the head names the last block, no event waits, and the verdict counts all blocks and
-- events.
pub verify_sound :
    (c : Primitives) (loads : String → Option Json) (organization_id : ℕ) (s : Tables)
    (v : AuditVerification)
    → verify_tenant_audit_history c loads organization_id s ≡ ok v
    → v.status ≡ valid
    → CommittedHistory c loads organization_id s v
unfolding verify_tenant_audit_history _result
verify_sound c loads organization_id s v h p = elim (List-cases (blocks_of organization_id s)) [
  | inl e ↦ absurd (ground arith)
  | inr (b, (bs, e)) ↦ elim (Option-cases (find_head organization_id s.heads)) [
    | inl n ↦ absurd (ground arith)
    | inr (head, found) ↦
        elim (Result-cases (check_blocks c loads organization_id s 1 none 0 0 (b ∷ bs))) [
          | inr (x, q) ↦ absurd (ground arith)
          | inl (inl w, q) ↦
              let same : w ≡ v = ground arith in
              absurd (
                check_blocks-fault c loads organization_id s 1 none 0 0 (b ∷ bs) w q
                  (ap (λ (x : AuditVerification). x.status) same ∙ p))
          | inl (inr checked, q) ↦
              let same : check_head c loads organization_id s head (last_or b bs) checked ≡ v =
                ground arith in
              subst (CommittedHistory c loads organization_id s) same (
                valid-CommittedHistory c loads organization_id s head b bs checked e found q
                  (ap (λ (x : AuditVerification). x.status) same ∙ p))
        ]
  ]
]
