-- ===== src/Audit/Verification/Fault.antt =====
-- What the verification reports of a fault is never a valid history.
use agentledger_mvp_v.Base.{
  ℕ, suc, ◌+◌, ◌≡◌, ◌≢◌, ◌∙◌, String, Option, some, none, List, [], ◌∷◌, length, arith, inl, inr,
}
use agentledger_mvp_v.Base.Json.{Json}
use agentledger_mvp_v.Base.Result.{ok, Result-cases}
use agentledger_mvp_v.Audit.Merkle.{Bytes, Primitives}
use agentledger_mvp_v.Audit.Store.{AuditEvent, AuditMerkleBlock, Tables, events_of}
use agentledger_mvp_v.Audit.Verification.{
  Fault, AuditVerification, valid, invalid, _result, check_blocks, check_leaves, block_digests,
  block_material, check_block,
}

module _ (c : Primitives) (loads : String → Option Json) where
  check_leaves-fault :
      (es : List AuditEvent) (f : Fault) → check_leaves c loads es ≡ ok (inl f) → f.0 ≡ invalid
  unfolding check_leaves
  check_leaves-fault [] f h = absurd (ground arith)
  check_leaves-fault (e ∷ es) f h = ground (arith, check_leaves-fault es f)

  block_digests-no_fault :
      (organization_id : ℕ) (block : AuditMerkleBlock) (hs : List Bytes) (f : Fault)
      → block_digests c loads organization_id block hs ≢ ok (inl f)
  unfolding block_digests
  block_digests-no_fault organization_id block hs f h = ground arith

  block_material-fault :
      (organization_id : ℕ) (block : AuditMerkleBlock) (es : List AuditEvent) (f : Fault)
      → block_material c loads organization_id block es ≡ ok (inl f)
      → f.0 ≡ invalid
  unfolding block_material
  block_material-fault organization_id block es f h =
      elim (Result-cases (check_leaves c loads es)) [
        | inr (x, q) ↦ ground arith
        | inl (inl g, q) ↦ ground (arith, check_leaves-fault es g q)
        | inl (inr hs, q) ↦ elim (Result-cases (block_digests c loads organization_id block hs)) [
          | inr (x, r) ↦ ground arith
          | inl (inl g, r) ↦ absurd (block_digests-no_fault organization_id block hs g r)
          | inl (inr ts, r) ↦ absurd (ground arith)
        ]
      ]

  check_block-fault :
      (organization_id n : ℕ) (previous : Option String) (block : AuditMerkleBlock)
      (es : List AuditEvent) (f : Fault)
      → check_block c loads organization_id n previous block es ≡ ok (some f)
      → f.0 ≢ valid
  unfolding check_block
  check_block-fault organization_id n previous block es f h p =
      elim (Result-cases (block_material c loads organization_id block es)) [
        | inr (x, q) ↦ ground arith
        | inl (inl g, q) ↦ ground (arith, block_material-fault organization_id block es g q)
        | inl (inr ts, q) ↦ ground arith
      ]

  pub check_blocks-fault :
      (organization_id : ℕ) (s : Tables) (n : ℕ) (previous : Option String) (k m : ℕ)
      (blocks : List AuditMerkleBlock) (v : AuditVerification)
      → check_blocks c loads organization_id s n previous k m blocks ≡ ok (inl v)
      → v.status ≢ valid
  unfolding check_blocks _result
  check_blocks-fault organization_id s n previous k m [] v h p = absurd (ground arith)
  check_blocks-fault organization_id s n previous k m (b ∷ bs) v h p =
      let es = events_of organization_id b.id s in
      elim (Result-cases (check_block c loads organization_id n previous b es)) [
        | inr (x, q) ↦ absurd (ground arith)
        | inl (some f, q) ↦
            let same : f.0 ≡ v.status = ground arith in
            check_block-fault organization_id n previous b es f q (same ∙ p)
        | inl (none, q) ↦
            check_blocks-fault organization_id s (suc n) (some b.block_hash) (suc k) (m + length es)
              bs v (rw q at h) p
      ]
