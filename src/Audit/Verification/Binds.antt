-- ===== src/Audit/Verification/Binds.antt =====
-- The hash in the chain head stands for the whole history: two histories that verify under one head
-- hash hold the same events, or SHA-256 collides within their verifications.
use mathlib.Core.Path.{ap₂}
use agentledger_mvp_v.Base.{
  ℕ, suc, ◌+◌, ◌≡◌, refl, sym, ap, subst, ◌∙◌, String, Option, some, none, List, [], ◌∷◌, length,
  last_or, map, arith, ◌⊎◌, inl, inr, Option-cases, IsRow,
}
use agentledger_mvp_v.Base.Json.{Json, Fields, obj}
use agentledger_mvp_v.Base.Result.{Result, ok, ◌>>=◌}
use agentledger_mvp_v.Audit.Merkle.{Bytes, Primitives, canonical_json, hash_block}
use agentledger_mvp_v.Audit.Merkle.Collision.{
  Collision, Collision-imp, IsInput, same_or_Collision, canonical, merkle_root_binds,
  merkle_root-IsBytes,
}
use agentledger_mvp_v.Audit.Texts.{hex, uuid_text}
use agentledger_mvp_v.Audit.Texts.Injective.{hex-injective}
use agentledger_mvp_v.Audit.Block.{block_fields}
use agentledger_mvp_v.Audit.Store.{
  AuditEvent, AuditChainHead, AuditMerkleBlock, Tables, events_of, blocks_of, find_head,
}
use agentledger_mvp_v.Audit.Sealing.{AuditError, from_merkle}
use agentledger_mvp_v.Audit.Verification.{AuditVerification, valid, verify_tenant_audit_history}
use agentledger_mvp_v.Audit.Verification.Spec.{
  envelope_of, CommittedBlock, CommittedChain, final_hash,
}
use agentledger_mvp_v.Audit.Verification.Sound.{verify_sound, final_hash-last}

-- Two block envelopes with one canonical text have the same values: RFC 8785 writes every value out.
abbrev pub FaithfulBlocks : Primitives → Type 0
FaithfulBlocks c =
    (o o' : String) (n n' k k' : ℕ) (f f' l l' r r' : String) (p p' : Option String) (text : Bytes)
    → c.dumps (obj (block_fields o n k f l r p)) ≡ some text
    → c.dumps (obj (block_fields o' n' k' f' l' r' p')) ≡ some text
    → (n ≡ n') × ((r ≡ r') × (p ≡ p'))

last_or-IsRow : (b : AuditMerkleBlock) (bs : List AuditMerkleBlock) → IsRow (last_or b bs) (b ∷ bs)
last_or-IsRow b [] = inl refl
last_or-IsRow b (x ∷ xs) = inr (last_or-IsRow x xs)

module _ (c : Primitives) (loads : String → Option Json) where
  -- The canonical text of a committed event.
  abbrev pub canonical_event : AuditEvent → Result AuditError Bytes
  canonical_event e = envelope_of loads e >>= λ f. from_merkle (canonical_json c (obj f))

  -- Two tables hold the same events, block by block.
  abbrev pub SameHistory :
      ℕ → Tables → Tables → List AuditMerkleBlock → List AuditMerkleBlock → Type 0
  SameHistory organization_id s s' [] [] = Unit
  SameHistory organization_id s s' (b ∷ bs) (b' ∷ bs') =
      (map canonical_event (events_of organization_id b.id s)
        ≡ map canonical_event (events_of organization_id b'.id s'))
      × SameHistory organization_id s s' bs bs'
  SameHistory organization_id s s' _ _ = ⊥

  canonical_event-decoded :
      (es : List AuditEvent) (envs : List Fields)
      → map (envelope_of loads) es ≡ map ok envs
      → map canonical_event es ≡ map from_merkle (map (canonical c) envs)
  canonical_event-decoded [] [] h = refl
  canonical_event-decoded [] (f ∷ fs) h = absurd (cc)
  canonical_event-decoded (e ∷ es) [] h = absurd (cc)
  canonical_event-decoded (e ∷ es) (f ∷ fs) h =
      let first : envelope_of loads e ≡ ok f = cc in
      rw (first, canonical_event-decoded es fs (cc)) refl

  hash_block-text :
      (block : Fields) (digest : Bytes)
      → hash_block c block ≡ ok digest
      → (text : Bytes) × ((c.dumps (obj block) ≡ some text) × (digest ≡ c.sha256 (2 ∷ text)))
  unfolding hash_block
  hash_block-text block digest h = elim (Option-cases (c.dumps (obj block))) [
    | inl e ↦ absurd (ground arith)
    | inr (text, e) ↦ (text, (e, ground arith))
  ]

  -- `x` is an input of SHA-256 in the verification of a block of these events: the canonical text of its
  -- envelope, or an input in the Merkle tree of the events' envelopes.
  abbrev pub IsBlockInput : ℕ → AuditMerkleBlock → List AuditEvent → Bytes → Type 0
  IsBlockInput organization_id b es x =
      ((text : Bytes) × (x ≡ 2 ∷ text)
        × (c.dumps (
              obj (
                block_fields (uuid_text organization_id) b.block_sequence b.event_count
                  (uuid_text b.first_event_id) (uuid_text b.last_event_id) b.merkle_root
                  b.previous_block_hash))
            ≡ some text))
      ⊎ ((envelopes : List Fields) × (root : Bytes) × (map (envelope_of loads) es
            ≡ map ok envelopes)
          × IsInput c envelopes root x)

  -- An input in the verification of one of the blocks.
  abbrev pub IsChainInput : ℕ → Tables → List AuditMerkleBlock → Bytes → Type 0
  IsChainInput organization_id s bs x =
      (b : AuditMerkleBlock) × IsRow b bs
      × IsBlockInput organization_id b (events_of organization_id b.id s) x

  hex_sha256-injective :
      {P Q : Bytes → Type 0} (a b : Bytes)
      → P a
      → Q b
      → hex (c.sha256 a) ≡ hex (c.sha256 b)
      → (a ≡ b) ⊎ Collision c P Q
  hex_sha256-injective {P} {Q} a b p q e =
      same_or_Collision c {P = P} {Q = Q} a b p q
        (hex-injective (c.sha256 a) (c.sha256 b) (c.sha256_bytes a) (c.sha256_bytes b) e)

  abbrev block_text : ℕ → AuditMerkleBlock → ℕ → Option String → Option Bytes
  block_text organization_id b n previous = c.dumps (
      obj (
        block_fields (uuid_text organization_id) n b.event_count (uuid_text b.first_event_id)
          (uuid_text b.last_event_id) b.merkle_root previous))

  block_binds :
      (organization_id n n' : ℕ) (p p' : Option String) (b b' : AuditMerkleBlock)
      (es es' : List AuditEvent)
      → FaithfulBlocks c
      → CommittedBlock c loads organization_id n p b es
      → CommittedBlock c loads organization_id n' p' b' es'
      → b.block_hash ≡ b'.block_hash
      → ((n ≡ n') × ((p ≡ p') × (map canonical_event es ≡ map canonical_event es')))
        ⊎ Collision c (IsBlockInput organization_id b es) (IsBlockInput organization_id b' es')
  block_binds organization_id n n' p p' b b' es es' faithful k k' same =
      let (x, (t, d)) = hash_block-text _ k.digest k.has_digest in
      let (x', (t', d')) = hash_block-text _ k'.digest k'.has_digest in
      let texts : hex (c.sha256 (2 ∷ x)) ≡ hex (c.sha256 (2 ∷ x')) =
        ap hex (sym d) ∙ sym k.kept_hash ∙ same ∙ k'.kept_hash ∙ ap hex d' in
      let text_input : IsBlockInput organization_id b es (2 ∷ x) =
        inl (x, refl, ap₂ (block_text organization_id b) k.in_sequence k.is_linked ∙ t) in
      let text_input' : IsBlockInput organization_id b' es' (2 ∷ x') =
        inl (x', refl, ap₂ (block_text organization_id b') k'.in_sequence k'.is_linked ∙ t') in
      elim (hex_sha256-injective {P = IsBlockInput organization_id b es}
        {Q = IsBlockInput organization_id b' es'} (2 ∷ x) (2 ∷ x') text_input text_input' texts) [
          | inr found ↦ inr found
          | inl eq ↦
              let x_eq : x ≡ x' = cc in
              let (n_eq, (r_eq, p_eq)) =
                faithful _ _ _ _ _ _ _ _ _ _ _ _ _ _ x' (t ∙ ap some x_eq) t' in
              let roots : k.root ≡ k'.root =
                hex-injective k.root k'.root (merkle_root-IsBytes c k.envelopes k.root k.has_root)
                  (merkle_root-IsBytes c k'.envelopes k'.root k'.has_root)
                  (sym k.kept_root ∙ r_eq ∙ k'.kept_root) in
              elim (merkle_root_binds c k.envelopes k'.envelopes k'.root (k.has_root ∙ ap ok roots)
                k'.has_root) [
                  | inr found ↦ inr (
                      Collision-imp c (λ a w. inr (k.envelopes, k'.root, k.decoded, w))
                        (λ a w. inr (k'.envelopes, k'.root, k'.decoded, w)) found)
                  | inl events ↦ inl (
                    n_eq,
                    (
                      p_eq,
                      canonical_event-decoded es k.envelopes k.decoded
                          ∙ ap (map from_merkle) events
                          ∙ sym (canonical_event-decoded es' k'.envelopes k'.decoded),
                    ),
                  )
                ]
        ]

  chain_binds :
      (organization_id : ℕ) (s s' : Tables) (n : ℕ) (p p' : Option String)
      (bs bs' : List AuditMerkleBlock)
      → FaithfulBlocks c
      → length bs ≡ length bs'
      → CommittedChain c loads organization_id s n p bs
      → CommittedChain c loads organization_id s' n p' bs'
      → final_hash p bs ≡ final_hash p' bs'
      → ((p ≡ p') × SameHistory organization_id s s' bs bs')
        ⊎ Collision c (IsChainInput organization_id s bs) (IsChainInput organization_id s' bs')
  chain_binds organization_id s s' n p p' [] [] faithful l k k' e = inl (e, tt)
  chain_binds organization_id s s' n p p' [] (b' ∷ bs') faithful l k k' e = absurd (omega arith)
  chain_binds organization_id s s' n p p' (b ∷ bs) [] faithful l k k' e = absurd (omega arith)
  chain_binds organization_id s s' n p p' (b ∷ bs) (b' ∷ bs') faithful l k k' e =
      elim (chain_binds organization_id s s' (suc n) (some b.block_hash) (some b'.block_hash) bs bs'
        faithful (omega arith) k.1 k'.1 e) [
          | inr found ↦ inr (
              Collision-imp c (λ a (x, there, w). (x, inr there, w))
                (λ a (x, there, w). (x, inr there, w)) found)
          | inl (hashes, rest) ↦
              elim (block_binds organization_id n n p p' b b' _ _ faithful k.0 k'.0 (cc)) [
                | inr found ↦
                    inr (Collision-imp c (λ a w. (b, inl refl, w)) (λ a w. (b', inl refl, w)) found)
                | inl (n_eq, (p_eq, events)) ↦ inl (p_eq, (events, rest))
              ]
        ]

  CommittedChain-last_block :
      (organization_id : ℕ) (s : Tables) (n : ℕ) (p : Option String) (b : AuditMerkleBlock)
      (bs : List AuditMerkleBlock)
      → CommittedChain c loads organization_id s n p (b ∷ bs)
      → (q : Option String) × CommittedBlock c loads organization_id
          (n + length bs)
          q
          (last_or b bs)
          (events_of organization_id (last_or b bs).id s)
  CommittedChain-last_block organization_id s n p b [] k = (
    p,
    subst (λ m. CommittedBlock c loads organization_id m p b (events_of organization_id b.id s))
        (omega arith) k.0,
  )
  CommittedChain-last_block organization_id s n p b (x ∷ xs) k =
      let (q, held) =
        CommittedChain-last_block organization_id s (suc n) (some b.block_hash) x xs k.1 in
      (
        q,
        subst
            (λ m.
              CommittedBlock c loads organization_id m q (last_or x xs)
                (events_of organization_id (last_or x xs).id s))
            (omega arith) held,
      )

  same_length :
      (organization_id : ℕ) (s s' : Tables) (bs bs' : List AuditMerkleBlock)
      → FaithfulBlocks c
      → CommittedChain c loads organization_id s 1 none bs
      → CommittedChain c loads organization_id s' 1 none bs'
      → final_hash none bs ≡ final_hash none bs'
      → (length bs ≡ length bs')
        ⊎ Collision c (IsChainInput organization_id s bs) (IsChainInput organization_id s' bs')
  same_length organization_id s s' [] [] faithful k k' e = inl refl
  same_length organization_id s s' [] (b' ∷ bs') faithful k k' e =
      absurd (let h = e ∙ final_hash-last c loads none b' bs' in cc (h))
  same_length organization_id s s' (b ∷ bs) [] faithful k k' e =
      absurd (let h = sym e ∙ final_hash-last c loads none b bs in cc (h))
  same_length organization_id s s' (b ∷ bs) (b' ∷ bs') faithful k k' e =
      let (q, held) = CommittedChain-last_block organization_id s 1 none b bs k in
      let (q', held') = CommittedChain-last_block organization_id s' 1 none b' bs' k' in
      let hashes =
        sym (final_hash-last c loads none b bs) ∙ e ∙ final_hash-last c loads none b' bs' in
      elim (block_binds organization_id _ _ q q' (last_or b bs) (last_or b' bs') _ _ faithful held
        held' (cc (hashes))) [
          | inr found ↦ inr (
              Collision-imp c (λ a w. (last_or b bs, last_or-IsRow b bs, w))
                (λ a w. (last_or b' bs', last_or-IsRow b' bs', w)) found)
          | inl (n_eq, rest) ↦ inl (omega (arith, n_eq))
        ]

abbrev hash : AuditChainHead → Option String
hash x = x.last_block_hash

-- Two tables in which a tenant's history verifies as valid, and whose chain heads have one hash, hold the
-- same events of the tenant, block by block and in order, up to the canonical text of their envelopes;
-- otherwise SHA-256 gives one output for two different inputs, one in the verification of the first history
-- and one in that of the second. The canonical text of a block envelope is taken to determine its values.
pub verified_head_binds :
    (c : Primitives) (loads : String → Option Json) (organization_id : ℕ) (s s' : Tables)
    (v v' : AuditVerification) (head head' : AuditChainHead)
    → FaithfulBlocks c
    → verify_tenant_audit_history c loads organization_id s ≡ ok v
    → v.status ≡ valid
    → verify_tenant_audit_history c loads organization_id s' ≡ ok v'
    → v'.status ≡ valid
    → find_head organization_id s.heads ≡ some head
    → find_head organization_id s'.heads ≡ some head'
    → head.last_block_hash ≡ head'.last_block_hash
    → SameHistory c loads organization_id s s'
        (blocks_of organization_id s)
        (blocks_of organization_id s')
      ⊎ Collision c
          (IsChainInput c loads organization_id s (blocks_of organization_id s))
          (IsChainInput c loads organization_id s' (blocks_of organization_id s'))
verified_head_binds c loads organization_id s s' v v' head head' faithful h p h' p' found found'
      same =
    let k = verify_sound c loads organization_id s v h p in
    let k' = verify_sound c loads organization_id s' v' h' p' in
    let head_eq : k.head ≡ head = cc (k.has_head) in
    let head_eq' : k'.head ≡ head' = cc (k'.has_head) in
    let hashes =
      sym k.head_seals ∙ ap hash head_eq ∙ same ∙ sym (ap hash head_eq') ∙ k'.head_seals in
    elim (same_length c loads organization_id s s' _ _ faithful k.chain k'.chain hashes) [
      | inr collision ↦ inr collision
      | inl l ↦
          elim (chain_binds c loads organization_id s s' 1 none none _ _ faithful l k.chain k'.chain
            hashes) [ inr collision ↦ inr collision | inl r ↦ inl r.1 ]
    ]
