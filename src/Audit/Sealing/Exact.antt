-- ===== src/Audit/Sealing/Exact.antt =====
-- What a sealing that returns a block has done to the tables.
use Prim.Native.Nat.{min}
use agentledger_mvp_v.Base.{
  ℕ, ◌+◌, ◌≤◌, ◌<◌, ◌≡◌, refl, ap, sym, subst, ◌∙◌, String, Option, none, some, All, IsRow, true,
  ==_refl, List, [], ◌∷◌, length, arith, filter, Option-cases, ◌⊎◌, inl, inr,
}
use agentledger_mvp_v.Base.Json.{Json, Fields}
use agentledger_mvp_v.Base.Result.{ok, Result-cases}
use agentledger_mvp_v.Jobs.Table.{update}
use agentledger_mvp_v.Audit.Merkle.{
  Bytes, Primitives, hash_leaves, merkle_root, merkle_root_from_hashes,
}
use agentledger_mvp_v.Audit.Merkle.Leaves.{merkle_root-leaves}
use agentledger_mvp_v.Audit.Texts.{hex}
use agentledger_mvp_v.Audit.Store.{AuditEvent, AuditChainHead, AuditMerkleBlock, Tables, find_head}
use agentledger_mvp_v.Audit.Sealing.{
  SealedAuditBlock, unsealed, seal_events, is_head, set_head, create_block, envelopes, new_block,
  first_id, last_id, is_unsealed, write_block, sealed_block, seal_rows, seal_body,
  seal_tenant_audit_events, _ensure_chain_head, with_heads,
}
use agentledger_mvp_v.Audit.Sealing.Counts.{
  waiting, length-unsealed, is_foreign, seal_events-waiting, seal_events-is_foreign, full_or_all,
}
use agentledger_mvp_v.Audit.Sealing.Head.{find_head-update}
use agentledger_mvp_v.Audit.Sealing.Oldest.{Oldest, unsealed-Oldest, unsealed-rows}
use agentledger_mvp_v.Audit.Sealing.Written.{
  EachSealed, OnlySealed, seal_events-EachSealed, seal_events-OnlySealed,
}

some-same : (x y : AuditChainHead) → some x ≡ some y → x ≡ y
some-same x y h = ap (λ o. elim o [ none ↦ x | some z ↦ z ]) h

-- The rows that a block is made of, and what was written.
module _ (c : Primitives) (loads : String → Option Json) (jsonb_text : Json → String) where
  write_block-parts :
      (organization_id : ℕ) (head : AuditChainHead) (rows : List AuditEvent) (hashes : List Bytes)
      (block : AuditMerkleBlock) (s s' : Tables)
      → write_block c loads jsonb_text organization_id head rows hashes block s ≡ ok s'
      → (seal_events organization_id block.id 0 rows hashes s.events ≡ ok s'.events)
        × ((s'.blocks ≡ block ∷ s.blocks)
            × (s'.heads
                ≡ update
                    (is_head organization_id head)
                    (set_head block.block_sequence block.block_hash)
                    s.heads))
  unfolding write_block create_block
  write_block-parts organization_id head rows hashes block s s' h =
      elim (Result-cases (create_block block s.blocks)) [
        | inr (x, q) ↦ absurd (ground arith)
        | inl (blocks, q) ↦
            elim (Result-cases (seal_events organization_id block.id 0 rows hashes s.events)) [
              | inr (x, r) ↦ absurd (ground arith)
              | inl (events, r) ↦ (ground arith, (ground arith, ground arith))
            ]
      ]

  new_block-parts :
      (organization_id block_id : ℕ) (head : AuditChainHead) (rows : List AuditEvent)
      (hashes : List Bytes) (block : AuditMerkleBlock)
      → new_block c loads jsonb_text organization_id block_id head rows hashes ≡ ok block
      → (block.block_sequence ≡ head.last_block_sequence + 1)
        × ((block.previous_block_hash ≡ head.last_block_hash)
            × ((block.event_count ≡ length rows)
                × (((block.first_event_id ≡ first_id rows) × (block.last_event_id ≡ last_id rows))
                    × ((root : Bytes) × ((merkle_root_from_hashes c hashes ≡ ok root)
                          × (block.merkle_root ≡ hex root))))))
  unfolding new_block
  new_block-parts organization_id block_id head rows hashes block h =
      elim (Result-cases (merkle_root_from_hashes c hashes)) [
        | inr (x, q) ↦ absurd (ground arith)
        | inl (root, q) ↦ (
          ground arith,
          (ground arith, (ground arith, ((ground arith, ground arith), (root, (q, ground arith))))),
        )
      ]

  -- The chain head before: the row of the tenant, or the start of a chain.
  abbrev pub WasHead : ℕ → Tables → AuditChainHead → Type 0
  WasHead organization_id s head =
      (find_head organization_id s.heads ≡ some head)
      ⊎ ((find_head organization_id s.heads ≡ none)
          × (head.last_block_sequence ≡ 0)
          × (head.last_block_hash ≡ none))

  ensured-WasHead :
      (organization_id : ℕ) (s : Tables) (head : AuditChainHead)
      → find_head organization_id (_ensure_chain_head organization_id s.heads) ≡ some head
      → WasHead organization_id s head
  unfolding _ensure_chain_head
  ensured-WasHead organization_id s head h =
      elim (Option-cases (find_head organization_id s.heads)) [
        | inr (x, e) ↦ inl (rw (e, _ensure_chain_head) at h)
        | inl e ↦
            let new = rw (e, _ensure_chain_head, ==_refl organization_id) at h in
            let same = some-same _ head new in
            inr (
              e,
              ap (λ x. x.last_block_sequence) (sym same),
              ap (λ x. x.last_block_hash) (sym same),
            )
      ]

  -- What the sealing of a block `b` did to the tables, and of which events it is made.
  pub record SealsOldest (organization_id max_events : ℕ) (s s' : Tables) (b : SealedAuditBlock)
      : Type 0 where
    pub head : AuditChainHead
    pub was_head : WasHead organization_id s head
    pub follows : b.block_sequence ≡ head.last_block_sequence + 1
    pub is_linked : b.previous_block_hash ≡ head.last_block_hash
    pub chosen : List AuditEvent
    pub oldest : Oldest organization_id s.events chosen
    pub all_chosen : b.event_count ≡ length chosen
    pub starts : b.first_event_id ≡ first_id chosen
    pub ends : b.last_event_id ≡ last_id chosen
    pub not_empty : 1 ≤ b.event_count
    pub within : b.event_count ≤ max_events
    pub counted : b.event_count + waiting organization_id s' ≡ waiting organization_id s
    pub all_or_full : (b.event_count ≡ max_events) ⊎ (waiting organization_id s' ≡ 0)
    pub stored :
        (x : AuditMerkleBlock) × (s'.blocks ≡ x ∷ s.blocks)
        × (sealed_block c loads jsonb_text x ≡ b)
    pub head_after :
        (h : AuditChainHead) × (find_head organization_id s'.heads ≡ some h)
        × (h.last_block_sequence ≡ b.block_sequence)
        × (h.last_block_hash ≡ some b.block_hash)
    pub hashes : List Bytes
    pub has_root :
        (es : List Fields) × (envelopes c loads jsonb_text chosen ≡ ok es)
        × (hash_leaves c es ≡ ok hashes)
        × ((root : Bytes) × (merkle_root c es ≡ ok root) × (b.merkle_root ≡ hex root))
    pub each_sealed : EachSealed b.id 0 chosen hashes s'.events
    pub only_sealed : OnlySealed organization_id b.id s.events s'.events
    pub foreign_kept :
        filter (is_foreign organization_id) s'.events ≡ filter (is_foreign organization_id) s.events

  written-SealsOldest :
      (organization_id max_events : ℕ) (head : AuditChainHead) (block_id : ℕ)
      (rows : List AuditEvent) (s s' : Tables) (es : List Fields) (hashes : List Bytes)
      (block : AuditMerkleBlock)
      → 0 < length rows
      → rows ≡ unsealed organization_id max_events s
      → find_head organization_id (_ensure_chain_head organization_id s.heads) ≡ some head
      → envelopes c loads jsonb_text rows ≡ ok es
      → hash_leaves c es ≡ ok hashes
      → new_block c loads jsonb_text organization_id block_id head rows hashes ≡ ok block
      → write_block c loads jsonb_text organization_id head rows hashes block
          (with_heads (_ensure_chain_head organization_id s.heads) s)
        ≡ ok s'
      → SealsOldest organization_id max_events s s' (sealed_block c loads jsonb_text block)
  written-SealsOldest organization_id max_events head block_id rows s s' es hashes block some_rows
        all found q r k w =
      let t = with_heads (_ensure_chain_head organization_id s.heads) s in
      let (sealed, (blocks, heads)) =
        write_block-parts organization_id head rows hashes block t s' w in
      let (sequence, (linked, (count, ((starts, ends), (root, (has, kept)))))) =
        new_block-parts organization_id block_id head rows hashes block k in
      let left =
        seal_events-waiting organization_id block.id 0 rows hashes s.events s'.events sealed in
      let size : length rows ≡ min max_events (waiting organization_id s) =
        ap length all ∙ length-unsealed organization_id max_events s in
      record {
        head = head;
        was_head = ensured-WasHead organization_id s head found;
        follows = sequence;
        is_linked = linked;
        chosen = rows;
        oldest =
            subst (Oldest organization_id s.events) (sym all)
              (unsealed-Oldest organization_id max_events s);
        all_chosen = count;
        starts = starts;
        ends = ends;
        not_empty = omega (arith, count, some_rows);
        within = omega (arith, count, size);
        counted = omega (arith, count, left);
        all_or_full =
            full_or_all block.event_count max_events (waiting organization_id s')
              (waiting organization_id s) (omega (arith, count, left)) (count ∙ size);
        stored = (block, blocks, refl);
        head_after = (
          set_head block.block_sequence block.block_hash head,
          ap (find_head organization_id) heads
              ∙ find_head-update organization_id block.block_sequence block.block_hash head
                  (_ensure_chain_head organization_id s.heads) found,
          unfold set_head in refl,
          unfold set_head in refl,
        );
        hashes = hashes;
        has_root = (es, q, r, (root, merkle_root-leaves c es hashes root r has, kept));
        each_sealed =
            seal_events-EachSealed organization_id block.id 0 rows hashes s.events s'.events sealed
              (subst (All (λ e. IsRow e s.events × (is_unsealed organization_id e ≡ true)))
                (sym all) (unsealed-rows organization_id max_events s));
        only_sealed =
            seal_events-OnlySealed organization_id block.id 0 rows hashes s.events s'.events sealed;
        foreign_kept =
            seal_events-is_foreign organization_id block.id 0 rows hashes s.events s'.events sealed;
      }

  seal_rows-SealsOldest :
      (organization_id block_id max_events : ℕ) (head : AuditChainHead) (rows : List AuditEvent)
      (s s' : Tables) (b : SealedAuditBlock)
      → rows ≡ unsealed organization_id max_events s
      → find_head organization_id (_ensure_chain_head organization_id s.heads) ≡ some head
      → seal_rows c loads jsonb_text organization_id block_id head rows
          (with_heads (_ensure_chain_head organization_id s.heads) s)
        ≡ ok (some b, s')
      → SealsOldest organization_id max_events s s' b
  unfolding seal_rows
  seal_rows-SealsOldest organization_id block_id max_events head [] s s' b all found h = absurd (cc)
  seal_rows-SealsOldest organization_id block_id max_events head (row ∷ rows) s s' b all found h =
      elim (Result-cases (envelopes c loads jsonb_text (row ∷ rows))) [
        | inr (x, q) ↦ absurd (ground arith)
        | inl (es, q) ↦ elim (Result-cases (hash_leaves c es)) [
          | inr (x, r) ↦ absurd (ground arith)
          | inl (hashes, r) ↦
              elim (Result-cases
                (new_block c loads jsonb_text organization_id block_id head (row ∷ rows) hashes)) [
                  | inr (x, k) ↦ absurd (ground arith)
                  | inl (block, k) ↦
                      let t = with_heads (_ensure_chain_head organization_id s.heads) s in
                      elim (Result-cases (
                        write_block c loads jsonb_text organization_id head (row ∷ rows) hashes
                          block t)) [
                            | inr (x, w) ↦ absurd (ground arith)
                            | inl (s'', w) ↦
                                let same : s'' ≡ s' = ground arith in
                                let same_block : sealed_block c loads jsonb_text block ≡ b =
                                  ground arith in
                                subst (SealsOldest organization_id max_events s s') same_block (
                                  written-SealsOldest organization_id max_events head block_id
                                    (row ∷ rows) s s' es hashes block (omega arith) all found q r k
                                    (w ∙ ap ok same))
                          ]
                ]
        ]
      ]

seal_body-SealsOldest :
    (c : Primitives) (loads : String → Option Json) (jsonb_text : Json → String)
    (organization_id block_id max_events : ℕ) (s s' : Tables) (b : SealedAuditBlock)
    → seal_body c loads jsonb_text organization_id block_id max_events s ≡ ok (some b, s')
    → SealsOldest c loads jsonb_text organization_id max_events s s' b
unfolding seal_body unsealed
seal_body-SealsOldest c loads jsonb_text organization_id block_id max_events s s' b h =
    elim (Option-cases (find_head organization_id (_ensure_chain_head organization_id s.heads))) [
      | inl e ↦ absurd (ground arith)
      | inr (head, e) ↦
          seal_rows-SealsOldest c loads jsonb_text organization_id block_id max_events head
            (unsealed organization_id max_events s) s s' b refl e (rw (e, seal_body) at h)
    ]

-- A sealing that returns a block made it of the events of the tenant that waited, oldest first and by id
-- among those of one time: no event that it left waiting is earlier than one that it took. The block has at
-- least one event and no more than the limit, as many fewer events wait afterwards, and none waits unless the
-- limit was met. It follows the chain head in number and hash, its root is the Merkle root of the envelopes
-- of its events, it is stored in front of the blocks before it, and the head has its number and hash. Each of
-- its events stands in the table with its leaf hash, the block and its place, and is otherwise as it was, and
-- all other events are as they were.
pub seal_tenant_audit_events-SealsOldest :
    (c : Primitives) (loads : String → Option Json) (jsonb_text : Json → String)
    (organization_id block_id max_events : ℕ) (s s' : Tables) (b : SealedAuditBlock)
    → seal_tenant_audit_events c loads jsonb_text organization_id block_id max_events s
      ≡ (ok (some b), s')
    → SealsOldest c loads jsonb_text organization_id max_events s s' b
unfolding seal_tenant_audit_events
seal_tenant_audit_events-SealsOldest c loads jsonb_text organization_id block_id max_events s s' b
      h =
    elim (Result-cases (seal_body c loads jsonb_text organization_id block_id max_events s)) [
      | inr (x, q) ↦ absurd (ground arith)
      | inl ((r, s''), q) ↦
          let done : seal_body c loads jsonb_text organization_id block_id max_events s
              ≡ ok (some b, s') =
            ground arith in
          seal_body-SealsOldest c loads jsonb_text organization_id block_id max_events s s' b done
    ]
