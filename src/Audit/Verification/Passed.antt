-- ===== src/Audit/Verification/Passed.antt =====
-- A block that the verification passes keeps what was committed to it.
use agentledger_mvp_v.Base.{
  sort_by, ℕ, suc, ◌≡◌, refl, ap, subst, ◌∙◌, String, true, Option, some, none, List, [], ◌∷◌,
  length, map, ◌==◌, arith, ◌⊎◌, inl, inr, str_eq, str_eq_iff, ==_iff, Bool-cases,
}
use agentledger_mvp_v.Base.Json.{Json, Fields}
use agentledger_mvp_v.Base.Result.{Result, ok, err, Result-cases}
use agentledger_mvp_v.Audit.Merkle.{
  Bytes, Primitives, MerkleError, hash_leaf, hash_leaves, hash_block, merkle_root_from_hashes,
}
use agentledger_mvp_v.Audit.Merkle.Leaves.{merkle_root-leaves}
use agentledger_mvp_v.Audit.Texts.{hex, uuid_text}
use agentledger_mvp_v.Audit.Block.{block_fields, build_block_envelope, build_block_envelope-ok}
use agentledger_mvp_v.Audit.Store.{AuditEvent, AuditMerkleBlock, occurs_before, same_text}
use agentledger_mvp_v.Audit.Sealing.{AuditError, from_merkle, first_id, last_id}
use agentledger_mvp_v.Audit.Verification.{
  Fault, same_ids, positions_from, check_leaves, block_digests, block_material, check_block, catch,
}
use agentledger_mvp_v.Audit.Verification.Spec.{places, envelope_of, CommittedBlock}

from_merkle-ok : {A : Type 0} (r : Result MerkleError A) (a : A) → from_merkle r ≡ ok a → r ≡ ok a
from_merkle-ok (err e) a h = absurd (cc)
from_merkle-ok (ok b) a h = let same : b ≡ a = cc in ap ok same

catch-ok :
    {A : Type 0} (r : Result AuditError (Fault ⊎ A)) (a : A) → catch r ≡ ok (inr a) → r ≡ ok (inr a)
catch-ok (ok x) a h = h
catch-ok (err e) a h = ground arith

pub same_text-eq : (s t : Option String) → same_text s t ≡ true → s ≡ t
same_text-eq none none h = refl
same_text-eq none (some t) h = absurd (cc)
same_text-eq (some s) none h = absurd (cc)
same_text-eq (some s) (some t) h = ap some ((str_eq_iff s t).0 h)

places-positions_from :
    (n : ℕ) (es : List AuditEvent)
    → positions_from n es ≡ true
    → map (λ e. e.batch_position) es ≡ places n es
places-positions_from n [] h = refl
places-positions_from n (e ∷ es) h = ground (arith, places-positions_from (suc n) es)

same_ids-eq :
    (ds es : List AuditEvent) → same_ids ds es ≡ true → map (λ e. e.id) ds ≡ map (λ e. e.id) es
same_ids-eq [] [] h = refl
same_ids-eq [] (e ∷ es) h = absurd (cc)
same_ids-eq (d ∷ ds) [] h = absurd (cc)
same_ids-eq (d ∷ ds) (e ∷ es) h = ground (arith, same_ids-eq ds es)

module _ (c : Primitives) (loads : String → Option Json) where
  check_leaves-ok :
      (es : List AuditEvent) (hs : List Bytes)
      → check_leaves c loads es ≡ ok (inr hs)
      → (envs : List Fields) × ((map (envelope_of loads) es ≡ map ok envs)
          × ((hash_leaves c envs ≡ ok hs)
              × (map (λ e. e.node_hash) es ≡ map (λ h. some (hex h)) hs)))
  unfolding check_leaves hash_leaves
  check_leaves-ok [] hs h =
      ([], (refl, (cc, let empty : [] ≡ hs = cc in ap (map (λ h. some (hex h))) empty)))
  check_leaves-ok (e ∷ es) hs h = elim (Result-cases (envelope_of loads e)) [
    | inr (x, q) ↦ absurd (ground arith)
    | inl (env, made) ↦ elim (Result-cases (hash_leaf c env)) [
      | inr (x, q) ↦ absurd (ground arith)
      | inl (leaf, hashed) ↦ elim (Bool-cases (same_text e.node_hash (some (hex leaf)))) [
        | inr differ ↦ absurd (ground arith)
        | inl same ↦ elim (Result-cases (check_leaves c loads es)) [
          | inr (x, q) ↦ absurd (ground arith)
          | inl (inl f, q) ↦ absurd (ground arith)
          | inl (inr hs', q) ↦
              let (envs, (m, (w, n))) = check_leaves-ok es hs' q in
              let kept : e.node_hash ≡ some (hex leaf) =
                same_text-eq e.node_hash (some (hex leaf)) same in
              let all : leaf ∷ hs' ≡ hs = ground arith in
              (
                env ∷ envs,
                (
                  rw (made, m),
                  (
                    ground arith,
                    subst (λ l. map (λ e. e.node_hash) (e ∷ es) ≡ map (λ h. some (hex h)) l) all
                        (rw (kept, n) refl),
                  ),
                ),
              )
        ]
      ]
    ]
  ]

  -- The digests of a block, with the arguments of its envelope.
  abbrev Digests : ℕ → AuditMerkleBlock → List Bytes → String × String → Type 0
  Digests organization_id block hs texts =
      (root : Bytes) × ((merkle_root_from_hashes c hs ≡ ok root)
        × ((digest : Bytes) × ((hash_block c (
                  block_fields (uuid_text organization_id) block.block_sequence block.event_count
                    (uuid_text block.first_event_id) (uuid_text block.last_event_id) (hex root)
                    block.previous_block_hash)
                ≡ ok digest)
              × (texts ≡ (hex root, hex digest)))))

  block_digests-ok :
      (organization_id : ℕ) (block : AuditMerkleBlock) (hs : List Bytes) (texts : String × String)
      → block_digests c loads organization_id block hs ≡ ok (inr texts)
      → Digests organization_id block hs texts
  unfolding block_digests
  block_digests-ok organization_id block hs texts h =
      elim (Result-cases (merkle_root_from_hashes c hs)) [
        | inr (x, q) ↦ absurd (ground arith)
        | inl (root, r) ↦
            let built =
              build_block_envelope (uuid_text organization_id) block.block_sequence
                block.event_count (uuid_text block.first_event_id) (uuid_text block.last_event_id)
                (hex root) block.previous_block_hash in
            elim (Result-cases built) [
              | inr (x, q) ↦ absurd (ground arith)
              | inl (envelope, b) ↦ elim (Result-cases (hash_block c envelope)) [
                | inr (x, q) ↦ absurd (ground arith)
                | inl (digest, d) ↦
                    let same = build_block_envelope-ok _ _ _ _ _ _ _ envelope b in
                    (root, (r, (digest, (rw same at d, ground arith))))
              ]
            ]
      ]

  check_block-passed :
      (organization_id n : ℕ) (previous : Option String) (block : AuditMerkleBlock)
      (events : List AuditEvent)
      → check_block c loads organization_id n previous block events ≡ ok none
      → ((length events == block.event_count) ≡ true)
        × (((block.block_sequence == n) ≡ true)
            × ((same_text block.previous_block_hash previous ≡ true)
                × ((positions_from 0 events ≡ true)
                    × ((same_ids events (sort_by occurs_before events) ≡ true)
                        × (((block.first_event_id == first_id events) ≡ true)
                            × (((block.last_event_id == last_id events) ≡ true)
                                × ((texts : String × String) × ((block_material c loads
                                          organization_id block events
                                        ≡ ok (inr texts))
                                      × ((str_eq block.merkle_root texts.0 ≡ true)
                                          × (str_eq block.block_hash texts.1 ≡ true))))))))))
  unfolding check_block
  check_block-passed organization_id n previous block events h = (
    ground arith,
    (
      ground arith,
      (ground arith, (ground arith, (ground arith, (ground arith, (ground arith, made))))),
    ),
  )
    where
      made :
          (texts : String × String) × ((block_material c loads organization_id block events
              ≡ ok (inr texts))
            × ((str_eq block.merkle_root texts.0 ≡ true)
                × (str_eq block.block_hash texts.1 ≡ true)))
      made = elim (Result-cases (block_material c loads organization_id block events)) [
        | inr (x, q) ↦ absurd (ground arith)
        | inl (inl f, q) ↦ absurd (ground arith)
        | inl (inr texts, q) ↦ (texts, (q, (ground arith, ground arith)))
      ]

  block_material-ok :
      (organization_id : ℕ) (block : AuditMerkleBlock) (events : List AuditEvent)
      (texts : String × String)
      → block_material c loads organization_id block events ≡ ok (inr texts)
      → (hs : List Bytes) × ((check_leaves c loads events ≡ ok (inr hs))
          × Digests organization_id block hs texts)
  unfolding block_material
  block_material-ok organization_id block events texts h =
      let h1 = catch-ok _ texts h in
      elim (Result-cases (check_leaves c loads events)) [
        | inr (x, q) ↦ absurd (ground (arith, h1))
        | inl (inl f, q) ↦ absurd (ground (arith, h1))
        | inl (inr hs, q) ↦ (hs, (q, block_digests-ok organization_id block hs texts (rw q at h1)))
      ]

  pub check_block-CommittedBlock :
      (organization_id n : ℕ) (previous : Option String) (block : AuditMerkleBlock)
      (events : List AuditEvent)
      → check_block c loads organization_id n previous block events ≡ ok none
      → CommittedBlock c loads organization_id n previous block events
  check_block-CommittedBlock organization_id n previous block events h =
      let (
        h1,
        (h2, (h3, (h4, (h_order, (h5, (h6, (texts, (material, (root_text, hash_text))))))))),
      ) =
        check_block-passed organization_id n previous block events h in
      let (hs, (leaves, (root, (r, (digest, (d, t)))))) =
        block_material-ok organization_id block events texts material in
      let (envs, (decoded, (hashed, nodes))) = check_leaves-ok events hs leaves in
      let n_eq : block.block_sequence ≡ n = (==_iff _ _).0 h2 in
      let p_eq : block.previous_block_hash ≡ previous = same_text-eq _ _ h3 in
      let root_eq : block.merkle_root ≡ hex root =
        (str_eq_iff _ _).0 root_text ∙ ap (λ (x : String × String). x.0) t in
      record {
        in_sequence = n_eq;
        is_linked = p_eq;
        all_there = (==_iff _ _).0 h1;
        in_order = same_ids-eq events _ h_order;
        in_place = places-positions_from 0 events h4;
        starts = (==_iff _ _).0 h5;
        ends = (==_iff _ _).0 h6;
        envelopes = envs;
        decoded = decoded;
        leaf_hashes = hs;
        has_leaves = hashed;
        kept_leaves = nodes;
        root = root;
        has_root = merkle_root-leaves c envs hs root hashed r;
        kept_root = root_eq;
        digest = digest;
        has_digest = rw (← n_eq, ← p_eq, root_eq) d;
        kept_hash = (str_eq_iff _ _).0 hash_text ∙ ap (λ (x : String × String). x.1) t;
      }
