-- ===== src/Audit/Security/Isolated.antt =====
-- The statements of the web application and of the worker touch rows of the session's tenant only, and
-- the application writes no block and no chain head.
use agentledger_mvp_v.Base.{
  ℕ, ◌≡◌, refl, sym, ◌∙◌, subst, Bool, true, false, not, List, ◌∷◌, filter, inl, inr, arith,
}
use agentledger_mvp_v.Base.Json.{Json}
use agentledger_mvp_v.Base.Result.{Result, ok, ◌>>◌, raise_if, Result-cases, ok-injective}
use agentledger_mvp_v.Audit.Store.{AuditEvent, AuditMerkleBlock, AuditChainHead, Tables, is_number}
use agentledger_mvp_v.Audit.Security.{
  SecurityError, permission_denied, Session, admits, protect_audit_event, insert_row, update_rows,
  Statement, insert_event, update_events, delete_events, insert_block, update_blocks, delete_blocks,
  insert_head, update_heads, permitted, execute, may_insert_event, all_granted, is_owner,
  is_owner_or_worker, set_columns,
}
use agentledger_mvp_v.Audit.Security.Rows.{insert_row-ok, update_rows-ok, UpdatedRows-filter}

-- An organization that is not the session's.
abbrev pub is_foreign : Session → ℕ → Bool
is_foreign s organization_id = not (is_number s.current_organization_id organization_id)

-- What a statement of a session left of the tables.
pub record IsTenantOnly (s : Session) (t u : Tables) : Type 0 where
  pub events_apart :
      filter (λ (x : AuditEvent). is_foreign s x.organization_id) u.events
      ≡ filter (λ (x : AuditEvent). is_foreign s x.organization_id) t.events
  pub blocks_apart :
      filter (λ (x : AuditMerkleBlock). is_foreign s x.organization_id) u.blocks
      ≡ filter (λ (x : AuditMerkleBlock). is_foreign s x.organization_id) t.blocks
  pub heads_apart :
      filter (λ (x : AuditChainHead). is_foreign s x.organization_id) u.heads
      ≡ filter (λ (x : AuditChainHead). is_foreign s x.organization_id) t.heads
  pub no_chain : is_owner_or_worker s.role ≡ false → (u.blocks ≡ t.blocks) × (u.heads ≡ t.heads)

admits-own :
    (s : Session) (n : ℕ) → is_owner s.role ≡ false → admits s n ≡ true → is_foreign s n ≡ false
unfolding admits
admits-own s n o h = ground arith

same-IsTenantOnly : (s : Session) (t : Tables) → IsTenantOnly s t t
same-IsTenantOnly s t = record {
  events_apart = refl;
  blocks_apart = refl;
  heads_apart = refl;
  no_chain = λ n. (refl, refl);
}

-- A new row of the session's tenant.
filter-new :
    {A : Type 0} (q : A → Bool) (x : A) (xs ys : List A)
    → ys ≡ x ∷ xs
    → q x ≡ false
    → filter q ys ≡ filter q xs
filter-new q x xs ys e h = rw (e, h) refl

-- A statement that returned passed its grant.
passed :
    {A : Type 0} (b : Bool) (e : SecurityError) (r : Result SecurityError A) (a : A)
    → (raise_if (not b) e >> r) ≡ ok a
    → (b ≡ true) × (r ≡ ok a)
passed true e r a h = (refl, h)
passed false e r a h = absurd (cc (h))

module _ (same_json : Json → Json → Bool) (s : Session) (not_owner : is_owner s.role ≡ false) where
  own :
      {A : Type 0} (organization : A → ℕ) (x : A)
      → admits s (organization x) ≡ true
      → is_foreign s (organization x) ≡ false
  own organization x h = admits-own s (organization x) not_owner h

  ownerless :
      {A : Type 0} (r : Result SecurityError A) (a : A)
      → (raise_if (not (is_owner s.role)) permission_denied >> r) ≡ ok a
      → ⊥
  ownerless r a h = let q = rw not_owner at h in absurd (cc (q))

  permitted-IsTenantOnly :
      (statement : Statement) (t u : Tables)
      → permitted same_json s statement t ≡ ok u
      → IsTenantOnly s t u
  unfolding permitted
  permitted-IsTenantOnly (insert_event e) t u h =
      let (allowed, g) = passed (may_insert_event s.role) permission_denied _ u h in
      elim (Result-cases (insert_row (λ (x : AuditEvent). admits s x.organization_id) e t.events)) [
        | inr (x, r) ↦ absurd (let z = rw r at g in cc (z))
        | inl (es, r) ↦
            let (new, a) = insert_row-ok _ e t.events es r in
            subst (IsTenantOnly s t) (ok-injective _ _ (rw r at g)) (record {
              events_apart =
                  filter-new _ e t.events es new (own (λ (x : AuditEvent). x.organization_id) e a);
              blocks_apart = refl;
              heads_apart = refl;
              no_chain = λ n. (refl, refl);
            })
      ]
  permitted-IsTenantOnly (update_events cs p f) t u h =
      let (allowed, g) = passed (all_granted s.role cs) permission_denied _ u h in
      let admitted : AuditEvent → Bool = λ x. admits s x.organization_id in
      let trigger = protect_audit_event same_json in
      elim (Result-cases (update_rows admitted trigger p (set_columns cs f) t.events)) [
        | inr (x, r) ↦ absurd (let z = rw r at g in cc (z))
        | inl (es, r) ↦ subst (IsTenantOnly s t) (ok-injective _ _ (rw r at g)) (record {
          events_apart =
              UpdatedRows-filter admitted trigger p (set_columns cs f) _
                (own (λ (x : AuditEvent). x.organization_id)) t.events es
                (update_rows-ok admitted trigger p (set_columns cs f) t.events es r);
          blocks_apart = refl;
          heads_apart = refl;
          no_chain = λ n. (refl, refl);
        })
      ]
  permitted-IsTenantOnly (delete_events p) t u h = absurd (ownerless _ u h)
  permitted-IsTenantOnly (insert_block b) t u h =
      let (worker, g) = passed (is_owner_or_worker s.role) permission_denied _ u h in
      elim (Result-cases
        (insert_row (λ (x : AuditMerkleBlock). admits s x.organization_id) b t.blocks)) [
          | inr (x, r) ↦ absurd (let z = rw r at g in cc (z))
          | inl (bs, r) ↦
              let (new, a) = insert_row-ok _ b t.blocks bs r in
              subst (IsTenantOnly s t) (ok-injective _ _ (rw r at g)) (record {
                events_apart = refl;
                blocks_apart =
                    filter-new _ b t.blocks bs new
                      (own (λ (x : AuditMerkleBlock). x.organization_id) b a);
                heads_apart = refl;
                no_chain = λ n. absurd (let z = sym worker ∙ n in cc (z));
              })
        ]
  permitted-IsTenantOnly (update_blocks p) t u h = absurd (ownerless _ u h)
  permitted-IsTenantOnly (delete_blocks p) t u h = absurd (ownerless _ u h)
  permitted-IsTenantOnly (insert_head k) t u h =
      let (worker, g) = passed (is_owner_or_worker s.role) permission_denied _ u h in
      elim (Result-cases
        (insert_row (λ (x : AuditChainHead). admits s x.organization_id) k t.heads)) [
          | inr (x, r) ↦ absurd (let z = rw r at g in cc (z))
          | inl (ks, r) ↦
              let (new, a) = insert_row-ok _ k t.heads ks r in
              subst (IsTenantOnly s t) (ok-injective _ _ (rw r at g)) (record {
                events_apart = refl;
                blocks_apart = refl;
                heads_apart =
                    filter-new _ k t.heads ks new
                      (own (λ (x : AuditChainHead). x.organization_id) k a);
                no_chain = λ n. absurd (let z = sym worker ∙ n in cc (z));
              })
        ]
  permitted-IsTenantOnly (update_heads p f) t u h =
      let (worker, g) = passed (is_owner_or_worker s.role) permission_denied _ u h in
      let admitted : AuditChainHead → Bool = λ x. admits s x.organization_id in
      elim (Result-cases (update_rows admitted (λ x y. ok y) p f t.heads)) [
        | inr (x, r) ↦ absurd (let z = rw r at g in cc (z))
        | inl (ks, r) ↦ subst (IsTenantOnly s t) (ok-injective _ _ (rw r at g)) (record {
          events_apart = refl;
          blocks_apart = refl;
          heads_apart =
              UpdatedRows-filter admitted (λ x y. ok y) p f _
                (own (λ (x : AuditChainHead). x.organization_id)) t.heads ks
                (update_rows-ok admitted (λ x y. ok y) p f t.heads ks r);
          no_chain = λ n. absurd (let z = sym worker ∙ n in cc (z));
        })
      ]

  -- A statement of a session that is not the owner's leaves the events, blocks and chain heads of other
  -- organizations as they were; and where its role is not the worker's either, it leaves all blocks and
  -- chain heads as they were.
  pub execute-IsTenantOnly :
      (statement : Statement) (t : Tables) → IsTenantOnly s t (execute same_json s statement t)
  unfolding execute
  execute-IsTenantOnly statement t = elim (Result-cases (permitted same_json s statement t)) [
    | inr (x, r) ↦ rw (execute, r) (same-IsTenantOnly s t)
    | inl (u, r) ↦ rw (execute, r) (permitted-IsTenantOnly statement t u r)
  ]
