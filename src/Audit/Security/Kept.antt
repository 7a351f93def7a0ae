-- ===== src/Audit/Security/Kept.antt =====
-- The audit trail is append-only: no session, the owner's included, changes the envelope of an event, a
-- sealed event or a block, or removes one.
use agentledger_mvp_v.Base.{
  ℕ, ◌≡◌, refl, sym, ap, ◌∙◌, subst, Bool, true, false, not, ◌&&◌, Option, none, some, List, [],
  ◌∷◌, ◌==◌, ==_iff, str_eq, str_eq_iff, Bool-cases, inl, inr, arith,
}
use agentledger_mvp_v.Base.Json.{Json}
use agentledger_mvp_v.Base.Result.{Result, ok, raise_if, ◌>>◌, Result-cases, ok-injective}
use agentledger_mvp_v.Audit.Store.{AuditEvent, AuditMerkleBlock, AuditChainHead, Tables}
use agentledger_mvp_v.Audit.Security.{
  SecurityError, permission_denied, events_cannot_be_deleted, blocks_are_immutable, with_blocks,
  Session, admits, same_number, is_sealed, is_incomplete, same_envelope, protect_audit_event,
  insert_row, update_rows, delete_protected, Statement, insert_event, update_events, delete_events,
  insert_block, update_blocks, delete_blocks, insert_head, update_heads, permitted, execute,
  run_history, may_insert_event, all_granted, is_owner, is_owner_or_worker, set_columns,
}
use agentledger_mvp_v.Audit.Security.Rows.{
  Kept, insert_row-ok, delete_protected-ok, unchanged, changed, update_rows-ok, UpdatedRows-Kept,
}

-- The columns that the envelope of an event is made of; the data is the same to jsonb's equality.
pub record SameEnvelope (same_json : Json → Json → Bool) (x y : AuditEvent) : Type 0 where
  pub same_id : y.id ≡ x.id
  pub same_organization : y.organization_id ≡ x.organization_id
  pub same_time : y.occurred_at ≡ x.occurred_at
  pub same_actor : y.actor_user_id ≡ x.actor_user_id
  pub same_type : y.event_type ≡ x.event_type
  pub same_entity_type : y.entity_type ≡ x.entity_type
  pub same_entity : y.entity_id ≡ x.entity_id
  pub same_data : same_json y.event_data x.event_data ≡ true

-- An event carries sealing metadata.
abbrev pub IsSealed : AuditEvent → Type 0
IsSealed e = is_sealed e ≡ true

-- The envelope is kept, and a sealed event altogether.
abbrev pub EventKept : (Json → Json → Bool) → AuditEvent → AuditEvent → Type 0
EventKept same_json x y = SameEnvelope same_json x y × (IsSealed x → y ≡ x)

-- What the tables keep of themselves.
pub record TablesKept (same_json : Json → Json → Bool) (t u : Tables) : Type 0 where
  pub events_kept : Kept (EventKept same_json) t.events u.events
  pub blocks_kept : Kept (λ x y. y ≡ x) t.blocks u.blocks

-- What is taken of the equality of jsonb.
pub record IsEquality (same_json : Json → Json → Bool) : Type 0 where
  pub refl_at : (v : Json) → same_json v v ≡ true
  pub trans_at : (u v w : Json) → same_json u v ≡ true → same_json v w ≡ true → same_json u w ≡ true

same_number-eq : (m n : Option ℕ) → same_number m n ≡ true → m ≡ n
same_number-eq none none h = refl
same_number-eq none (some n) h = cc
same_number-eq (some m) none h = cc
same_number-eq (some m) (some n) h = ap some ((==_iff m n).0 h)

and_both : (a b : Bool) → (a && b) ≡ true → (a ≡ true) × (b ≡ true)
and_both a b h = ground arith

module _ (same_json : Json → Json → Bool) (law : IsEquality same_json) where
  SameEnvelope-refl : (x : AuditEvent) → SameEnvelope same_json x x
  SameEnvelope-refl x = record {
    same_id = refl;
    same_organization = refl;
    same_time = refl;
    same_actor = refl;
    same_type = refl;
    same_entity_type = refl;
    same_entity = refl;
    same_data = law.refl_at x.event_data;
  }

  EventKept-trans :
      (x y z : AuditEvent)
      → EventKept same_json x y
      → EventKept same_json y z
      → EventKept same_json x z
  EventKept-trans x y z (e, s) (f, t) = (
    record {
      same_id = f.same_id ∙ e.same_id;
      same_organization = f.same_organization ∙ e.same_organization;
      same_time = f.same_time ∙ e.same_time;
      same_actor = f.same_actor ∙ e.same_actor;
      same_type = f.same_type ∙ e.same_type;
      same_entity_type = f.same_entity_type ∙ e.same_entity_type;
      same_entity = f.same_entity ∙ e.same_entity;
      same_data = law.trans_at z.event_data y.event_data x.event_data f.same_data e.same_data;
    },
    (λ sealed. t (subst IsSealed (sym (s sealed)) sealed) ∙ s sealed),
  )

  same_envelope-SameEnvelope :
      (x y : AuditEvent) → same_envelope same_json x y ≡ true → SameEnvelope same_json x y
  unfolding same_envelope
  same_envelope-SameEnvelope x y h =
      let (a, h1) = and_both (y.id == x.id) _ h in
      let (b, h2) = and_both (y.organization_id == x.organization_id) _ h1 in
      let (c, h3) = and_both (y.occurred_at == x.occurred_at) _ h2 in
      let (d, h4) = and_both (same_number y.actor_user_id x.actor_user_id) _ h3 in
      let (e, h5) = and_both (str_eq y.event_type x.event_type) _ h4 in
      let (f, h6) = and_both (str_eq y.entity_type x.entity_type) _ h5 in
      let (g, i) = and_both (same_number y.entity_id x.entity_id) _ h6 in
      record {
        same_id = (==_iff y.id x.id).0 a;
        same_organization = (==_iff y.organization_id x.organization_id).0 b;
        same_time = (==_iff y.occurred_at x.occurred_at).0 c;
        same_actor = same_number-eq y.actor_user_id x.actor_user_id d;
        same_type = (str_eq_iff y.event_type x.event_type).0 e;
        same_entity_type = (str_eq_iff y.entity_type x.entity_type).0 f;
        same_entity = same_number-eq y.entity_id x.entity_id g;
        same_data = i;
      }

  -- What the trigger lets through.
  protect_audit_event-ok :
      (x y z : AuditEvent)
      → protect_audit_event same_json x y ≡ ok z
      → (z ≡ y) × ((same_envelope same_json x y ≡ true) × (is_sealed x ≡ false))
  unfolding protect_audit_event
  protect_audit_event-ok x y z h = elim (Bool-cases (same_envelope same_json x y)) [
    | inr e ↦ absurd (let q = rw (protect_audit_event, e) at h in cc (q))
    | inl e ↦ elim (Bool-cases (is_sealed x)) [
      | inl s ↦ absurd (let q = rw (protect_audit_event, e, s) at h in cc (q))
      | inr s ↦ elim (Bool-cases (is_incomplete y)) [
        | inl i ↦ absurd (let q = rw (protect_audit_event, e, s, i) at h in cc (q))
        | inr i ↦ (sym (ok-injective _ _ (rw (protect_audit_event, e, s, i) at h)), (e, s))
      ]
    ]
  ]

  trigger-EventKept :
      (x y z : AuditEvent) → protect_audit_event same_json x y ≡ ok z → EventKept same_json x z
  trigger-EventKept x y z h =
      let (same, (envelope, unsealed)) = protect_audit_event-ok x y z h in
      (
        subst (SameEnvelope same_json x) (sym same) (same_envelope-SameEnvelope x y envelope),
        (λ sealed. absurd (let q = sym unsealed ∙ sealed in cc (q))),
      )

  EventKept-refl : (x : AuditEvent) → EventKept same_json x x
  EventKept-refl x = (SameEnvelope-refl x, (λ sealed. refl))

  same-TablesKept : (t : Tables) → TablesKept same_json t t
  same-TablesKept t = record {
    events_kept = λ x r. (x, (r, EventKept-refl x));
    blocks_kept = λ x r. (x, (r, refl));
  }

  -- The statement that returned passed its grant.
  granted :
      {A : Type 0} (b : Bool) (e : SecurityError) (r : Result SecurityError A) (a : A)
      → (raise_if b e >> r) ≡ ok a
      → r ≡ ok a
  granted true e r a h = absurd (cc (h))
  granted false e r a h = h

  kept-if :
      (t u : Tables) (events : List AuditEvent) (blocks : List AuditMerkleBlock)
      (heads : List AuditChainHead)
      → Kept (EventKept same_json) t.events events
      → Kept (λ x y. y ≡ x) t.blocks blocks
      → record { events = events; blocks = blocks; heads = heads } ≡ u
      → TablesKept same_json t u
  kept-if t u events blocks heads e b same =
      subst (TablesKept same_json t) same (record { events_kept = e; blocks_kept = b })

  abbrev all_events : (t : Tables) → Kept (EventKept same_json) t.events t.events
  all_events t = λ x r. (x, (r, EventKept-refl x))

  abbrev all_blocks : (t : Tables) → Kept (λ (x : AuditMerkleBlock) y. y ≡ x) t.blocks t.blocks
  all_blocks t = λ x r. (x, (r, refl))

  protected_blocks :
      (s : Session) (p : AuditMerkleBlock → Bool) (t u : Tables)
      → (raise_if (not (is_owner s.role)) permission_denied
          >> with_blocks t (
              delete_protected
                (λ (x : AuditMerkleBlock). admits s x.organization_id)
                blocks_are_immutable
                p
                t.blocks))
        ≡ ok u
      → TablesKept same_json t u
  protected_blocks s p t u h =
      let admitted : AuditMerkleBlock → Bool = λ x. admits s x.organization_id in
      let g = granted (not (is_owner s.role)) permission_denied _ u h in
      elim (Result-cases (delete_protected admitted blocks_are_immutable p t.blocks)) [
        | inr (x, r) ↦ absurd (let z = rw r at g in cc (z))
        | inl (bs, r) ↦
            kept-if t u t.events bs t.heads (all_events t)
              (subst (Kept (λ x y. y ≡ x) t.blocks)
                (sym (delete_protected-ok admitted blocks_are_immutable p t.blocks bs r))
                (all_blocks t))
              (ok-injective _ _ (rw r at g))
      ]

  permitted-TablesKept :
      (s : Session) (statement : Statement) (t u : Tables)
      → permitted same_json s statement t ≡ ok u
      → TablesKept same_json t u
  unfolding permitted
  permitted-TablesKept s (insert_event e) t u h =
      let g = granted (not (may_insert_event s.role)) permission_denied _ u h in
      elim (Result-cases (insert_row (λ (x : AuditEvent). admits s x.organization_id) e t.events)) [
        | inr (x, r) ↦ absurd (let z = rw r at g in cc (z))
        | inl (es, r) ↦
            let (new, a) = insert_row-ok _ e t.events es r in
            kept-if t u es t.blocks t.heads
              (subst (Kept (EventKept same_json) t.events) (sym new)
                (λ y there. (y, (inr there, EventKept-refl y))))
              (all_blocks t) (ok-injective _ _ (rw r at g))
      ]
  permitted-TablesKept s (update_events cs p f) t u h =
      let admitted : AuditEvent → Bool = λ x. admits s x.organization_id in
      let trigger = protect_audit_event same_json in
      let g = granted (not (all_granted s.role cs)) permission_denied _ u h in
      elim (Result-cases (update_rows admitted trigger p (set_columns cs f) t.events)) [
        | inr (x, r) ↦ absurd (let z = rw r at g in cc (z))
        | inl (es, r) ↦
            kept-if t u es t.blocks t.heads
              (UpdatedRows-Kept admitted trigger p (set_columns cs f) (EventKept same_json)
                (λ x y v. elim v [
                  | unchanged same ↦ subst (EventKept same_json x) (sym same) (EventKept-refl x)
                  | changed through before after ↦
                      trigger-EventKept x (set_columns cs f x) y through
                ])
                t.events es (update_rows-ok admitted trigger p (set_columns cs f) t.events es r))
              (all_blocks t) (ok-injective _ _ (rw r at g))
      ]
  permitted-TablesKept s (delete_events p) t u h =
      let admitted : AuditEvent → Bool = λ x. admits s x.organization_id in
      let g = granted (not (is_owner s.role)) permission_denied _ u h in
      elim (Result-cases (delete_protected admitted events_cannot_be_deleted p t.events)) [
        | inr (x, r) ↦ absurd (let z = rw r at g in cc (z))
        | inl (es, r) ↦
            kept-if t u es t.blocks t.heads
              (subst (Kept (EventKept same_json) t.events)
                (sym (delete_protected-ok admitted events_cannot_be_deleted p t.events es r))
                (all_events t))
              (all_blocks t) (ok-injective _ _ (rw r at g))
      ]
  permitted-TablesKept s (insert_block b) t u h =
      let g = granted (not (is_owner_or_worker s.role)) permission_denied _ u h in
      elim (Result-cases
        (insert_row (λ (x : AuditMerkleBlock). admits s x.organization_id) b t.blocks)) [
          | inr (x, r) ↦ absurd (let z = rw r at g in cc (z))
          | inl (bs, r) ↦
              let (new, a) = insert_row-ok _ b t.blocks bs r in
              kept-if t u t.events bs t.heads (all_events t)
                (subst (Kept (λ x y. y ≡ x) t.blocks) (sym new) (λ y there. (y, (inr there, refl))))
                (ok-injective _ _ (rw r at g))
        ]
  permitted-TablesKept s (update_blocks p) t u h = protected_blocks s p t u h
  permitted-TablesKept s (delete_blocks p) t u h = protected_blocks s p t u h
  permitted-TablesKept s (insert_head k) t u h =
      let g = granted (not (is_owner_or_worker s.role)) permission_denied _ u h in
      elim (Result-cases
        (insert_row (λ (x : AuditChainHead). admits s x.organization_id) k t.heads)) [
          | inr (x, r) ↦ absurd (let z = rw r at g in cc (z))
          | inl (ks, r) ↦
              kept-if t u t.events t.blocks ks (all_events t) (all_blocks t)
                (ok-injective _ _ (rw r at g))
        ]
  permitted-TablesKept s (update_heads p f) t u h =
      let g = granted (not (is_owner_or_worker s.role)) permission_denied _ u h in
      elim (Result-cases (
        update_rows (λ (x : AuditChainHead). admits s x.organization_id) (λ x y. ok y) p f
          t.heads)) [
            | inr (x, r) ↦ absurd (let z = rw r at g in cc (z))
            | inl (ks, r) ↦
                kept-if t u t.events t.blocks ks (all_events t) (all_blocks t)
                  (ok-injective _ _ (rw r at g))
          ]

  TablesKept-trans :
      (t u v : Tables)
      → TablesKept same_json t u
      → TablesKept same_json u v
      → TablesKept same_json t v
  TablesKept-trans t u v a b = record {
    events_kept = λ x r.
        let (y, (there, k)) = a.events_kept x r in
        let (z, (there', k')) = b.events_kept y there in (z, (there', EventKept-trans x y z k k'));
    blocks_kept = λ x r.
        let (y, (there, k)) = a.blocks_kept x r in
        let (z, (there', k')) = b.blocks_kept y there in (z, (there', k' ∙ k));
  }

  executed :
      (s : Session) (statement : Statement) (t : Tables)
      → TablesKept same_json t (execute same_json s statement t)
  unfolding execute
  executed s statement t = elim (Result-cases (permitted same_json s statement t)) [
    | inr (x, r) ↦ rw (execute, r) (same-TablesKept t)
    | inl (u, r) ↦ rw (execute, r) (permitted-TablesKept s statement t u r)
  ]

  -- After any history of statements of any sessions, the owner's included, every audit event still is
  -- there with its envelope, a sealed event is as it was, and every block is as it was. The equality of
  -- jsonb, to which 1 and 1.0 are one number, is taken to be reflexive and transitive.
  pub run_history-TablesKept :
      (history : List (Session × Statement)) (t : Tables)
      → TablesKept same_json t (run_history same_json history t)
  unfolding run_history execute
  run_history-TablesKept [] t = same-TablesKept t
  run_history-TablesKept ((s, statement) ∷ rest) t =
      TablesKept-trans t (execute same_json s statement t) _ (executed s statement t)
        (run_history-TablesKept rest (execute same_json s statement t))
