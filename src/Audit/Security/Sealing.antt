-- ===== src/Audit/Security/Sealing.antt =====
-- The database lets the worker seal and the application append: the statements of sealing.py and
-- append.py do under the grants, policies and triggers what they do without them.
use agentledger_mvp_v.Base.{
  ℕ, String, ◌≡◌, refl, Bool, true, false, Option, none, some, List, [], ◌∷◌, ==_refl, str_eq_iff,
  Bool-cases, inl, inr, arith, if◌then◌else◌,
}
use agentledger_mvp_v.Base.Json.{Json}
use agentledger_mvp_v.Base.Result.{ok}
use agentledger_mvp_v.Jobs.Table.{update}
use agentledger_mvp_v.Audit.Store.{AuditEvent, Tables}
use agentledger_mvp_v.Audit.Sealing.{may_seal, is_unsealed, set_sealed}
use agentledger_mvp_v.Audit.Security.{
  Role, agentledger_worker, Session, Column, node_hash, batch_block_id, batch_position, admits,
  same_number, is_sealed, is_incomplete, same_envelope, protect_audit_event, updated_row, row_after,
  update_rows, update_events, permitted, execute, set_columns,
}

abbrev pub sealing_columns : List Column
sealing_columns = node_hash ∷ batch_block_id ∷ batch_position ∷ []

abbrev pub session_of : Role → ℕ → Session
session_of role organization_id = record {
  role = role;
  current_organization_id = some organization_id;
}

same_number_refl : (n : Option ℕ) → same_number n n ≡ true
same_number_refl none = refl
same_number_refl (some n) = ==_refl n

module _ (same_json : Json → Json → Bool) (same_json-refl : (v : Json) → same_json v v ≡ true)
    (organization_id event_id block_id position : ℕ) (hash : String) where
  abbrev sealed : AuditEvent → AuditEvent
  sealed = set_sealed hash block_id position

  set_columns-sealed : (e : AuditEvent) → set_columns sealing_columns sealed e ≡ sealed e
  unfolding set_columns set_sealed
  set_columns-sealed e = refl

  same_envelope-sealed : (e : AuditEvent) → same_envelope same_json e (sealed e) ≡ true
  unfolding same_envelope set_sealed
  same_envelope-sealed e =
      rw
        (
          ==_refl e.id,
          ==_refl e.organization_id,
          ==_refl e.occurred_at,
          same_number_refl e.actor_user_id,
          (str_eq_iff e.event_type e.event_type).1 refl,
          (str_eq_iff e.entity_type e.entity_type).1 refl,
          same_number_refl e.entity_id,
          same_json-refl e.event_data,
        )
        refl

  may_seal-unsealed :
      (e : AuditEvent)
      → may_seal organization_id event_id e ≡ true
      → (is_sealed e ≡ false)
        × (admits (session_of agentledger_worker organization_id) e.organization_id ≡ true)
  unfolding is_unsealed is_sealed admits
  may_seal-unsealed e h = ground arith

  sealed_complete : (e : AuditEvent) → is_incomplete (sealed e) ≡ false
  unfolding is_incomplete set_sealed
  sealed_complete e = refl

  abbrev admitted : AuditEvent → Bool
  admitted x = admits (session_of agentledger_worker organization_id) x.organization_id

  protect-sealed :
      (e : AuditEvent)
      → is_sealed e ≡ false
      → protect_audit_event same_json e (sealed e) ≡ ok (sealed e)
  unfolding protect_audit_event
  protect-sealed e unsealed =
      rw (protect_audit_event, same_envelope-sealed e, unsealed, sealed_complete e) refl

  admitted-sealed : (e : AuditEvent) → admitted e ≡ true → admitted (sealed e) ≡ true
  unfolding set_sealed
  admitted-sealed e h = h

  updated_row-sealed :
      (e : AuditEvent)
      → is_sealed e ≡ false
      → admitted e ≡ true
      → updated_row admitted (protect_audit_event same_json) (set_columns sealing_columns sealed) e
        ≡ ok (sealed e)
  unfolding updated_row
  updated_row-sealed e unsealed own =
      rw (updated_row, set_columns-sealed e, protect-sealed e unsealed, admitted-sealed e own) refl

  row_after-sealed :
      (e : AuditEvent)
      → row_after admitted
          (protect_audit_event same_json)
          (may_seal organization_id event_id)
          (set_columns sealing_columns sealed)
          e
        ≡ ok (if may_seal organization_id event_id e then sealed e else e)
  unfolding row_after
  row_after-sealed e = elim (Bool-cases (may_seal organization_id event_id e)) [
    | inr m ↦ elim (Bool-cases (admitted e)) [
      | inl a ↦ rw (row_after, a, m) refl
      | inr a ↦ rw (row_after, a, m) refl
    ]
    | inl m ↦
        let (unsealed, own) = may_seal-unsealed e m in
        rw (row_after, own, m, updated_row-sealed e unsealed own) refl
  ]

  update_rows-sealed :
      (es : List AuditEvent)
      → update_rows admitted
          (protect_audit_event same_json)
          (may_seal organization_id event_id)
          (set_columns sealing_columns sealed)
          es
        ≡ ok (update (may_seal organization_id event_id) sealed es)
  unfolding update_rows update
  update_rows-sealed [] = refl
  update_rows-sealed (e ∷ es) = rw (update_rows, row_after-sealed e, update_rows-sealed es) refl

  -- The `UPDATE` with which the sealing writes the metadata of an event does in a session of the worker
  -- for that tenant, under the grants, the row policy and the trigger, exactly what it does without
  -- them. The equality of jsonb is taken to hold of a value and itself.
  pub execute-sealed :
      (t : Tables)
      → execute same_json
          (session_of agentledger_worker organization_id)
          (update_events sealing_columns
            (may_seal organization_id event_id)
            (set_sealed hash block_id position))
          t
        ≡ record t {
          events =
              update
                (may_seal organization_id event_id)
                (set_sealed hash block_id position)
                t.events;
        }
  unfolding execute permitted
  execute-sealed t = rw (execute, permitted, update_rows-sealed t.events) refl
