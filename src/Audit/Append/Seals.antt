-- ===== src/Audit/Append/Seals.antt =====
-- An event that was appended waits to be sealed, can be sealed, and has a job that will do it.
use agentledger_mvp_v.Base.{◌≡◌, String, true, Option, ◌∷◌, arith, inl, inr, ◌==◌}
use agentledger_mvp_v.Base.Json.{
  Json, Items, Fields, null, bool, int, float, str, arr, obj, nil, cons, end, field,
}
use agentledger_mvp_v.Base.Result.{Result, ok, Result-cases}
use agentledger_mvp_v.Jobs.Model.{BackgroundJob, audit_batch_seal, queued}
use agentledger_mvp_v.Jobs.Table.{rowcount}
use agentledger_mvp_v.Audit.Merkle.{Bytes, Primitives, hash_leaf}
use agentledger_mvp_v.Audit.Store.{AuditEvent}
use agentledger_mvp_v.Audit.Sealing.{_event_envelope, is_unsealed}
use agentledger_mvp_v.Audit.Append.{_validate_json_value, validate_items, validate_fields, World}

-- A JSON value in which no float stands, at any depth.
unfoldable mutual
  pub NoFloat : Json → Type 0
  NoFloat (float text) = ⊥
  NoFloat (arr items) = NoFloatItems items
  NoFloat (obj fields) = NoFloatFields fields
  NoFloat _ = Unit

  pub NoFloatItems : Items → Type 0
  NoFloatItems nil = Unit
  NoFloatItems (cons v vs) = NoFloat v × NoFloatItems vs

  pub NoFloatFields : Fields → Type 0
  NoFloatFields end = Unit
  NoFloatFields (field key v rest) = NoFloat v × NoFloatFields rest

mutual
  unfolding _validate_json_value NoFloat

  _validate_json_value-NoFloat : (v : Json) → _validate_json_value v ≡ ok tt → NoFloat v
  _validate_json_value-NoFloat null h = tt
  _validate_json_value-NoFloat (bool b) h = tt
  _validate_json_value-NoFloat (int n) h = tt
  _validate_json_value-NoFloat (float text) h = absurd (cc)
  _validate_json_value-NoFloat (str s) h = tt
  _validate_json_value-NoFloat (arr items) h = validate_items-NoFloat items h
  _validate_json_value-NoFloat (obj fields) h = validate_fields-NoFloat fields h

  validate_items-NoFloat : (vs : Items) → validate_items vs ≡ ok tt → NoFloatItems vs
  validate_items-NoFloat nil h = tt
  validate_items-NoFloat (cons v vs) h = elim (Result-cases (_validate_json_value v)) [
    | inl (x, q) ↦ (_validate_json_value-NoFloat v q, validate_items-NoFloat vs (rw q at h))
    | inr (x, q) ↦ absurd (ground arith)
  ]

  validate_fields-NoFloat : (fs : Fields) → validate_fields fs ≡ ok tt → NoFloatFields fs
  validate_fields-NoFloat end h = tt
  validate_fields-NoFloat (field key v rest) h = elim (Result-cases (_validate_json_value v)) [
    | inl (x, q) ↦ (_validate_json_value-NoFloat v q, validate_fields-NoFloat rest (rw q at h))
    | inr (x, q) ↦ absurd (ground arith)
  ]

-- An event that a sealing can take: its data has no float, it waits, and the sealing makes the envelope and the
-- leaf hash of it.
pub record IsSealable (c : Primitives) (loads : String → Option Json) (jsonb_text : Json → String)
    (e : AuditEvent) : Type 0 where
  pub no_float : NoFloat e.event_data
  pub waits : is_unsealed e.organization_id e ≡ true
  pub envelope : Fields
  pub has_envelope : _event_envelope loads e (str (jsonb_text e.event_data)) ≡ ok envelope
  pub leaf : Bytes
  pub has_leaf : hash_leaf c envelope ≡ ok leaf

-- What an append that returned has done: the event is the newest of the table, waits to be sealed and can be, and
-- a job that seals the tenant's events is queued.
pub record Appended (c : Primitives) (loads : String → Option Json) (jsonb_text : Json → String)
    (value : Json) (w w' : World) (e : AuditEvent) : Type 0 where
  pub sealable : IsSealable c loads jsonb_text e
  pub keeps_data : e.event_data ≡ value
  pub stored : w'.0.events ≡ e ∷ w.0.events
  pub was_new : rowcount (λ x. x.id == e.id) w.0.events ≡ 0
  pub job : BackgroundJob
  pub enqueued : w'.1 ≡ job ∷ w.1
  pub job_seals :
      (job.job_type ≡ audit_batch_seal)
      × ((job.status ≡ queued) × (job.organization_id ≡ e.organization_id))
