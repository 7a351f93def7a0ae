-- ===== src/Audit/Append.antt =====
-- Appending an event (apps/audit/append.py), together with the job that will seal it. What Python reads
-- of an argument is an argument here: `str(value)` of the identifiers as a text, which `parse_uuid`
-- reads as `uuid.UUID` does, and `str.strip`. The event has Python's time `now`, the job the database's
-- `db_now`.
pub mod Stored
pub mod Seals
use Prim.Native.String.{count}
use agentledger_mvp_v.Base.{
  ℕ, String, Bool, true, false, not, ◌&&◌, ◌||◌, Option, none, some, List, [], ◌∷◌, ltb, ◌==◌,
  str_eq, if◌then◌else◌,
}
use agentledger_mvp_v.Base.Int.{pos}
use agentledger_mvp_v.Base.Json.{
  Json, Items, Fields, null, bool, int, float, str, arr, obj, nil, cons, end, field,
}
use agentledger_mvp_v.Base.Result.{Result, ok, err, ◌>>=◌, ◌>>◌, raise_if}
use agentledger_mvp_v.Jobs.Model.{BackgroundJob}
use agentledger_mvp_v.Jobs.Table.{rowcount}
use agentledger_mvp_v.Jobs.Queue.{Rows, enqueue_job}
use agentledger_mvp_v.Audit.Merkle.{Bytes, Primitives, canonical_json}
use agentledger_mvp_v.Audit.Texts.{uuid_text, utc_text}
use agentledger_mvp_v.Audit.Store.{AuditEvent, Tables}
use agentledger_mvp_v.Audit.Sealing.{Datetime, naive, aware, optional_uuid}

-- `AuditAppendError`, and what the database raises.
pub data AppendError : Type 0 where
  bad_uuid unsupported_type empty_entity_type long_entity_type : AppendError
  float_value not_object naive_time not_canonical : AppendError
  integrity_error not_enqueued : AppendError

-- `_validate_json_value`, without the path that the message names. Keys of a dictionary that comes from
-- JSON are texts.
unfoldable mutual
  pub _validate_json_value : Json → Result AppendError (Unit {0})
  _validate_json_value (float text) = err float_value
  _validate_json_value (obj fields) = validate_fields fields
  _validate_json_value (arr items) = validate_items items
  _validate_json_value _ = ok tt

  pub validate_items : Items → Result AppendError (Unit {0})
  validate_items nil = ok tt
  validate_items (cons v vs) = _validate_json_value v >> validate_items vs

  pub validate_fields : Fields → Result AppendError (Unit {0})
  validate_fields end = ok tt
  validate_fields (field key v rest) = _validate_json_value v >> validate_fields rest

unfoldable pub _validate_data : Json → Result AppendError Fields
unfolding _validate_json_value
_validate_data (obj fields) = _validate_json_value (obj fields) >> ok fields
_validate_data _ = err not_object

unfoldable pub _uuid_or_none : (String → Option ℕ) → Option String → Result AppendError (Option ℕ)
_uuid_or_none parse_uuid none = ok none
_uuid_or_none parse_uuid (some value) = elim (parse_uuid value) [
  | none ↦ err bad_uuid
  | some u ↦ ok (some u)
]

-- `isoformat(timespec="microseconds")` in UTC, with `Z` for the offset.
unfoldable pub iso_timestamp : Datetime → Result AppendError String
iso_timestamp (naive t) = err naive_time
iso_timestamp (aware t) = ok (utc_text t)

-- `AUDIT_EVENT_TYPES`
abbrev pub audit_event_types : List String
audit_event_types =
    "inventory.created" ∷ "inventory.changed" ∷ "discovery.completed" ∷ "reconciliation.accepted"
    ∷ "rule.created" ∷ "rule.changed" ∷ "assessment.completed" ∷ "report.generated"
    ∷ "connector.connected" ∷ "connector.disconnected" ∷ []

abbrev pub is_member : String → List String → Bool
is_member s [] = false
is_member s (t ∷ ts) = str_eq s t || is_member s ts

-- The `_event_envelope` of this module.
unfoldable pub appended_envelope :
    (organization_id event_id : ℕ)
    → Datetime
    → Option ℕ
    → (event_type entity_type : String) → Option ℕ
    → Fields
    → Result AppendError Fields
unfolding iso_timestamp
appended_envelope organization_id event_id occurred_at actor_user_id event_type entity_type
      entity_id value =
    iso_timestamp occurred_at >>= λ time. ok (
      field "schema_version" (int (pos 1)) (
        field "organization_id" (str (uuid_text organization_id)) (
          field "event_id" (str (uuid_text event_id)) (
            field "occurred_at" (str time) (
              field "actor_user_id" (optional_uuid actor_user_id) (
                field "event_type" (str event_type) (
                  field "entity_type" (str entity_type) (
                    field "entity_id" (optional_uuid entity_id)
                      (field "data" (obj value) end)))))))))

-- The audit tables and the job queue: what the transaction writes to.
abbrev pub World : Type 0
World = Tables × Rows

abbrev pub new_event :
    (event_id organization_id now : ℕ)
    → Option ℕ
    → (event_type entity_type : String) → Option ℕ
    → Fields
    → AuditEvent
new_event event_id organization_id now actor_user_id event_type entity_type entity_id value =
    record {
      id = event_id;
      organization_id = organization_id;
      occurred_at = now;
      actor_user_id = actor_user_id;
      event_type = event_type;
      entity_type = entity_type;
      entity_id = entity_id;
      event_data = obj value;
      node_hash = none;
      batch_block_id = none;
      batch_position = none;
    }

-- The body of the transaction: the row, whose key is new, and the job.
unfoldable pub append_body :
    AuditEvent → (job_id now : ℕ) → World → Result AppendError (AuditEvent × World)
append_body event job_id now (s, rows) =
    raise_if (not (rowcount (λ e. e.id == event.id) s.events == 0)) integrity_error >>= λ _.
    let (job, rows') =
      enqueue_job job_id now event.organization_id "audit_batch_seal" (obj end) (pos 100) rows in
    elim job [
      | err e ↦ err not_enqueued
      | ok j ↦
          ok (
            event,
            (record { events = event ∷ s.events; blocks = s.blocks; heads = s.heads }, rows'),
          )
    ]

-- The tests of the two types, of which the second is stripped.
unfoldable pub checked_types : (event_type entity_type : String) → Result AppendError (Unit {0})
checked_types event_type entity_type =
    raise_if (not (is_member event_type audit_event_types)) unsupported_type >>= λ _.
    raise_if (count entity_type == 0) empty_entity_type >>= λ _.
    raise_if (ltb 160 (count entity_type)) long_entity_type

-- The envelope is made and must have a canonical text; then the row is made.
unfoldable pub built_event :
    Primitives
    → (tenant event_id now : ℕ) → Option ℕ
    → (event_type entity_type : String) → Option ℕ
    → Fields
    → Result AppendError AuditEvent
unfolding appended_envelope
built_event c tenant event_id now actor event_type entity_type entity fields =
    appended_envelope tenant event_id (aware now) actor event_type entity_type entity fields
    >>= λ envelope. elim (canonical_json c (obj envelope)) [
      | err e ↦ err not_canonical
      | ok text ↦ ok (new_event event_id tenant now actor event_type entity_type entity fields)
    ]

module _ (c : Primitives) (parse_uuid : String → Option ℕ) (strip : String → String) where
  -- The event that the arguments make, or the refusal of one of them.
  unfoldable pub checked_event :
      (event_id now : ℕ) (organization_id event_type entity_type : String)
      → Json
      → (actor_user_id entity_id : Option String) → Result AppendError AuditEvent
  checked_event event_id now organization_id event_type entity_type value actor_user_id entity_id =
      elim (parse_uuid organization_id) [
        | none ↦ err bad_uuid
        | some tenant ↦ checked_types event_type (strip entity_type) >>= λ _.
            _uuid_or_none parse_uuid actor_user_id >>= λ actor.
            _uuid_or_none parse_uuid entity_id >>= λ entity. _validate_data value >>= λ fields.
            built_event c tenant event_id now actor event_type (strip entity_type) entity fields
      ]

  unfoldable pub append_audit_event :
      (event_id job_id now db_now : ℕ) (organization_id event_type entity_type : String)
      → Json
      → (actor_user_id entity_id : Option String) → World
      → Result AppendError AuditEvent × World
  unfolding checked_event append_body
  append_audit_event event_id job_id now db_now organization_id event_type entity_type value
        actor_user_id entity_id w =
      elim (checked_event event_id now organization_id event_type entity_type value actor_user_id
          entity_id
        >>= λ event. append_body event job_id db_now w) [
          | err e ↦ (err e, w)
          | ok (event, w') ↦ (ok event, w')
        ]
