-- ===== src/Audit/WriteTests.antt =====
-- Runs of the append and of the job that seals, and their theorems at concrete inputs.
use agentledger_mvp_v.Base.{ℕ, ◌≡◌, refl, suc, String, Option, none, some, [], ◌∷◌}
use agentledger_mvp_v.Base.Int.{pos}
use agentledger_mvp_v.Base.Json.{Json, Fields, obj, field, end, float, arr, cons, nil, str, int}
use agentledger_mvp_v.Base.Result.{ok, err}
use agentledger_mvp_v.Audit.Texts.{hex}
use agentledger_mvp_v.Jobs.Table.{rowcount}
use agentledger_mvp_v.Audit.Store.{AuditEvent, Tables}
use agentledger_mvp_v.Audit.Append.{
  World, append_audit_event, float_value, checked_types, _uuid_or_none, _validate_data, built_event,
}
use agentledger_mvp_v.Audit.Merkle.{canonical_json, Primitives}
use agentledger_mvp_v.Jobs.Queue.{enqueue_job, job_type_of}
use agentledger_mvp_v.Audit.SealJob.{audit_batch_seal_handler, execute_claimed_job-seals}
use agentledger_mvp_v.Jobs.Model.{BackgroundJob, audit_batch_seal, running}
use agentledger_mvp_v.Jobs.Queue.{ClaimedJob}
use agentledger_mvp_v.Jobs.Worker.{Environment, State, execute_claimed_job}
use agentledger_mvp_v.Base.{false, ◌+◌}
use agentledger_mvp_v.Audit.Sealing.{SealedAuditBlock, seal_tenant_audit_events}
use agentledger_mvp_v.Tenancy.{tenant_transaction}
use agentledger_mvp_v.Jobs.Worker.{statement}
use agentledger_mvp_v.Jobs.Queue.{heartbeat_job_with_fence, complete_job_with_fence}
use agentledger_mvp_v.Audit.Tests.{c, loads, jsonb_text, before}

abbrev anything : String → Option ℕ
anything _ = some 7

abbrev unstripped : String → String
unstripped s = s

abbrev nothing : World
nothing = (record { events = []; blocks = []; heads = [] }, [])

-- The data of a rule's event, and as the database gives it back.
abbrev rule_data : Json
rule_data = obj (field "source_rule_id" (str "r1") (field "version" (int (pos 2)) end))

abbrev stored_data : Fields
stored_data = field "version" (int (pos 2)) (field "source_rule_id" (str "r1") end)

abbrev jsonb_of : Json → String
jsonb_of (obj (field k (str s) (field l (int n) end))) =
    "{\"version\": 2, \"source_rule_id\": \"r1\"}"
jsonb_of _ = "{}"

abbrev loads_of : String → Option Json
loads_of text = some (obj stored_data)

-- A text that the number of keys determines.
abbrev fields_count : Fields → ℕ
fields_count end = 0
fields_count (field k v rest) = suc (fields_count rest)

abbrev size : Json → ℕ
size (obj fs) = fields_count fs
size _ = 0

abbrev counting : Primitives
counting = record {
  sha256 = c.sha256;
  dumps = λ v. some (size v ∷ []);
  sha256_length = c.sha256_length;
  sha256_bytes = c.sha256_bytes;
}

abbrev created : AuditEvent
created = record {
  id = 5;
  organization_id = 7;
  occurred_at = 1000;
  actor_user_id = none;
  event_type = "inventory.created";
  entity_type = "item";
  entity_id = none;
  event_data = rule_data;
  node_hash = none;
  batch_block_id = none;
  batch_position = none;
}

abbrev with_created : World
with_created =
    (append_audit_event counting anything unstripped 5 2 1000 1000 "7" "inventory.created" "item"
      rule_data none none nothing).1

-- A float in the data is refused.
float_refused :
    append_audit_event c anything unstripped 5 2 1000 1000 "7" "inventory.created" "item"
      (obj (field "cost" (arr (cons (float "1.5") nil)) end))
      none
      none
      nothing
    ≡ (err float_value, nothing)
unfolding append_audit_event checked_types _uuid_or_none _validate_data built_event canonical_json
    rowcount enqueue_job job_type_of
float_refused = refl

-- A seal job that worker "w" holds, and the job as it was claimed.
abbrev seal_row : BackgroundJob
seal_row = record {
  id = 2;
  organization_id = 7;
  job_type = audit_batch_seal;
  payload = obj end;
  status = running;
  priority = pos 100;
  attempts = 1;
  available_at = 0;
  locked_at = some 0;
  lock_expires_at = some 500;
  locked_by = some "w";
  claim_token = some 9;
  error_code = none;
  safe_error_summary = none;
  error_fingerprint = none;
  created_at = 0;
  completed_at = none;
}

abbrev seal_job : ClaimedJob
seal_job = record {
  id = 2;
  organization_id = 7;
  job_type = audit_batch_seal;
  payload = end;
  attempts = 1;
  claim_token = some 9;
}

abbrev alone : Environment
alone = record {
  loads = λ text. none;
  clock = λ n. 100 + n;
  uuid = λ n. n;
  locked = λ n id. false;
  others = λ n rows. rows;
}

abbrev at_start : State Tables
at_start = record { rows = seal_row ∷ []; step = 0; store = before }

abbrev at_end : State Tables
at_end =
    (execute_claimed_job alone "w" seal_job (audit_batch_seal_handler c loads jsonb_text 11)
      at_start).1

seal_job_run :
    execute_claimed_job alone "w" seal_job (audit_batch_seal_handler c loads jsonb_text 11) at_start
    ≡ (ok tt, at_end)
unfolding execute_claimed_job audit_batch_seal_handler tenant_transaction statement
    heartbeat_job_with_fence seal_tenant_audit_events hex complete_job_with_fence
seal_job_run = refl

execute_claimed_job-seals_example :
    ((seal_job.job_type ≡ audit_batch_seal) × (seal_job.payload ≡ end))
    × ((b : Option SealedAuditBlock) × (seal_tenant_audit_events c loads jsonb_text 7 11 1000 before
          ≡ (ok b, at_end.store)))
execute_claimed_job-seals_example =
    execute_claimed_job-seals c loads jsonb_text 11 alone "w" seal_job at_start at_end seal_job_run
