-- ===== src/Audit/SecurityTests.antt =====
-- The database's protection of the audit tables, at concrete statements.
use agentledger_mvp_v.Base.{
  ℕ, ◌≡◌, refl, Bool, true, false, none, List, [], ◌∷◌, String, str_eq, str_eq_iff, ◌∙◌, suc,
}
use Prim.Native.String.{◌++◌}
use agentledger_mvp_v.Base.Int.{pos, negsuc}
use agentledger_mvp_v.Audit.Texts.{padded}
use agentledger_mvp_v.Base.Json.{
  Json, null, bool, int, float, str, arr, obj, end, field, Items, Fields, nil, cons,
}
use agentledger_mvp_v.Jobs.Table.{update}
use agentledger_mvp_v.Audit.Store.{AuditEvent, Tables}
use agentledger_mvp_v.Audit.Sealing.{may_seal, is_unsealed, set_sealed}
use agentledger_mvp_v.Audit.Security.{
  agentledger_owner, agentledger_app, agentledger_worker, Session, Statement, insert_event,
  update_events, delete_events, permitted, execute, run_history, admits, insert_row, event_type,
  update_rows, row_after, updated_row, protect_audit_event, delete_protected, same_envelope,
  is_sealed, is_incomplete, set_columns,
}
use agentledger_mvp_v.Audit.Security.Kept.{IsEquality, TablesKept, run_history-TablesKept}
use agentledger_mvp_v.Audit.Security.Isolated.{IsTenantOnly, execute-IsTenantOnly}
use agentledger_mvp_v.Audit.Security.Sealing.{sealing_columns, session_of, execute-sealed}

-- An equality of jsonb for these runs: two values are the same when they are printed alike, a whole number
-- as a float.
unfoldable mutual
  pub printed : Json → String
  printed null = "null"
  printed (bool true) = "true"
  printed (bool false) = "false"
  printed (int (pos n)) = padded 10 9 n ++ ".0"
  printed (int (negsuc n)) = "-" ++ (padded 10 9 (suc n) ++ ".0")
  printed (float text) = text
  printed (str s) = "\"" ++ (s ++ "\"")
  printed (arr vs) = "[" ++ printed_items vs
  printed (obj fs) = "{" ++ printed_fields fs

  pub printed_items : Items → String
  printed_items nil = "]"
  printed_items (cons v vs) = printed v ++ ("," ++ printed_items vs)

  pub printed_fields : Fields → String
  printed_fields end = "}"
  printed_fields (field k v rest) = k ++ (":" ++ (printed v ++ ("," ++ printed_fields rest)))

abbrev pub same_printed : Json → Json → Bool
same_printed a b = str_eq (printed a) (printed b)

same_printed-IsEquality : IsEquality same_printed
same_printed-IsEquality = record {
  refl_at = λ v. (str_eq_iff (printed v) (printed v)).1 refl;
  trans_at = λ u v w a b.
      (str_eq_iff (printed u) (printed w)).1
        ((str_eq_iff (printed u) (printed v)).0 a ∙ (str_eq_iff (printed v) (printed w)).0 b);
}

abbrev pub event : ℕ → AuditEvent
event n = record {
  id = n;
  organization_id = 7;
  occurred_at = 100;
  actor_user_id = none;
  event_type = "inventory.created";
  entity_type = "item";
  entity_id = none;
  event_data = obj end;
  node_hash = none;
  batch_block_id = none;
  batch_position = none;
}

abbrev pub tables : Tables
tables = record { events = event 1 ∷ []; blocks = []; heads = [] }

-- The application appends, the worker seals, and the owner tries to change and to delete.
abbrev pub history : List (Session × Statement)
history =
    (session_of agentledger_app 7, insert_event (event 2))
    ∷ (
      session_of agentledger_worker 7,
      update_events sealing_columns (may_seal 7 1) (set_sealed "ab" 5 0),
    )
    ∷ (
      session_of agentledger_owner 7,
      update_events (event_type ∷ []) (λ e. true)
          (λ e. record e { event_type = "report.generated" }),
    )
    ∷ (session_of agentledger_owner 7, delete_events (λ e. true))
    ∷ []

history_run :
    run_history same_printed history tables
    ≡ record tables { events = event 2 ∷ set_sealed "ab" 5 0 (event 1) ∷ [] }
unfolding run_history execute permitted admits insert_row update_rows row_after updated_row
    protect_audit_event same_envelope is_sealed is_incomplete set_columns set_sealed is_unsealed
    delete_protected printed
history_run = refl

run_history-TablesKept_example :
    TablesKept same_printed tables (run_history same_printed history tables)
run_history-TablesKept_example =
    run_history-TablesKept same_printed same_printed-IsEquality history tables

-- The worker of another tenant does not see the event.
execute-IsTenantOnly_example : IsTenantOnly (session_of agentledger_worker 8) tables (
    execute same_printed
      (session_of agentledger_worker 8)
      (update_events sealing_columns (λ e. true) (set_sealed "ab" 5 0))
      tables)
execute-IsTenantOnly_example =
    execute-IsTenantOnly same_printed (session_of agentledger_worker 8) refl
      (update_events sealing_columns (λ e. true) (set_sealed "ab" 5 0)) tables

execute-sealed_example :
    execute
      (λ a b. true)
      (session_of agentledger_worker 7)
      (update_events sealing_columns (may_seal 7 1) (set_sealed "ab" 5 0))
      tables
    ≡ record tables { events = update (may_seal 7 1) (set_sealed "ab" 5 0) tables.events }
execute-sealed_example = execute-sealed (λ a b. true) (λ v. refl) 7 1 5 0 "ab" tables
