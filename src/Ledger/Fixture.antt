-- ===== src/Ledger/Fixture.antt =====
-- The stream of `_fixture_gated` in lib/task_ledger.py, as records.
use ai_bobnet.Ledger.Requests.{Decision, Request, rejection, caller_actor_reason}
use ai_bobnet.Ledger.Registry.{
  agent, assignee_checks, valid_assignee, leads_of, team_lead, known_limits, team_delegation,
  decimal_digits, decimal_value, limit_value, limit, limits,
}
use ai_bobnet.Ledger.Decide.{
  World, write_body, completed_payload, roles, find_task, decide_step, decide_task, decide_start,
  decide_create, decide_kind, decide_authorized, decide_after, decide,
}
use ai_bobnet.Ledger.Display.{safe_display_text}
use ai_bobnet.Ledger.Deadlines.{valid_deadline}
use ai_bobnet.Base.{
  Option, expect, raise_if, slug, drop_prefix, alnum, map_values, starts_with, text_eq, is_token,
  is_uid, contains, insert, ℕ, Text, codes, List, [], ◌∷◌, ◌++◌, ◌≡◌, refl, ok, lookup, values,
  decimal, map,
}
use ai_bobnet.Json.{
  put, as_obj, as_str, is_null, is_str, value_eq, in_names, is_one, pos, Value, null, int, str, arr,
  obj, nil, Fields, end, field, get, has,
}
use ai_bobnet.Ledger.Types.{
  is_open_limit, Invalid, find_type, event_name, is_nonterminal, is_terminal, is_task_kind,
  event_type, is_run_id, is_task_id, is_closed, Checked, TaskState,
}
use ai_bobnet.Ledger.Envelope.{task_id_fits, route, project_of, shape, envelope}
use ai_bobnet.Ledger.Callers.{
  is_supervisor, requester_matches, is_intent_ref, is_ctl_ref, caller_matches, actor_matches,
}
use ai_bobnet.Ledger.Tasks.{
  text_field, start, stamp, service_report, reported_state, report_of, report, reassign, overdue,
  cancel, bad_reason, base_task, transition,
}
use ai_bobnet.Ledger.Fold.{
  start_run, sort_by_seq, reject, outcome_of, invalid, insert_by_seq, derived_state, derive_runs,
  derive_run, close_run, cascade, apply_kind, dispatch, settle, fold_events, request_run,
  create_task, change_task, fold_event, fold, Ledger,
}

abbrev pub fixture_run : Text
fixture_run = codes "r-aaaaaaaaaaaa"

abbrev pub fixture_task : Text
fixture_task = codes "t-aaaaaaaaaaaa"

-- the record around a payload
abbrev pub fixture_record : ℕ → Text → Value → Fields → Text → Text → Fields
fixture_record seq kind ident payload actor_type actor_id =
    field (codes "event_id") (str (codes "acme-tasks-" ++ decimal seq)) (
      field (codes "event_type") (str kind) (
        field (codes "occurred_at") (str (codes "2026-10-27T12:00:00Z")) (
          field (codes "actor_type") (str actor_type) (
            field (codes "actor_id") (str actor_id) (
              field (codes "project_uid") (str (codes "acme")) (
                field (codes "team_uid") (str (codes "acme-engine")) (
                  field (codes "run_id") (str fixture_run) (
                    field (codes "task_id") ident (
                      field (codes "attempt_id") null (
                        field (codes "correlation_id") (str fixture_run) (
                          field (codes "causation_id") (str (codes "fixture-" ++ decimal seq))
                            (field (codes "payload") (obj payload) end))))))))))))

abbrev pub root_payload : Fields → Fields
root_payload rest = field (codes "caller") (str (codes "root:root")) rest

abbrev pub human_payload : Text → Fields → Fields
human_payload via rest =
    root_payload (
      field (codes "via") (str via) (field (codes "requester") (str (codes "human:operator")) rest))

abbrev pub requested : Fields
requested =
    fixture_record 1 (codes "run.requested") null (human_payload (codes "ctl:1") end)
      (codes "human") (codes "operator")

abbrev pub created : Text → Fields
created gate =
    fixture_record 2 (codes "task.created") (str fixture_task)
      (human_payload (codes "ctl:2") (
        field (codes "parent") (str fixture_run) (
          field (codes "depth") (int (pos 1)) (
            field (codes "source_msg_id") (str (codes "msg-gate")) (
              field (codes "owner") (str (codes "human:operator")) (
                field (codes "assignee") (str (codes "acme-dev1")) (
                  field (codes "title") (str (codes "Gate")) (
                    field (codes "body_ref") (str (codes "msg:gate")) (
                      field (codes "deadline_at") (str (codes "2026-10-28T00:00:00Z")) (
                        field (codes "gate") (str gate)
                          (field (codes "context_refs") (arr nil) end)))))))))))
      (codes "human") (codes "operator")

abbrev pub started : Fields
started =
    fixture_record 3 (codes "task.started") (str fixture_task) (root_payload end) (codes "service")
      (codes "supervisor:acme-dev1")

abbrev pub reported : Fields
reported =
    fixture_record 4 (codes "task.reported") (str fixture_task)
      (root_payload (
        field (codes "via") (str (codes "intent:fixture-4")) (
          field (codes "state") (str (codes "done")) (
            field (codes "result_ref") (str (codes "msg:result"))
              (field (codes "reason") null end)))))
      (codes "agent") (codes "acme-dev1")

abbrev pub fixture : Text → List (ℕ × Fields)
fixture gate = (1, requested) ∷ (2, created gate) ∷ (3, started) ∷ (4, reported) ∷ []

abbrev states : Checked Ledger → List TaskState
states (ok l) = map (λ t. t.state) (values l.tasks)
states _ = []

-- `fold` with all that it calls, to run it.
unfoldable pub executed : Text → ℕ → List (ℕ × Fields) → List Invalid → Checked Ledger
unfolding fold fold_events fold_event envelope shape get text_eq event_type project_of is_token
    decimal route is_run_id starts_with is_uid task_id_fits is_task_kind dispatch settle
    caller_matches actor_matches contains insert lookup map_values values alnum drop_prefix slug has
    in_names is_one value_eq is_ctl_ref is_intent_ref requester_matches valid_deadline
    safe_display_text apply_kind cascade change_task close_run create_task derive_run derive_runs
    derived_state insert_by_seq invalid outcome_of reject request_run sort_by_seq start_run
    bad_reason base_task cancel overdue reassign report report_of reported_state service_report
    stamp start transition text_field is_terminal is_nonterminal is_closed is_task_id event_name
    find_type is_str is_null as_str as_obj is_supervisor raise_if expect
executed = fold

-- A report of `done` opens the review of a gated task.
fixture_gated : states (executed (codes "ok") 4 (fixture (codes "code")) []) ≡ TaskState.review ∷ []
unfolding executed
fixture_gated = refl

-- It ends a task without a gate.
fixture_ungated : states (executed (codes "ok") 4 (fixture (codes "none")) []) ≡ TaskState.done ∷ []
unfolding executed
fixture_ungated = refl

-- `decide` with all that it calls, to run it.
unfoldable pub judged : World → Request → Ledger → Fields → Option (List ℕ) → Checked Decision
unfolding decide decide_after decide_authorized decide_kind decide_create decide_start decide_task
    decide_step find_task limits limit limit_value decimal_value decimal_digits team_delegation
    known_limits team_lead leads_of valid_assignee assignee_checks agent roles completed_payload
    write_body caller_actor_reason rejection is_open_limit put
judged = decide
