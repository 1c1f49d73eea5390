-- ===== src/Ledger/Tasks.antt =====
-- What the events of one task do to it: `_base_task` and the task branches of `fold` in
-- lib/task_ledger.py.
use ai_bobnet.Base.{
  ℕ, ◌+◌, Text, codes, text_eq, is_token, is_uid, Bool, true, false, not, ◌&&◌, ◌||◌, none, some,
  List, [], ◌∷◌, ◌++◌, any, length, ltb, ◌==◌, if◌then◌else◌, ok, err, raised, type_error, raise_if,
  ◌>>=◌, ◌>>◌,
}
use ai_bobnet.Json.{
  Value, null, str, arr, obj, nil, Fields, get, has, is_str, is_one, among, in_names,
}
use ai_bobnet.Ledger.Types.{
  Checked, Event, EventType, Task, TaskState, engine_reasons, invalid_assignee, invalid_cancel,
  invalid_cancel_actor, invalid_deadline_at, invalid_field, invalid_overdue, invalid_reason,
  invalid_reassignment, invalid_reassignment_actor, invalid_report, invalid_start,
  invalid_task_assignee_source, invalid_task_gate, invalid_task_identity, invalid_task_parent_depth,
  invalid_title, is_assigned, is_blocked, is_failed, is_in_progress, is_run_id, is_task_id,
  is_terminal, reserved_event, same_state, task_cancelled, task_overdue, task_reassigned,
  task_reopened, task_reported, task_review_failed, task_review_passed, task_started, unknown_event,
}
use ai_bobnet.Ledger.Display.{safe_display_text}
use ai_bobnet.Ledger.Deadlines.{valid_deadline}
use ai_bobnet.Ledger.Callers.{is_supervisor}

-- `_text`
unfoldable pub text_field : Text → Fields → Checked Text
text_field name r = elim (get name r) [
  | str s ↦
      if any (λ c. c == 0 || (c == 13 || c == 10)) s
      then err (raised (invalid_field name))
      else ok s
  | _ ↦ err (raised (invalid_field name))
]

abbrev gates : List Text
gates = codes "none" ∷ codes "code" ∷ codes "compliance" ∷ codes "gatekeeper" ∷ []

-- `_base_task`
unfoldable pub base_task : Text → Fields → Fields → Checked Task
base_task team r payload = do
  run_id ← text_field (codes "run_id") r
  ident ← text_field (codes "task_id") r
  raise_if (not (is_run_id run_id) || not (is_task_id ident)) invalid_task_identity
  let depth = get (codes "depth") payload
  raise_if (not (is_one depth) || not (is_str (get (codes "parent") payload) run_id))
      invalid_task_parent_depth
  assignee ← text_field (codes "assignee") payload
  source ← text_field (codes "source_msg_id") payload
  gate ← text_field (codes "gate") payload
  title ← text_field (codes "title") payload
  let deadline = get (codes "deadline_at") payload
  raise_if (not (is_uid assignee) || not (is_token source)) invalid_task_assignee_source
  raise_if (not (among gate gates)) invalid_task_gate
  raise_if (length title == 0 || (ltb 120 (length title) || not (safe_display_text title)))
      invalid_title
  raise_if (not (valid_deadline deadline)) invalid_deadline_at
  ok (record {
    task_id = ident;
    run_id = run_id;
    team_uid = team;
    parent = get (codes "parent") payload;
    depth = depth;
    source_msg_id = source;
    owner = get (codes "owner") payload;
    assignee = assignee;
    title = title;
    body_ref = get (codes "body_ref") payload;
    deadline_at = deadline;
    budget = get (codes "budget") payload;
    gate = gate;
    context_refs =
        if has (codes "context_refs") payload then get (codes "context_refs") payload else arr nil;
    state = TaskState.assigned;
    assignments = 1;
    attempts = 1;
    turns = 0;
    turns_total = 0;
    result_ref = null;
    last_reason = null;
    last_summary = [];
    created_at = get (codes "occurred_at") r;
    last_at = get (codes "occurred_at") r;
    created_seq = none;
    last_seq = none;
    state_seq = none;
  })

abbrev pub actor_type : Event → Value
actor_type e = get (codes "actor_type") e.fields

abbrev pub actor_id : Event → Value
actor_id e = get (codes "actor_id") e.fields

-- `actor_type == "service" and actor_id == f"supervisor:{assignee}"`
abbrev own_supervisor : Event → Task → Bool
own_supervisor e t =
    is_str (actor_type e) (codes "service")
    && is_str (actor_id e) (codes "supervisor:" ++ t.assignee)

-- `actor_type in {"human", "agent"}`; `_caller_matches` has made it a text by then
abbrev pub human_or_agent : Event → Bool
human_or_agent e = is_str (actor_type e) (codes "human") || is_str (actor_type e) (codes "agent")

abbrev bad_reason_text : Text → Bool
bad_reason_text s = ltb 512 (length s) || not (safe_display_text s)

-- `reason is not None and (…)`
unfoldable pub bad_reason : Value → Bool
bad_reason null = false
bad_reason (str s) = bad_reason_text s
bad_reason _ = true

unfoldable pub start : Event → Task → Checked Task
start e t = do
  raise_if (not (is_assigned t.state) || not (own_supervisor e t)) invalid_start
  ok (record t { state = TaskState.in_progress })

pub data Report : Type 0 where
  progress done failed blocked : Report

-- `report not in {…}`, and the key of the table of states
unfoldable pub report_of : Value → Checked Report
report_of (str s) =
    if text_eq s (codes "progress")
    then ok progress
    else if text_eq s (codes "done")
    then ok done
    else if text_eq s (codes "failed")
    then ok failed
    else if text_eq s (codes "blocked")
    then ok blocked
    else err (raised invalid_report)
report_of (arr _) = err type_error
report_of (obj _) = err type_error
report_of _ = err (raised invalid_report)

abbrev pub is_engine_reason : Value → Bool
is_engine_reason (str s) = among s engine_reasons
is_engine_reason _ = false

-- `service_ok`, whose tests stop at the first that fails
unfoldable pub service_report : Event → Task → Checked Bool
service_report e t =
    if own_supervisor e t
    then (do
      closing ← in_names (get (codes "state") e.payload) (codes "failed" ∷ codes "blocked" ∷ [])
      ok (closing && is_engine_reason (get (codes "reason") e.payload)))
    else ok false

-- the state after a report
unfoldable pub reported_state : Report → Task → TaskState
reported_state progress t = TaskState.in_progress
reported_state done t = if text_eq t.gate (codes "none") then TaskState.done else TaskState.review
reported_state failed t = TaskState.failed
reported_state blocked t = TaskState.blocked

abbrev pub progress_turns : Report → ℕ
progress_turns progress = 1
progress_turns _ = 0

unfoldable pub report : Event → Task → Checked Task
report e t = do
  let reason = get (codes "reason") e.payload
  raise_if (bad_reason reason) invalid_reason
  let actor_ok = is_str (actor_type e) (codes "agent") && is_str (actor_id e) t.assignee
  service_ok ← service_report e t
  raise_if (not (is_in_progress t.state) || not (actor_ok || service_ok)) invalid_report
  kind ← report_of (get (codes "state") e.payload)
  ok (record t {
    turns = t.turns + progress_turns kind;
    turns_total = t.turns_total + progress_turns kind;
    result_ref = get (codes "result_ref") e.payload;
    last_reason = reason;
    state = reported_state kind t;
  })

unfoldable pub cancel : Event → Task → Checked Task
cancel e t = do
  raise_if (is_terminal t.state) invalid_cancel
  let reason = get (codes "reason") e.payload
  raise_if (bad_reason reason) invalid_reason
  let delivery =
      own_supervisor e t && (is_str reason (codes "delivery_failed") && is_assigned t.state)
  raise_if (not (human_or_agent e) && not delivery) invalid_cancel_actor
  ok (record t { state = TaskState.cancelled; last_reason = reason })

abbrev pub is_reopened : EventType → Bool
is_reopened task_reopened = true
is_reopened _ = false

unfoldable pub reassign : Event → Task → Checked Task
reassign e t = do
  raise_if (not (human_or_agent e)) invalid_reassignment_actor
  raise_if (not (is_blocked t.state || (is_reopened e.kind && is_failed t.state)))
      invalid_reassignment
  assignee ← elim (get (codes "assignee") e.payload) [
    | str s ↦ if is_uid s then ok s else err (raised invalid_assignee)
    | _ ↦ err (raised invalid_assignee)
  ]
  ok (record t {
    assignee = assignee;
    assignments = t.assignments + 1;
    attempts = t.attempts + 1;
    turns = 0;
    state = TaskState.assigned;
  })

unfoldable pub overdue : Event → Task → Checked Task
overdue e t = do
  raise_if
      (is_terminal t.state
        || (not (is_str (actor_type e) (codes "service")) || not (is_supervisor (actor_id e))))
      invalid_overdue
  ok (record t { last_reason = str (codes "overdue") })

-- the branches on `kind`
unfoldable pub transition : EventType → Event → Task → Checked Task
transition task_started e t = start e t
transition task_reported e t = report e t
transition task_cancelled e t = cancel e t
transition task_reassigned e t = reassign e t
transition task_reopened e t = reassign e t
transition task_overdue e t = overdue e t
transition task_review_passed e t = err (raised reserved_event)
transition task_review_failed e t = err (raised reserved_event)
transition _ e t = err (raised unknown_event)

-- the lines after the branches: the sequence numbers and the time of the last change
unfoldable pub stamp : Event → Task → Task → Task
stamp e old t = record t {
  last_seq = some e.seq;
  last_at = get (codes "occurred_at") e.fields;
  state_seq =
      if same_state t.state old.state && text_eq t.assignee old.assignee
      then t.state_seq
      else some e.seq;
}
