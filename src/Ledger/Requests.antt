-- ===== src/Ledger/Requests.antt =====
-- The requests on the ledger, the outcome of a decision, and the names that rejections carry:
-- `decide` and `rejection` of lib/task_ledger.py.
use ai_bobnet.Ledger.Callers.{caller_matches}
use ai_bobnet.Base.{
  none, false, some, text_eq, not, if◌then◌else◌, ℕ, codes, Bool, Option, Text, [],
}
use ai_bobnet.Json.{end, str, field, Fields}
use ai_bobnet.Ledger.Types.{
  accepted, unsupported_event, max_assignments_per_task, max_turns_per_task, invalid_transition,
  unauthorized_reason, not_assignee, concurrent_update, unknown_task, unsafe_body_sidecar,
  max_tasks_per_run, max_open, invalid_assignee, unknown_assignee, max_depth, gate_not_available,
  open_tasks, not_lead, run_closed_reason, cross_team, unknown_run, duplicate, unauthorized,
  caller_actor_mismatch, event_name, caller_unauthorized, engine_reason, task_rejected, Reason,
  EventType,
}

-- The keys of `request`; `event_type` is one of EVENT_TYPES.
pub record Request : Type 0 where
  pub event_type : EventType
  pub payload : Fields
  pub actor_type : Text
  pub actor_id : Text
  pub caller : Text
  pub team_uid : Text
  pub run_id : Text
  pub task_id : Option Text
  pub causation_id : Text
  pub expected_task_seq : Option ℕ

-- the tuple that `decide` returns
pub record Decision : Type 0 where
  pub kind : EventType
  pub payload : Fields
  pub is_accepted : Bool
  pub reason : Reason

-- the text of a decision's reason
unfoldable pub reason_name : Reason → Text
reason_name caller_unauthorized = codes "caller_unauthorized"
reason_name caller_actor_mismatch = codes "caller_actor_mismatch"
reason_name unauthorized = codes "unauthorized"
reason_name duplicate = codes "duplicate"
reason_name unknown_run = codes "unknown_run"
reason_name cross_team = codes "cross_team"
reason_name run_closed_reason = codes "run_closed"
reason_name not_lead = codes "not_lead"
reason_name open_tasks = codes "open_tasks"
reason_name gate_not_available = codes "gate_not_available"
reason_name max_depth = codes "max_depth"
reason_name unknown_assignee = codes "unknown_assignee"
reason_name invalid_assignee = codes "invalid_assignee"
reason_name max_open = codes "max_open"
reason_name max_tasks_per_run = codes "max_tasks_per_run"
reason_name unsafe_body_sidecar = codes "unsafe_body_sidecar"
reason_name unknown_task = codes "unknown_task"
reason_name concurrent_update = codes "concurrent_update"
reason_name not_assignee = codes "not_assignee"
reason_name unauthorized_reason = codes "unauthorized_reason"
reason_name invalid_transition = codes "invalid_transition"
reason_name max_turns_per_task = codes "max_turns_per_task"
reason_name max_assignments_per_task = codes "max_assignments_per_task"
reason_name unsupported_event = codes "unsupported_event"
reason_name accepted = codes "accepted"
reason_name (engine_reason s) = s
reason_name _ = []

-- `rejection`
unfoldable pub rejection : Request → Reason → Decision
unfolding reason_name
rejection request reason = record {
  kind = task_rejected;
  payload = field (codes "caller") (str request.caller) (
      field (codes "requested_type") (str (event_name request.event_type)) (
        field (codes "reason") (str (reason_name reason))
          (field (codes "causation_id") (str request.causation_id) end)));
  is_accepted = false;
  reason = reason;
}

-- `caller_actor_reason`
unfoldable pub caller_actor_reason : Text → Text → Text → Fields → Option Reason
caller_actor_reason caller actor_type actor_id payload =
    if not (text_eq caller (codes "root:root"))
    then some caller_unauthorized
    else if caller_matches (str actor_type) (str actor_id) payload
    then none
    else some caller_actor_mismatch
