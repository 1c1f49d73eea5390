-- ===== src/Ledger/Decide.antt =====
-- `decide` of lib/task_ledger.py: whether a request may become an event. Inside, an exception
-- `raised reason` stands for `return rejection(request, reason)`.
use mathlib.Core.Option.{none}
use ai_bobnet.Base.{
  values, value_error, type_error, any, contains, ◌==◌, some, raised, ◌++◌, all, ◌||◌, starts_with,
  ok, err, true, ◌&&◌, codes, ltb, sum_of, count_of, lookup, not, false, map, leb, drop_prefix,
  text_eq, if◌then◌else◌, Option, expect, raise_if, List, Text, Bool, ℕ, [], ◌>>◌, ◌>>=◌, ◌∷◌,
  length,
}
use ai_bobnet.Json.{
  get_or, end, is_one, pos, int, field, as_str, in_names, obj, is_str, get, str, put, is_null,
  Value, Fields,
}
use ai_bobnet.Ledger.Types.{
  unsafe_body_sidecar, task_review_failed, open_tasks, task_review_passed, task_overdue,
  concurrent_update, is_failed, Reason, gate_not_available, task_reported, task_started, is_blocked,
  is_terminal, is_in_progress, engine_reasons, invalid_transition, run_closed_reason, duplicate,
  task_created, run_closed, task_cancelled, unsupported_event, is_assigned, unauthorized_reason,
  not_assignee, not_lead, is_closed, run_started, run_requested, task_reassigned, task_reopened,
  engine_reason, accepted, cross_team, is_open_limit, unknown_run, unauthorized, event_name,
  task_rejected, unknown_task, is_nonterminal, EventType, Task, Checked,
}
use ai_bobnet.Ledger.Fold.{open_in, Ledger}
use ai_bobnet.Ledger.Requests.{rejection, caller_actor_reason, Decision, Request}
use ai_bobnet.Ledger.Registry.{valid_assignee, team_lead, limits, agent, Limits}

-- The outside of `decide`: the Unicode digits that `int` reads, the file system that `_write_body`
-- creates the body in (whether the body is there at the end), and the clock (the time of a number
-- of seconds from now, as `isoformat` writes it).
pub record World : Type 0 where
  pub unicode_digit : ℕ → Option ℕ
  pub store_body : Text → List ℕ → Bool
  pub deadline_after : ℕ → Text

-- who asks: the local variables `is_human`, `is_gateway`, `is_lead`, `is_service`
pub record Roles : Type 0 where
  pub is_human : Bool
  pub is_gateway : Bool
  pub is_lead : Bool
  pub is_service : Bool

abbrev requester_is : Text → Value → Bool
requester_is prefix (str s) = starts_with prefix s
requester_is prefix _ = false

unfoldable pub roles : Request → Fields → Text → Roles
roles q payload lead_uid = record {
  is_human =
      text_eq q.actor_type (codes "human")
      && requester_is (codes "human:") (get (codes "requester") payload);
  is_gateway =
      text_eq q.actor_type (codes "human")
      && requester_is (codes "gateway:") (get (codes "requester") payload);
  is_lead = text_eq q.actor_type (codes "agent") && text_eq q.actor_id lead_uid;
  is_service = text_eq q.actor_type (codes "service");
}

-- `actor_id.removeprefix("supervisor:")`
unfoldable pub service_uid : Text → Text
service_uid actor_id = elim (drop_prefix (codes "supervisor:") actor_id) [
  | none ↦ actor_id
  | some rest ↦ rest
]

abbrev is_reason_char : ℕ → Bool
is_reason_char c = (leb b'a' c && leb c b'z') || c == b'_'

-- [a-z_]{1,64}
unfoldable pub is_reason_text : Text → Bool
is_reason_text s = leb 1 (length s) && (leb (length s) 64 && all is_reason_char s)

abbrev requestable : List Text
requestable = map event_name (
    run_requested ∷ run_started ∷ run_closed ∷ task_created ∷ task_started ∷ task_reported
    ∷ task_cancelled ∷ task_reassigned ∷ task_reopened ∷ task_overdue ∷ task_review_passed
    ∷ task_review_failed ∷ [])

abbrev in_team : Text → Option Fields → Bool
in_team team none = false
in_team team (some r) = is_str (get (codes "team_uid") r) team

-- an engine rejection, which is recorded as it is: its reason
unfoldable pub engine_rejection : Request → Fields → Fields → Roles → Checked Text
engine_rejection q registry payload who = do
  raise_if (not who.is_service) unauthorized
  raise_if (not (in_team q.team_uid (agent registry (service_uid q.actor_id)))) unauthorized
  known ← in_names (get (codes "requested_type") payload) requestable
  raise_if (not known) unauthorized
  reason ← expect (as_str (get (codes "reason") payload)) unauthorized
  raise_if (not (is_reason_text reason)) unauthorized
  ok reason

unfoldable pub decide_run_request : Request → Ledger → Roles → Checked (Unit {0})
decide_run_request q current who = do
  raise_if (not (who.is_human || who.is_gateway)) unauthorized
  raise_if (contains q.run_id current.runs) duplicate

unfoldable pub decide_run_close : Request → Ledger → Fields → Roles → Checked (Unit {0})
decide_run_close q current payload who = do
  run ← expect (lookup q.run_id current.runs) unknown_run
  raise_if (not (text_eq run.team_uid q.team_uid)) cross_team
  raise_if (is_closed run.state) run_closed_reason
  raise_if (not (who.is_human || who.is_lead)) not_lead
  raise_if
      (is_str (get (codes "outcome") payload) (codes "completed")
        && any (open_in q.run_id) (values current.tasks))
      open_tasks

-- the sums over the tasks
abbrev pub open_count : Text → List Task → ℕ
open_count team tasks = count_of (λ t. is_open_limit t.state && text_eq t.team_uid team) tasks

abbrev pub assignments_in : Text → List Task → ℕ
assignments_in run_id tasks =
    sum_of (λ t. if text_eq t.run_id run_id then t.assignments else 0) tasks

-- the same source and the same assignee, and not at an end
abbrev pub same_work : Value → Value → Task → Bool
same_work source assignee t =
    is_nonterminal t.state && (is_str source t.source_msg_id && is_str assignee t.assignee)

-- `_write_body`: the size, the NUL, and then the file system
unfoldable pub write_body : World → Text → List ℕ → Bool
write_body world ident body =
    if ltb 8192 (length body) || any (λ b. b == 0) body then false else world.store_body ident body

-- `None` in a format string
abbrev ident_text : Option Text → Text
ident_text none = codes "None"
ident_text (some ident) = ident

abbrev body_ok : World → Option Text → Option (List ℕ) → Bool
body_ok world ident none = false
body_ok world ident (some body) = write_body world (ident_text ident) body

abbrev has_task : Option Text → Ledger → Bool
has_task none current = false
has_task (some ident) current = contains ident current.tasks

-- the deadline and the budget that the engine fills in
unfoldable pub completed_payload : World → Limits → Fields → Fields
completed_payload world lim payload =
    let dated =
      if is_null (get (codes "deadline_at") payload)
      then put (codes "deadline_at") (str (world.deadline_after lim.task_deadline_s)) payload
      else payload in
    put (codes "budget")
      (obj (
        field (codes "max_turns") (int (pos lim.max_turns_per_task))
          (field (codes "max_attempts") (int (pos lim.max_assignments_per_task)) end)))
      dated

unfoldable pub decide_create :
    World → Request → Ledger → Fields → Limits → Fields → Roles → Option (List ℕ) → Checked Fields
decide_create world q current registry lim payload who body = do
  raise_if (not (who.is_human || who.is_lead)) not_lead
  run ← expect (lookup q.run_id current.runs) unknown_run
  raise_if (not (text_eq run.team_uid q.team_uid)) cross_team
  raise_if (is_closed run.state) run_closed_reason
  raise_if (has_task q.task_id current) duplicate
  raise_if (not (is_str (get (codes "gate") payload) (codes "none"))) gate_not_available
  raise_if (not (is_one (get (codes "depth") payload)) || ltb lim.max_depth 1) Reason.max_depth
  _ ← valid_assignee registry (get_or (codes "assignee") (str []) payload) q.team_uid
  raise_if
      (any (same_work (get (codes "source_msg_id") payload) (get (codes "assignee") payload))
        (values current.tasks))
      duplicate
  raise_if (leb lim.max_open (open_count q.team_uid (values current.tasks))) Reason.max_open
  raise_if (leb lim.max_tasks_per_run (assignments_in q.run_id (values current.tasks)))
      Reason.max_tasks_per_run
  raise_if (not (body_ok world q.task_id body)) unsafe_body_sidecar
  ok (completed_payload world lim payload)

unfoldable pub decide_start : Request → Task → Roles → Checked (Unit {0})
decide_start q t who = do
  raise_if (not (who.is_service && text_eq q.actor_id (codes "supervisor:" ++ t.assignee)))
      not_assignee
  raise_if (not (is_assigned t.state)) invalid_transition

-- `payload.get("reason") in ENGINE_REASONS`
unfoldable pub service_may_report : Request → Task → Fields → Roles → Checked Bool
service_may_report q t payload who =
    if who.is_service && text_eq q.actor_id (codes "supervisor:" ++ t.assignee)
    then (do
      closing ← in_names (get (codes "state") payload) (codes "failed" ∷ codes "blocked" ∷ [])
      if closing then in_names (get (codes "reason") payload) engine_reasons else ok false)
    else ok false

unfoldable pub decide_report : Request → Limits → Task → Fields → Roles → Checked (Unit {0})
decide_report q lim t payload who = do
  let agent_ok = text_eq q.actor_type (codes "agent") && text_eq q.actor_id t.assignee
  service_ok ← service_may_report q t payload who
  raise_if (not (agent_ok || service_ok))
      (if who.is_service then unauthorized_reason else not_assignee)
  raise_if (not (is_in_progress t.state)) invalid_transition
  raise_if
      (is_str (get (codes "state") payload) (codes "progress")
        && leb lim.max_turns_per_task t.turns)
      Reason.max_turns_per_task

unfoldable pub decide_cancel : Request → Task → Fields → Roles → Checked (Unit {0})
decide_cancel q t payload who = do
  let delivery =
      (who.is_service && text_eq q.actor_id (codes "supervisor:" ++ t.assignee))
      && (is_str (get (codes "reason") payload) (codes "delivery_failed") && is_assigned t.state)
  raise_if (not (who.is_human || (who.is_gateway || (who.is_lead || delivery)))) unauthorized
  raise_if (is_terminal t.state) invalid_transition

abbrev reopens : EventType → Bool
reopens task_reopened = true
reopens _ = false

unfoldable pub decide_reassign :
    Request → Ledger → Fields → Limits → Task → Fields → Roles → Checked (Unit {0})
decide_reassign q current registry lim t payload who = do
  raise_if (not (who.is_human || who.is_lead)) not_lead
  raise_if (not (is_blocked t.state || (reopens q.event_type && is_failed t.state)))
      invalid_transition
  _ ← valid_assignee registry (get_or (codes "assignee") (str []) payload) q.team_uid
  raise_if (leb lim.max_assignments_per_task t.assignments) Reason.max_assignments_per_task
  raise_if (leb lim.max_open (open_count q.team_uid (values current.tasks))) Reason.max_open
  raise_if (leb lim.max_tasks_per_run (assignments_in q.run_id (values current.tasks)))
      Reason.max_tasks_per_run

unfoldable pub decide_overdue : Request → Task → Text → Roles → Checked (Unit {0})
decide_overdue q t lead_uid who = do
  raise_if (not (who.is_service && text_eq q.actor_id (codes "supervisor:" ++ lead_uid))) not_lead
  raise_if (is_terminal t.state) invalid_transition

abbrev compares_seq : EventType → Bool
compares_seq task_reassigned = true
compares_seq task_reopened = true
compares_seq task_cancelled = true
compares_seq _ = false

-- `expected_seq is not None and task["state_seq"] != expected_seq`
abbrev pub seq_differs : Option ℕ → Option ℕ → Bool
seq_differs none state_seq = false
seq_differs (some n) none = true
seq_differs (some n) (some m) = not (m == n)

unfoldable pub find_task : Request → Ledger → Checked Task
find_task q current = do
  ident ← expect q.task_id unknown_task
  expect (lookup ident current.tasks) unknown_task

-- the branches on `kind` under the last `else`
unfoldable pub decide_step :
    EventType
    → Request
    → Ledger
    → Fields
    → Limits
    → Task
    → Fields
    → Text
    → Roles
    → Checked (Unit {0})
decide_step task_started q current registry lim t payload lead_uid who = decide_start q t who
decide_step task_reported q current registry lim t payload lead_uid who =
    decide_report q lim t payload who
decide_step task_cancelled q current registry lim t payload lead_uid who =
    decide_cancel q t payload who
decide_step task_reassigned q current registry lim t payload lead_uid who =
    decide_reassign q current registry lim t payload who
decide_step task_reopened q current registry lim t payload lead_uid who =
    decide_reassign q current registry lim t payload who
decide_step task_overdue q current registry lim t payload lead_uid who =
    decide_overdue q t lead_uid who
decide_step _ q current registry lim t payload lead_uid who = err (raised unsupported_event)

unfoldable pub decide_task :
    Request → Ledger → Fields → Limits → Fields → Text → Roles → Checked (Unit {0})
decide_task q current registry lim payload lead_uid who = do
  t ← find_task q current
  raise_if (not (text_eq t.run_id q.run_id)) unknown_task
  raise_if (not (text_eq t.team_uid q.team_uid)) cross_team
  run ← expect (lookup q.run_id current.runs) unknown_run
  raise_if (not (text_eq run.team_uid t.team_uid)) unknown_run
  raise_if (is_closed run.state) run_closed_reason
  raise_if
      (compares_seq q.event_type
        && ((who.is_human || (who.is_gateway || who.is_lead))
            && seq_differs q.expected_task_seq t.state_seq))
      concurrent_update
  decide_step q.event_type q current registry lim t payload lead_uid who

-- the payload of an accepted request, by kind
unfoldable pub decide_kind :
    EventType
    → World
    → Request
    → Ledger
    → Fields
    → Limits
    → Fields
    → Text
    → Roles
    → Option (List ℕ)
    → Checked Fields
decide_kind run_requested world q current registry lim payload lead_uid who body = do
  decide_run_request q current who
  ok payload
decide_kind run_closed world q current registry lim payload lead_uid who body = do
  decide_run_close q current payload who
  ok payload
decide_kind task_created world q current registry lim payload lead_uid who body =
    decide_create world q current registry lim payload who body
decide_kind _ world q current registry lim payload lead_uid who body = do
  decide_task q current registry lim payload lead_uid who
  ok payload

-- a reason is a rejection; any other exception leaves `decide`
abbrev pub settle_kind : Request → Checked Fields → Checked Decision
settle_kind q (ok payload) =
    ok (record { kind = q.event_type; payload = payload; is_accepted = true; reason = accepted })
settle_kind q (err (raised reason)) = ok (rejection q reason)
settle_kind q (err type_error) = err type_error
settle_kind q (err value_error) = err value_error

abbrev pub settle_engine : Request → Fields → Checked Text → Checked Decision
settle_engine q payload (ok reason) = ok (record {
  kind = task_rejected;
  payload = payload;
  is_accepted = false;
  reason = engine_reason reason;
})
settle_engine q payload (err (raised reason)) = ok (rejection q reason)
settle_engine q payload (err type_error) = err type_error
settle_engine q payload (err value_error) = err value_error

unfoldable pub decide_authorized :
    EventType
    → World
    → Request
    → Ledger
    → Fields
    → Limits
    → Fields
    → Text
    → Option (List ℕ)
    → Checked Decision
decide_authorized task_rejected world q current registry lim payload lead_uid body =
    settle_engine q payload (engine_rejection q registry payload (roles q payload lead_uid))
decide_authorized kind world q current registry lim payload lead_uid body =
    settle_kind q (
      decide_kind kind world q current registry lim payload lead_uid (roles q payload lead_uid)
        body)

-- after the check of the caller
unfoldable pub decide_after :
    World → Request → Ledger → Fields → Fields → Option (List ℕ) → Option Reason → Checked Decision
decide_after world q current registry payload body (some reason) = ok (rejection q reason)
decide_after world q current registry payload body none = do
  lim ← limits world.unicode_digit registry q.team_uid
  lead_uid ← team_lead registry q.team_uid
  decide_authorized q.event_type world q current registry lim payload lead_uid body

-- `decide`
unfoldable pub decide : World → Request → Ledger → Fields → Option (List ℕ) → Checked Decision
unfolding decide_after
decide world q current registry body =
    let payload = put (codes "caller") (str q.caller) q.payload in
    decide_after world q current registry payload body
      (caller_actor_reason q.caller q.actor_type q.actor_id payload)
