-- ===== src/Ledger/Types.antt =====
-- The constants and the records of lib/task_ledger.py.
use ai_bobnet.Base.{
  ℕ, Text, codes, text_eq, Bool, true, false, ◌&&◌, ◌||◌, Option, none, some, List, [], ◌∷◌, Dict,
  all, starts_with, drop_prefix, is_digit, leb, length, ◌==◌, if◌then◌else◌, Result,
}
use ai_bobnet.Json.{Value, Fields}

-- EVENT_TYPES
pub data EventType : Type 0 where
  run_requested run_started run_closed task_created task_started task_reported task_cancelled
        task_reassigned task_reopened task_overdue task_rejected task_review_passed
        task_review_failed :
      EventType

unfoldable pub event_name : EventType → Text
event_name run_requested = codes "run.requested"
event_name run_started = codes "run.started"
event_name run_closed = codes "run.closed"
event_name task_created = codes "task.created"
event_name task_started = codes "task.started"
event_name task_reported = codes "task.reported"
event_name task_cancelled = codes "task.cancelled"
event_name task_reassigned = codes "task.reassigned"
event_name task_reopened = codes "task.reopened"
event_name task_overdue = codes "task.overdue"
event_name task_rejected = codes "task.rejected"
event_name task_review_passed = codes "task.review_passed"
event_name task_review_failed = codes "task.review_failed"

abbrev pub event_types : List EventType
event_types =
    run_requested ∷ run_started ∷ run_closed ∷ task_created ∷ task_started ∷ task_reported
    ∷ task_cancelled ∷ task_reassigned ∷ task_reopened ∷ task_overdue ∷ task_rejected
    ∷ task_review_passed ∷ task_review_failed ∷ []

unfoldable pub find_type : Text → List EventType → Option EventType
find_type t [] = none
find_type t (k ∷ ks) = if text_eq (event_name k) t then some k else find_type t ks

-- `kind in EVENT_TYPES`, with the member
unfoldable pub event_type : Text → Option EventType
unfolding find_type event_name
event_type t = find_type t event_types

-- `kind.startswith("task.")`
unfoldable pub is_task_kind : EventType → Bool
unfolding event_name starts_with
is_task_kind k = starts_with (codes "task.") (event_name k)

-- the values of a task's `state`
pub data TaskState : Type 0 where
  queued assigned in_progress blocked review done failed cancelled : TaskState

-- TERMINAL
unfoldable pub is_terminal : TaskState → Bool
is_terminal done = true
is_terminal failed = true
is_terminal cancelled = true
is_terminal _ = false

-- NONTERMINAL
unfoldable pub is_nonterminal : TaskState → Bool
is_nonterminal queued = true
is_nonterminal assigned = true
is_nonterminal in_progress = true
is_nonterminal blocked = true
is_nonterminal review = true
is_nonterminal _ = false

-- OPEN_LIMIT
unfoldable pub is_open_limit : TaskState → Bool
is_open_limit queued = true
is_open_limit assigned = true
is_open_limit _ = false

-- `state == "…"`
abbrev pub is_assigned : TaskState → Bool
is_assigned assigned = true
is_assigned _ = false

abbrev pub is_in_progress : TaskState → Bool
is_in_progress in_progress = true
is_in_progress _ = false

abbrev pub is_blocked : TaskState → Bool
is_blocked blocked = true
is_blocked _ = false

abbrev pub is_failed : TaskState → Bool
is_failed failed = true
is_failed _ = false

-- `state == other`
abbrev pub state_code : TaskState → ℕ
state_code queued = 0
state_code assigned = 1
state_code in_progress = 2
state_code blocked = 3
state_code review = 4
state_code done = 5
state_code failed = 6
state_code cancelled = 7

abbrev pub same_state : TaskState → TaskState → Bool
same_state a b = state_code a == state_code b

pub data RunOutcome : Type 0 where
  completed failed cancelled : RunOutcome

pub data RunState : Type 0 where
  queued running blocked : RunState
  -- `outcome.upper()`
  closed : RunOutcome → RunState

-- CLOSED_RUN
unfoldable pub is_closed : RunState → Bool
is_closed (closed _) = true
is_closed _ = false

abbrev pub is_queued : RunState → Bool
is_queued RunState.queued = true
is_queued _ = false

-- ENGINE_REASONS
abbrev pub engine_reasons : List Text
engine_reasons = codes "turn_failed" ∷ codes "turn_budget" ∷ codes "no_report" ∷ []

-- the reasons of LedgerError and of rejections
pub data Reason : Type 0 where
  invalid_utf8 invalid_json invalid_shape invalid_envelope_identity invalid_rejection
        caller_actor_mismatch invalid_run_request invalid_run_start invalid_run_start_actor
        invalid_run_close invalid_run_close_actor invalid_run_outcome open_tasks invalid_task_create
        cross_team run_closed_reason invalid_creator unknown_task invalid_task_run invalid_start
        invalid_reason invalid_report invalid_cancel invalid_cancel_actor invalid_reassignment_actor
        invalid_reassignment invalid_assignee invalid_overdue reserved_event unknown_event
        invalid_task_identity invalid_task_parent_depth invalid_task_assignee_source
        invalid_task_gate invalid_title invalid_deadline_at :
      Reason
  -- `_text`: "invalid <name>"
  invalid_field : Text → Reason
  -- limits and registry
  unknown_team invalid_delegation_limits invalid_max_depth : Reason
  invalid_limit : Text → Reason
  wrong_schema_version unknown_project team_project_mismatch invalid_agents_registry
        not_exactly_one_lead :
      Reason
  -- decisions
  caller_unauthorized unauthorized duplicate unknown_run not_lead gate_not_available max_depth
        unknown_assignee max_open max_tasks_per_run unsafe_body_sidecar concurrent_update
        not_assignee unauthorized_reason invalid_transition max_turns_per_task
        max_assignments_per_task unsupported_event accepted :
      Reason
  -- the free text of an engine rejection
  engine_reason : Text → Reason

abbrev pub Checked : Type 0 → Type 0
Checked A = Result Reason A

pub record Run : Type 0 where
  pub run_id : Text
  pub team_uid : Text
  pub state : RunState
  pub created_seq : ℕ
  pub outcome : Option RunOutcome
  pub created_at : Value
  pub last_at : Value

pub record Task : Type 0 where
  pub task_id : Text
  pub run_id : Text
  pub team_uid : Text
  pub parent : Value
  pub depth : Value
  pub source_msg_id : Text
  pub owner : Value
  pub assignee : Text
  pub title : Text
  pub body_ref : Value
  pub deadline_at : Value
  pub budget : Value
  pub gate : Text
  pub context_refs : Value
  pub state : TaskState
  pub assignments : ℕ
  pub attempts : ℕ
  pub turns : ℕ
  pub turns_total : ℕ
  pub result_ref : Value
  pub last_reason : Value
  pub last_summary : Text
  pub created_at : Value
  pub last_at : Value
  pub created_seq : Option ℕ
  pub last_seq : Option ℕ
  pub state_seq : Option ℕ

pub record Rejection : Type 0 where
  pub seq : ℕ
  pub team_uid : Text
  pub task_id : Value
  pub run_id : Text
  pub requested_type : Text
  pub reason : Text

pub record Invalid : Type 0 where
  pub seq : ℕ
  pub reason : Reason

-- the local variables of `fold`
pub record State : Type 0 where
  pub runs : Dict Run
  pub tasks : Dict Task
  pub rejections : List Rejection
  pub invalid_events : List Invalid
  pub stream_project : Option Text

-- An event whose envelope has passed: `record` and `payload` are the JSON objects.
pub record Event : Type 0 where
  pub seq : ℕ
  pub kind : EventType
  pub project : Text
  pub run_id : Text
  pub task_id : Value
  pub team_uid : Text
  pub fields : Fields
  pub payload : Fields

-- [0-9a-f]
abbrev is_hex : ℕ → Bool
is_hex c = is_digit c || (leb b'a' c && leb c b'f')

-- a prefix and twelve hexadecimal digits
abbrev hex_id : Text → Text → Bool
hex_id prefix s = elim (drop_prefix prefix s) [
  | none ↦ false
  | some rest ↦ (length rest == 12) && all is_hex rest
]

-- RUN_RE
unfoldable pub is_run_id : Text → Bool
unfolding drop_prefix
is_run_id s = hex_id (codes "r-") s

-- TASK_RE
unfoldable pub is_task_id : Text → Bool
unfolding drop_prefix
is_task_id s = hex_id (codes "t-") s
