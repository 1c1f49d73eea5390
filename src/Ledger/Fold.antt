-- ===== src/Ledger/Fold.antt =====
-- The loop of `fold` in lib/task_ledger.py, one event at a time, and the states of the runs that
-- it derives at the end.
use ai_bobnet.Base.{
  Option, ℕ, Text, codes, text_eq, Bool, true, false, not, ◌&&◌, ◌||◌, none, some, List, [], ◌∷◌,
  ◌++◌, any, all, select, length, leb, ◌==◌, Dict, lookup, contains, insert, values, map_values,
  if◌then◌else◌, ok, err, raised, type_error, value_error, raise_if, expect, ◌>>=◌, ◌>>◌,
}
use ai_bobnet.Json.{Value, str, arr, obj, Fields, get, is_str, as_str, value_eq}
use ai_bobnet.Ledger.Types.{
  EventType, run_requested, run_started, run_closed, task_created, task_rejected, is_nonterminal,
  is_blocked, TaskState, RunOutcome, completed, RunState, running, is_closed, is_queued, Reason,
  invalid_rejection, caller_actor_mismatch, invalid_run_request, invalid_run_start, cross_team,
  invalid_run_start_actor, invalid_run_close, invalid_run_close_actor, invalid_run_outcome,
  open_tasks, invalid_task_create, run_closed_reason, invalid_creator, unknown_task,
  invalid_task_run, Checked, Run, Task, Rejection, Invalid, State, Event,
}
use ai_bobnet.Ledger.Callers.{caller_matches}
use ai_bobnet.Ledger.Envelope.{envelope}
use ai_bobnet.Ledger.Tasks.{base_task, actor_type, actor_id, human_or_agent, transition, stamp}

abbrev pub empty_state : List Invalid → State
empty_state invalid_records = record {
  runs = [];
  tasks = [];
  rejections = [];
  invalid_events = invalid_records;
  stream_project = none;
}

-- the local function `invalid`
unfoldable pub invalid : ℕ → Reason → State → State
invalid seq reason s = record s {
  invalid_events = s.invalid_events ++ record { seq = seq; reason = reason } ∷ [];
}

unfoldable pub reject : State → Event → State
reject s e = elim (get (codes "reason") e.payload) [
  | str reason ↦ elim (get (codes "requested_type") e.payload) [
    | str requested ↦
        if is_str (get (codes "caller") e.payload) (codes "root:root")
        then record s {
          rejections =
              s.rejections
              ++ record {
                seq = e.seq;
                team_uid = e.team_uid;
                task_id = e.task_id;
                run_id = e.run_id;
                requested_type = requested;
                reason = reason;
              }
                ∷ [];
        }
        else invalid e.seq invalid_rejection s
    | _ ↦ invalid e.seq invalid_rejection s
  ]
  | _ ↦ invalid e.seq invalid_rejection s
]

unfoldable pub request_run : State → Event → Checked State
request_run s e = do
  raise_if (contains e.run_id s.runs || not (is_str (actor_type e) (codes "human")))
      invalid_run_request
  ok (record s {
    runs =
        insert e.run_id
          (record {
            run_id = e.run_id;
            team_uid = e.team_uid;
            state = RunState.queued;
            created_seq = e.seq;
            outcome = none;
            created_at = get (codes "occurred_at") e.fields;
            last_at = get (codes "occurred_at") e.fields;
          })
          s.runs;
  })

unfoldable pub start_run : State → Event → Checked State
start_run s e = do
  run ← expect (lookup e.run_id s.runs) invalid_run_start
  raise_if (not (is_queued run.state)) invalid_run_start
  raise_if (not (text_eq run.team_uid e.team_uid)) cross_team
  raise_if (not (is_str (actor_type e) (codes "service"))) invalid_run_start_actor
  ok (record s { runs = insert e.run_id (record run { state = running }) s.runs })

-- `outcome not in {…}`
unfoldable pub outcome_of : Value → Checked RunOutcome
outcome_of (str t) =
    if text_eq t (codes "completed")
    then ok completed
    else if text_eq t (codes "failed")
    then ok RunOutcome.failed
    else if text_eq t (codes "cancelled")
    then ok RunOutcome.cancelled
    else err (raised invalid_run_outcome)
outcome_of (arr _) = err type_error
outcome_of (obj _) = err type_error
outcome_of _ = err (raised invalid_run_outcome)

abbrev is_completed : RunOutcome → Bool
is_completed completed = true
is_completed _ = false

-- a task of the run that is not at an end
abbrev pub open_in : Text → Task → Bool
open_in run_id t = text_eq t.run_id run_id && is_nonterminal t.state

-- the body of `for task in open_tasks`, for every task
unfoldable pub cascade : Text → ℕ → Task → Task
cascade run_id seq t =
    if open_in run_id t
    then record t {
      state = TaskState.cancelled;
      last_reason = str (codes "run_closed");
      last_seq = some seq;
      state_seq = some seq;
    }
    else t

unfoldable pub close_run : State → Event → Checked State
close_run s e = do
  run ← expect (lookup e.run_id s.runs) invalid_run_close
  raise_if (is_closed run.state) invalid_run_close
  raise_if (not (text_eq run.team_uid e.team_uid)) cross_team
  raise_if (not (human_or_agent e)) invalid_run_close_actor
  outcome ← outcome_of (get (codes "outcome") e.payload)
  raise_if (any (open_in e.run_id) (values s.tasks) && is_completed outcome) open_tasks
  ok (record s {
    tasks = map_values (cascade e.run_id e.seq) s.tasks;
    runs =
        insert e.run_id
          (record run {
            state = RunState.closed outcome;
            outcome = some outcome;
            last_at = get (codes "occurred_at") e.fields;
          })
          s.runs;
  })

-- a run that is queued runs once it has a task
abbrev pub wake : Run → Run
wake run = if is_queued run.state then record run { state = running } else run

abbrev is_agent : Event → Bool
is_agent e = is_str (actor_type e) (codes "agent")

unfoldable pub create_task : State → Event → Checked State
create_task s e = do
  run ← expect (lookup e.run_id s.runs) invalid_task_create
  ident ← expect (as_str e.task_id) invalid_task_create
  raise_if (contains ident s.tasks) invalid_task_create
  raise_if (not (text_eq run.team_uid e.team_uid)) cross_team
  raise_if (is_closed run.state) run_closed_reason
  task ← base_task e.team_uid e.fields e.payload
  raise_if (is_agent e && not (value_eq (actor_id e) task.owner)) invalid_creator
  raise_if (not (human_or_agent e)) invalid_creator
  ok (record s {
    tasks =
        insert ident
          (record task { created_seq = some e.seq; last_seq = some e.seq; state_seq = some e.seq })
          s.tasks;
    runs = insert e.run_id (wake run) s.runs;
  })

-- the last branch: an event of a task that exists
unfoldable pub change_task : State → Event → Checked State
change_task s e = do
  ident ← expect (as_str e.task_id) unknown_task
  task ← expect (lookup ident s.tasks) unknown_task
  raise_if (not (text_eq task.run_id e.run_id)) unknown_task
  raise_if (not (text_eq task.team_uid e.team_uid)) cross_team
  run ← expect (lookup e.run_id s.runs) invalid_task_run
  raise_if (not (text_eq run.team_uid task.team_uid)) invalid_task_run
  raise_if (is_closed run.state) run_closed_reason
  changed ← transition e.kind e task
  ok (record s { tasks = insert ident (stamp e task changed) s.tasks })

unfoldable pub apply_kind : EventType → State → Event → Checked State
apply_kind run_requested s e = request_run s e
apply_kind run_started s e = start_run s e
apply_kind run_closed s e = close_run s e
apply_kind task_created s e = create_task s e
apply_kind _ s e = change_task s e

-- `except LedgerError`: nothing has been written yet where one is raised
unfoldable pub settle : State → ℕ → Checked State → Checked State
settle s seq (ok s') = ok s'
settle s seq (err (raised reason)) = ok (invalid seq reason s)
settle s seq (err type_error) = err type_error
settle s seq (err value_error) = err value_error

-- an event whose envelope has passed, by its kind
unfoldable pub dispatch : EventType → State → Event → Checked State
dispatch task_rejected s e = ok (reject s e)
dispatch kind s e =
    if caller_matches (actor_type e) (actor_id e) e.payload
    then settle s e.seq (apply_kind kind s e)
    else ok (invalid e.seq caller_actor_mismatch s)

-- one turn of the loop, with the outcome of the envelope's checks
unfoldable pub fold_checked : State → ℕ → Option Text × Checked Event → Checked State
fold_checked s seq (stream, ok e) = dispatch e.kind (record s { stream_project = stream }) e
fold_checked s seq (stream, err e) = settle (record s { stream_project = stream }) seq (err e)

unfoldable pub fold_event : State → ℕ → Fields → Checked State
unfolding fold_checked
fold_event s seq r = fold_checked s seq (envelope s.stream_project seq r)

unfoldable pub fold_events : State → List (ℕ × Fields) → Checked State
fold_events s [] = ok s
fold_events s ((seq, r) ∷ rest) = do s' ← fold_event s seq r; fold_events s' rest

-- the state of an open run, from its tasks
unfoldable pub derived_state : List Task → RunState
derived_state children =
    let active = select (λ t. is_nonterminal t.state) children in
    if not (length active == 0) && all (λ t. is_blocked t.state) active
    then RunState.blocked
    else if length children == 0
    then RunState.queued
    else running

abbrev pub children_of : Text → List Task → List Task
children_of run_id tasks = select (λ t. text_eq t.run_id run_id) tasks

unfoldable pub derive_run : List Task → Text → Run → Run
derive_run tasks run_id run =
    if is_closed run.state
    then run
    else record run { state = derived_state (children_of run_id tasks) }

unfoldable pub derive_runs : List Task → Dict Run → Dict Run
derive_runs tasks [] = []
derive_runs tasks ((k, run) ∷ runs) = (k, derive_run tasks k run) ∷ derive_runs tasks runs

unfoldable pub insert_by_seq : Invalid → List Invalid → List Invalid
insert_by_seq x [] = x ∷ []
insert_by_seq x (y ∷ ys) = if leb x.seq y.seq then x ∷ y ∷ ys else y ∷ insert_by_seq x ys

-- `invalid_events.sort(key=…)`, which is stable
unfoldable pub sort_by_seq : List Invalid → List Invalid
sort_by_seq [] = []
sort_by_seq (x ∷ xs) = insert_by_seq x (sort_by_seq xs)

-- the result of `fold`
pub record Ledger : Type 0 where
  pub stream_status : Text
  pub highest_seq : ℕ
  pub invalid : ℕ
  pub invalid_events : List Invalid
  pub runs : Dict Run
  pub tasks : Dict Task
  pub rejections : List Rejection

abbrev pub view : Text → ℕ → State → Ledger
view status highest s = record {
  stream_status = status;
  highest_seq = highest;
  invalid = length s.invalid_events;
  invalid_events = sort_by_seq s.invalid_events;
  runs = derive_runs (values s.tasks) s.runs;
  tasks = s.tasks;
  rejections = s.rejections;
}

-- `fold`, from what `read_events` returns
unfoldable pub fold : Text → ℕ → List (ℕ × Fields) → List Invalid → Checked Ledger
fold status highest events invalid_records = do
  s ← fold_events (empty_state invalid_records) events
  ok (view status highest s)
