-- ===== src/Ledger/Steps.antt =====
-- What the handlers of the fold do to the state when they end well, in one record for each.
use ai_bobnet.Ledger.Deadlines.{valid_deadline}
use ai_bobnet.Ledger.Display.{safe_display_text}
use ai_bobnet.Base.{
  not-false, refl, ◌>>=◌, length, ◌≤◌, is_uid, ◌<◌, is_token, ltb, ok-injective, ◌==◌, ℕ, ◌||◌,
  values, any, map_values, codes, none, contains, insert, text_eq, lookup, arith, some, >>=-eq-ok,
  true, ok, false, ◌≡◌, not, Text, Bool, expect-eq-ok, guard-eq-ok,
}
use ai_bobnet.Ledger.Fold.{
  open_in, cascade, wake, outcome_of, request_run, start_run, close_run, create_task, change_task,
}
use ai_bobnet.Ledger.Tasks.{text_field, base_task, stamp, transition}
use ai_bobnet.Ledger.Types.{
  Checked, TaskState, RunState, running, RunOutcome, is_closed, Run, Task, Event, State,
}
use ai_bobnet.Json.{str, Fields, get, as_str}

-- `change_task` has found the task and its open run.
pub record Changed (s : State) (e : Event) (s' : State) : Type 0 where
  pub ident : Text
  pub task : Task
  pub changed : Task
  pub run : Run
  pub ident_is : as_str e.task_id ≡ some ident
  pub task_is : lookup ident s.tasks ≡ some task
  pub run_is : lookup e.run_id s.runs ≡ some run
  pub same_run : text_eq task.run_id e.run_id ≡ true
  pub same_team : text_eq run.team_uid task.team_uid ≡ true
  pub run_open : is_closed run.state ≡ false
  pub step : transition e.kind e task ≡ ok changed
  pub result : record s { tasks = insert ident (stamp e task changed) s.tasks } ≡ s'

pub change_task-Changed :
    (s : State) (e : Event) {s' : State} → change_task s e ≡ ok s' → Changed s e s'
unfolding change_task
change_task-Changed s e h₀ =
    let (ident, p, h₁) = expect-eq-ok _ _ _ h₀ in
    let (task, q, h₂) = expect-eq-ok _ _ _ h₁ in
    let (same, h₃) = guard-eq-ok _ _ _ h₂ in
    let (_, h₄) = guard-eq-ok _ _ _ h₃ in
    let (run, r, h₅) = expect-eq-ok _ _ _ h₄ in
    let (team, h₆) = guard-eq-ok _ _ _ h₅ in
    let (is_open, h₇) = guard-eq-ok _ _ _ h₆ in
    let (changed, step, h₈) = >>=-eq-ok _ _ h₇ in
    record {
      ident = ident;
      task = task;
      changed = changed;
      run = run;
      ident_is = p;
      task_is = q;
      run_is = r;
      same_run = not-false _ same;
      same_team = not-false _ team;
      run_open = is_open;
      step = step;
      result = ground arith;
    }

pub record Created (s : State) (e : Event) (s' : State) : Type 0 where
  pub ident : Text
  pub run : Run
  pub task : Task
  pub ident_is : as_str e.task_id ≡ some ident
  pub run_is : lookup e.run_id s.runs ≡ some run
  pub fresh : contains ident s.tasks ≡ false
  pub same_team : text_eq run.team_uid e.team_uid ≡ true
  pub run_open : is_closed run.state ≡ false
  pub task_is : base_task e.team_uid e.fields e.payload ≡ ok task
  pub result :
      record s {
        tasks =
            insert ident
              (record task {
                created_seq = some e.seq;
                last_seq = some e.seq;
                state_seq = some e.seq;
              })
              s.tasks;
        runs = insert e.run_id (wake run) s.runs;
      }
      ≡ s'

pub create_task-Created :
    (s : State) (e : Event) {s' : State} → create_task s e ≡ ok s' → Created s e s'
unfolding create_task
create_task-Created s e h₀ =
    let (run, r, h₁) = expect-eq-ok _ _ _ h₀ in
    let (ident, p, h₂) = expect-eq-ok _ _ _ h₁ in
    let (fresh, h₃) = guard-eq-ok _ _ _ h₂ in
    let (team, h₄) = guard-eq-ok _ _ _ h₃ in
    let (is_open, h₅) = guard-eq-ok _ _ _ h₄ in
    let (task, made, h₆) = >>=-eq-ok _ _ h₅ in
    let (_, h₇) = guard-eq-ok _ _ _ h₆ in
    let (_, h₈) = guard-eq-ok _ _ _ h₇ in
    record {
      ident = ident;
      run = run;
      task = task;
      ident_is = p;
      run_is = r;
      fresh = fresh;
      same_team = not-false _ team;
      run_open = is_open;
      task_is = made;
      result = ground arith;
    }

pub record Closed (s : State) (e : Event) (s' : State) : Type 0 where
  pub run : Run
  pub outcome : RunOutcome
  pub run_is : lookup e.run_id s.runs ≡ some run
  pub run_open : is_closed run.state ≡ false
  pub outcome_is : outcome_of (get (codes "outcome") e.payload) ≡ ok outcome
  pub result :
      record s {
        tasks = map_values (cascade e.run_id e.seq) s.tasks;
        runs =
            insert e.run_id
              (record run {
                state = RunState.closed outcome;
                outcome = some outcome;
                last_at = get (codes "occurred_at") e.fields;
              })
              s.runs;
      }
      ≡ s'
  pub completed_clean :
      outcome ≡ RunOutcome.completed → any (open_in e.run_id) (values s.tasks) ≡ false

pub close_run-Closed : (s : State) (e : Event) {s' : State} → close_run s e ≡ ok s' → Closed s e s'
unfolding close_run
close_run-Closed s e h₀ =
    let (run, r, h₁) = expect-eq-ok _ _ _ h₀ in
    let (is_open, h₂) = guard-eq-ok _ _ _ h₁ in
    let (_, h₃) = guard-eq-ok _ _ _ h₂ in
    let (_, h₄) = guard-eq-ok _ _ _ h₃ in
    let (outcome, o, h₅) = >>=-eq-ok _ _ h₄ in
    let (clean, h₆) = guard-eq-ok _ _ _ h₅ in
    record {
      run = run;
      outcome = outcome;
      run_is = r;
      run_open = is_open;
      outcome_is = o;
      result = ground arith;
      completed_clean = λ (is_completed : outcome ≡ RunOutcome.completed). ground arith;
    }

pub record Started (s : State) (e : Event) (s' : State) : Type 0 where
  pub run : Run
  pub run_is : lookup e.run_id s.runs ≡ some run
  pub result : record s { runs = insert e.run_id (record run { state = running }) s.runs } ≡ s'

pub start_run-Started :
    (s : State) (e : Event) {s' : State} → start_run s e ≡ ok s' → Started s e s'
unfolding start_run
start_run-Started s e h₀ =
    let (run, r, h₁) = expect-eq-ok _ _ _ h₀ in
    let (_, h₂) = guard-eq-ok _ _ _ h₁ in
    let (_, h₃) = guard-eq-ok _ _ _ h₂ in
    let (_, h₄) = guard-eq-ok _ _ _ h₃ in record { run = run; run_is = r; result = ground arith }

pub record Requested (s : State) (e : Event) (s' : State) : Type 0 where
  pub fresh : contains e.run_id s.runs ≡ false
  pub result :
      record s {
        runs =
            insert e.run_id
              (record {
                run_id = e.run_id;
                team_uid = e.team_uid;
                state = RunState.queued;
                created_seq = e.seq;
                outcome = none;
                created_at = get (codes "occurred_at") e.fields;
                last_at = get (codes "occurred_at") e.fields;
              })
              s.runs;
      }
      ≡ s'

pub request_run-Requested :
    (s : State) (e : Event) {s' : State} → request_run s e ≡ ok s' → Requested s e s'
unfolding request_run
request_run-Requested s e h₀ =
    let (fresh, h₁) = guard-eq-ok _ _ _ h₀ in record { fresh = ground arith; result = ground arith }

-- What a new task holds of its record.
pub record IsBase (team : Text) (r : Fields) (t : Task) : Type 0 where
  pub run_is : get (codes "run_id") r ≡ str t.run_id
  pub task_is : get (codes "task_id") r ≡ str t.task_id
  pub team_is : t.team_uid ≡ team
  pub state_is : t.state ≡ TaskState.assigned
  pub counters_are : (t.assignments ≡ 1) × (t.attempts ≡ 1) × (t.turns ≡ 0) × (t.turns_total ≡ 0)
  pub source_fits : is_token t.source_msg_id ≡ true
  pub assignee_fits : is_uid t.assignee ≡ true
  pub title_fits :
      (0 < length t.title) × (length t.title ≤ 120) × (safe_display_text t.title ≡ true)
  pub deadline_fits : valid_deadline t.deadline_at ≡ true

text_field-eq-ok :
    {B : Type 0} (name : Text) (r : Fields) (f : Text → Checked B) {b : B}
    → (text_field name r >>= f) ≡ ok b
    → (s : Text) × (get name r ≡ str s) × (f s ≡ ok b)
text_field-eq-ok name r f h =
    let (s, read, rest) = >>=-eq-ok (text_field name r) f h in
    (s, unfold text_field in ground arith, rest)

both_true : (a b : Bool) → (not a || not b) ≡ false → (a ≡ true) × (b ≡ true)
both_true a b h = ground arith

title_parts :
    (n : ℕ) (safe : Bool)
    → (n == 0 || (ltb 120 n || not safe)) ≡ false
    → (0 < n) × (n ≤ 120) × (safe ≡ true)
title_parts n safe h = ground arith

pub base_task-IsBase :
    (team : Text) (r payload : Fields) {t : Task}
    → base_task team r payload ≡ ok t
    → IsBase team r t
unfolding base_task
base_task-IsBase team r payload {t} h₀ =
    let (run_id, run_found, h₁) = text_field-eq-ok _ _ _ h₀ in
    let (ident, task_found, h₂) = text_field-eq-ok _ _ _ h₁ in
    let (_, h₃) = guard-eq-ok _ _ _ h₂ in
    let (_, h₄) = guard-eq-ok _ _ _ h₃ in
    let (_, _, h₅) = text_field-eq-ok _ _ _ h₄ in
    let (_, _, h₆) = text_field-eq-ok _ _ _ h₅ in
    let (_, _, h₇) = text_field-eq-ok _ _ _ h₆ in
    let (title, _, h₈) = text_field-eq-ok _ _ _ h₇ in
    let (names, h₉) = guard-eq-ok _ _ _ h₈ in
    let (_, h₁₀) = guard-eq-ok _ _ _ h₉ in
    let (titled, h₁₁) = guard-eq-ok _ _ _ h₁₀ in
    let (dated, h₁₂) = guard-eq-ok _ _ _ h₁₁ in
    rw (← ok-injective h₁₂) (record {
      run_is = run_found;
      task_is = task_found;
      team_is = refl;
      state_is = refl;
      counters_are = (refl, refl, refl, refl);
      source_fits = (both_true _ _ names).1;
      assignee_fits = (both_true _ _ names).0;
      title_fits = title_parts _ _ titled;
      deadline_fits = not-false _ dated;
    })
