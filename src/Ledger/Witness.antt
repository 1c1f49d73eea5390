-- ===== src/Ledger/Witness.antt =====
-- The theorems about the task ledger at concrete records and requests.
use ai_bobnet.Ledger.Bounds.{create_within_limits}
use ai_bobnet.Ledger.Accepted.{accepted_applies}
use ai_bobnet.Ledger.Tasks.{stamp, transition}
use mathlib.Core.Option.{some-injective}
use ai_bobnet.Ledger.Registry.{default_limits}
use ai_bobnet.Ledger.Agreement.{IsChecked}
use ai_bobnet.Base.{
  ◌↔◌, ◌≤◌, values, ap, Text, ℕ, none, some, true, false, codes, [], ◌∷◌, ok, err, refl, lookup,
  insert, ◌≡◌,
}
use ai_bobnet.Json.{get, Fields, obj, str, null, field, end}
use ai_bobnet.Ledger.Types.{
  task_created, Checked, State, Task, Event, EventType, TaskState, task_started, accepted,
}
use ai_bobnet.Ledger.Fold.{
  create_task, Ledger, fold, fold_events, fold_event, empty_state, view, change_task,
}
use ai_bobnet.Ledger.Fixture.{
  judged, executed, fixture, fixture_run, fixture_task, requested, created, started,
}
use ai_bobnet.Ledger.Invariant.{IsValid}
use ai_bobnet.Ledger.Derived.{fold-IsValid}
use ai_bobnet.Ledger.Evolution.{Evolution, fold_event-Evolution, fold_events_final}
use ai_bobnet.Ledger.Requests.{Request, Decision}
use ai_bobnet.Ledger.Decide.{assignments_in, open_count, World, decide}

-- the state that a fold reaches
abbrev reached : Checked State → State
reached (ok s) = s
reached (err _) = empty_state []

abbrev folded : Checked Ledger → Ledger
folded (ok l) = l
folded (err _) = view [] 0 (empty_state [])

fold-IsValid_example :
    IsValid
      (folded (fold (codes "ok") 4 (fixture (codes "none")) [])).runs
      (folded (fold (codes "ok") 4 (fixture (codes "none")) [])).tasks
unfolding executed
fold-IsValid_example = fold-IsValid (codes "ok") 4 (fixture (codes "none")) [] refl

abbrev after_creation : State
after_creation =
    reached (fold_events (empty_state []) ((1, requested) ∷ (2, created (codes "none")) ∷ []))

abbrev after_report : State
after_report = reached (fold_events (empty_state []) (fixture (codes "none")))

abbrev no_task : Task
no_task = record {
  task_id = [];
  run_id = [];
  team_uid = [];
  parent = null;
  depth = null;
  source_msg_id = [];
  owner = null;
  assignee = [];
  title = [];
  body_ref = null;
  deadline_at = null;
  budget = null;
  gate = [];
  context_refs = null;
  state = TaskState.cancelled;
  assignments = 0;
  attempts = 0;
  turns = 0;
  turns_total = 0;
  result_ref = null;
  last_reason = null;
  last_summary = [];
  created_at = null;
  last_at = null;
  created_seq = none;
  last_seq = none;
  state_seq = none;
}

abbrev task_in : State → Task
task_in s = elim (lookup fixture_task s.tasks) [ some t ↦ t | none ↦ no_task ]

fold_event-Evolution_example :
    Evolution after_creation.tasks (reached (fold_event after_creation 3 started)).tasks
unfolding executed
fold_event-Evolution_example = fold_event-Evolution after_creation 3 started refl

fold_events_final_example :
    (u : Task) × (lookup fixture_task (reached (fold_events after_report ((5, started) ∷ []))).tasks
      ≡ some u)
    × (u.state ≡ TaskState.done)
    × (u.run_id ≡ fixture_run)
    × (u.gate ≡ codes "none")
unfolding executed
fold_events_final_example =
    fold_events_final after_report ((5, started) ∷ []) fixture_task (task_in after_report) refl refl
      refl

-- the team's registry: a lead and a developer
abbrev registry : Fields
registry =
    field (codes "teams")
      (obj
        (field (codes "acme-engine") (obj (field (codes "project") (str (codes "acme")) end)) end))
      (field (codes "agents")
        (obj (
          field (codes "acme-lead")
            (obj (
              field (codes "team_uid") (str (codes "acme-engine"))
                (field (codes "lead") (str (codes "true")) end)))
            (field (codes "acme-dev1")
              (obj (
                field (codes "team_uid") (str (codes "acme-engine"))
                  (field (codes "mode") (str (codes "supervised")) end)))
              end)))
        end)

abbrev world : World
world = record {
  unicode_digit = λ c. none;
  store_body = λ ident body. true;
  deadline_after = λ n. codes "2026-10-28T00:00:00Z";
}

abbrev request_of : EventType → Text → Text → Fields → Request
request_of kind actor_type actor_id payload = record {
  event_type = kind;
  payload = payload;
  actor_type = actor_type;
  actor_id = actor_id;
  caller = codes "root:root";
  team_uid = codes "acme-engine";
  run_id = fixture_run;
  task_id = some fixture_task;
  causation_id = codes "fixture-3";
  expected_task_seq = none;
}

-- the supervisor starts the task
abbrev start_request : Request
start_request = request_of task_started (codes "service") (codes "supervisor:acme-dev1") end

abbrev decision : Checked Decision → Decision
decision (ok d) = d
decision (err _) = record {
  kind = task_started;
  payload = end;
  is_accepted = false;
  reason = accepted;
}

-- the event that is committed for a request on a record
abbrev event_of : Request → ℕ → Fields → Fields → Event
event_of q seq r payload = record {
  seq = seq;
  kind = q.event_type;
  project = codes "acme";
  run_id = q.run_id;
  task_id = str fixture_task;
  team_uid = q.team_uid;
  fields = r;
  payload = payload;
}

abbrev start_decision : Decision
start_decision =
    decision (decide world start_request (view (codes "ok") 2 after_creation) registry none)

abbrev start_event : Event
start_event = event_of start_request 3 started start_decision.payload

accepted_applies_example :
    (ident : Text) × (t : Task) × (some fixture_task ≡ some ident)
    × (lookup ident after_creation.tasks ≡ some t)
    × (((s' : State) × (change_task after_creation start_event ≡ ok s'))
        ↔ IsChecked task_started start_decision.payload)
    × (IsChecked task_started start_decision.payload ↔ (
        (u : Task) × (transition task_started start_event t ≡ ok u)
        × (change_task after_creation start_event
            ≡ ok (record after_creation {
              tasks = insert ident (stamp start_event t u) after_creation.tasks;
            }))))
unfolding executed judged
accepted_applies_example =
    accepted_applies world start_request (codes "ok") 2 after_creation registry none start_decision
      start_event refl refl refl
      (record {
        kind_is = refl;
        run_is = refl;
        team_is = refl;
        task_is = λ ident p. ap str (some-injective _ _ p);
        actor_type_is = refl;
        actor_id_is = refl;
        payload_is = refl;
      })

abbrev after_request : State
after_request = reached (fold_events (empty_state []) ((1, requested) ∷ []))

abbrev payload_of : Fields → Fields
payload_of r = elim (get (codes "payload") r) [ obj p ↦ p | _ ↦ end ]

-- the operator creates the task
abbrev create_request : Request
create_request =
    request_of task_created (codes "human") (codes "operator") (payload_of (created (codes "none")))

abbrev create_decision : Decision
create_decision =
    decision (decide world create_request (view (codes "ok") 1 after_request) registry (some []))

abbrev create_event : Event
create_event = event_of create_request 2 (created (codes "none")) create_decision.payload

create_within_limits_example :
    (open_count
        (codes "acme-engine")
        (values (reached (create_task after_request create_event)).tasks)
      ≤ 8)
    × (assignments_in fixture_run (values (reached (create_task after_request create_event)).tasks)
        ≤ 20)
unfolding executed judged
create_within_limits_example =
    create_within_limits world create_request (codes "ok") 1 after_request
      (reached (create_task after_request create_event)) registry (some []) create_decision
      create_event default_limits refl refl refl refl refl
