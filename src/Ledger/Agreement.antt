-- ===== src/Ledger/Agreement.antt =====
-- What `decide` of lib/task_ledger.py accepts of the events of a task, and what its `fold` wants of them beside.
use ai_bobnet.Ledger.Registry.{Limits}
use ai_bobnet.Ledger.Fold.{Ledger}
use ai_bobnet.Ledger.Callers.{is_supervisor}
use ai_bobnet.Base.{
  ◌>>=◌, raised, err, if◌then◌else◌, guard-eq-ok, ◌&&◌, refl, ◌||◌, >>=-eq-ok, ◌+◌, Bool,
  starts_with-append, text_eq_iff, true, is_uid, ◌++◌, arith, false, ap, codes, text_eq, ok, some,
  Text, ◌≡◌, raise_if,
}
use ai_bobnet.Json.{null, Value, in_names, str, get, is_str, Fields}
use ai_bobnet.Ledger.Types.{
  invalid_assignee, Checked, task_overdue, is_failed, task_reopened, task_reassigned,
  task_cancelled, task_reported, is_blocked, task_started, engine_reasons, Reason, EventType,
  TaskState, Task, Event,
}
use ai_bobnet.Ledger.Tasks.{
  is_reopened, reported_state, progress_turns, is_engine_reason, human_or_agent, report, transition,
  service_report, reassign, bad_reason, actor_id, actor_type, report_of, Report, cancel, overdue,
  start,
}
use ai_bobnet.Ledger.Decide.{
  decide_step, decide_report, service_may_report, decide_reassign, decide_cancel, decide_overdue,
  roles, decide_start,
}
use ai_bobnet.Ledger.Requests.{Request}

-- The event is the request's: what `commit` of lib/task_cli.py writes of it.
pub record IsCommitted (q : Request) (payload : Fields) (e : Event) : Type 0 where
  pub kind_is : e.kind ≡ q.event_type
  pub run_is : e.run_id ≡ q.run_id
  pub team_is : e.team_uid ≡ q.team_uid
  pub task_is : (ident : Text) → q.task_id ≡ some ident → e.task_id ≡ str ident
  pub actor_type_is : actor_type e ≡ str q.actor_type
  pub actor_id_is : actor_id e ≡ str q.actor_id
  pub payload_is : e.payload ≡ payload

-- What the fold wants of the payload of a report: the report is one of the four, and the reason is one line of
-- bounded length or missing.
pub record IsReport (payload : Fields) : Type 0 where
  pub report : Report
  pub report_is : report_of (get (codes "state") payload) ≡ ok report
  pub reason_fits : bad_reason (get (codes "reason") payload) ≡ false

-- The assignee has the form of an identifier.
pub record IsAssignment (payload : Fields) : Type 0 where
  pub assignee : Text
  pub assignee_is : get (codes "assignee") payload ≡ str assignee
  pub assignee_fits : is_uid assignee ≡ true

-- What the fold wants of the payload, by kind.
abbrev pub IsChecked : EventType → Fields → Type 0
IsChecked task_reported payload = IsReport payload
IsChecked task_cancelled payload = bad_reason (get (codes "reason") payload) ≡ false
IsChecked task_reassigned payload = IsAssignment payload
IsChecked task_reopened payload = IsAssignment payload
IsChecked _ payload = Unit {0}

-- A reason that is a text or missing is hashable.
engine_reason_in :
    (v : Value)
    → bad_reason v ≡ false
    → in_names {R = Reason} v engine_reasons ≡ ok (is_engine_reason v)
unfolding bad_reason in_names
engine_reason_in null h = refl
engine_reason_in (str s) h = refl
engine_reason_in _ h = cc

module _ (q : Request) (payload : Fields) (e : Event) (committed : IsCommitted q payload e) where
  type_is : (name : Text) → is_str (actor_type e) name ≡ text_eq q.actor_type name
  unfolding is_str
  type_is name = rw committed.actor_type_is

  id_is : (name : Text) → is_str (actor_id e) name ≡ text_eq q.actor_id name
  unfolding is_str
  id_is name = rw committed.actor_id_is

  payload_get : (k : Text) → get k e.payload ≡ get k payload
  payload_get k = ap (get k) committed.payload_is

  start_agrees :
      (t : Task) (lead_uid : Text)
      → decide_start q t (roles q payload lead_uid) ≡ ok tt
      → (u : Task) × (start e t ≡ ok u)
  unfolding decide_start start roles raise_if
  start_agrees t lead_uid h = (
    record t { state = TaskState.in_progress },
    ground (arith, type_is (codes "service"), id_is (codes "supervisor:" ++ t.assignee)),
  )

  supervisor_of :
      (uid : Text)
      → text_eq q.actor_id (codes "supervisor:" ++ uid) ≡ true
      → is_supervisor (actor_id e) ≡ true
  unfolding is_supervisor
  supervisor_of uid h =
      rw (committed.actor_id_is, (text_eq_iff q.actor_id (codes "supervisor:" ++ uid)).0 h)
        (starts_with-append (codes "supervisor:") uid)

  overdue_agrees :
      (t : Task) (lead_uid : Text)
      → decide_overdue q t lead_uid (roles q payload lead_uid) ≡ ok tt
      → (u : Task) × (overdue e t ≡ ok u)
  unfolding decide_overdue overdue roles raise_if
  overdue_agrees t lead_uid h = (
    record t { last_reason = str (codes "overdue") },
    ground (arith, type_is (codes "service"), supervisor_of lead_uid),
  )

  cancel_agrees :
      (t : Task) (lead_uid : Text)
      → bad_reason (get (codes "reason") payload) ≡ false
      → decide_cancel q t payload (roles q payload lead_uid) ≡ ok tt
      → (u : Task) × (cancel e t ≡ ok u)
  unfolding decide_cancel cancel roles raise_if
  cancel_agrees t lead_uid fits h = (
    record t { state = TaskState.cancelled; last_reason = get (codes "reason") payload },
    ground (
      arith,
      type_is (codes "service"),
      type_is (codes "human"),
      type_is (codes "agent"),
      id_is (codes "supervisor:" ++ t.assignee),
      payload_get (codes "reason"),
    ),
  )

  -- The two facts that an accepted reassignment leaves.
  reassign_facts :
      (current : Ledger) (registry : Fields) (lim : Limits) (t : Task) (lead_uid : Text)
      → decide_reassign q current registry lim t payload (roles q payload lead_uid) ≡ ok tt
      → (human_or_agent e ≡ true)
        × ((is_blocked t.state || (is_reopened q.event_type && is_failed t.state)) ≡ true)
  unfolding decide_reassign roles raise_if
  reassign_facts current registry lim t lead_uid h =
      (ground (arith, type_is (codes "human"), type_is (codes "agent")), ground arith)

  reassign_agrees :
      (current : Ledger) (registry : Fields) (lim : Limits) (t : Task) (lead_uid : Text)
      → IsAssignment payload
      → decide_reassign q current registry lim t payload (roles q payload lead_uid) ≡ ok tt
      → (u : Task) × (reassign e t ≡ ok u)
  unfolding reassign raise_if
  reassign_agrees current registry lim t lead_uid c h =
      let (may, moves) = reassign_facts current registry lim t lead_uid h in
      (
        record t {
          assignee = c.assignee;
          assignments = t.assignments + 1;
          attempts = t.attempts + 1;
          turns = 0;
          state = TaskState.assigned;
        },
        rw
            (
              may,
              committed.kind_is,
              moves,
              payload_get (codes "assignee"),
              c.assignee_is,
              c.assignee_fits,
            )
            refl,
      )

  -- The engine's own reports are read alike.
  service_agrees :
      (t : Task) (lead_uid : Text) (service_ok : Bool)
      → IsReport payload
      → service_may_report q t payload (roles q payload lead_uid) ≡ ok service_ok
      → service_report e t ≡ ok service_ok
  unfolding service_may_report service_report roles
  service_agrees t lead_uid service_ok c h = ground (
    arith,
    type_is (codes "service"),
    id_is (codes "supervisor:" ++ t.assignee),
    payload_get (codes "state"),
    payload_get (codes "reason"),
    engine_reason_in (get (codes "reason") payload) c.reason_fits,
  )

  report_agrees :
      (lim : Limits) (t : Task) (lead_uid : Text)
      → IsReport payload
      → decide_report q lim t payload (roles q payload lead_uid) ≡ ok tt
      → (u : Task) × (report e t ≡ ok u)
  unfolding decide_report report raise_if
  report_agrees lim t lead_uid c h =
      let (service_ok, read, rest) =
        >>=-eq-ok (service_may_report q t payload (roles q payload lead_uid)) _ h in
      (
        record t {
          turns = t.turns + progress_turns c.report;
          turns_total = t.turns_total + progress_turns c.report;
          result_ref = get (codes "result_ref") e.payload;
          last_reason = get (codes "reason") e.payload;
          state = reported_state c.report t;
        },
        ground (
          arith,
          type_is (codes "agent"),
          id_is t.assignee,
          payload_get (codes "reason"),
          payload_get (codes "state"),
          c.report_is,
          c.reason_fits,
          service_agrees t lead_uid service_ok c read,
          rest,
        ),
      )

  -- Whatever the kind, a step that is accepted is a transition of the fold.
  pub step_agrees :
      (kind : EventType) (current : Ledger) (registry : Fields) (lim : Limits) (t : Task)
      (lead_uid : Text)
      → IsChecked kind payload
      → decide_step kind q current registry lim t payload lead_uid (roles q payload lead_uid)
        ≡ ok tt
      → (u : Task) × (transition kind e t ≡ ok u)
  unfolding decide_step transition
  step_agrees task_started current registry lim t lead_uid c h = start_agrees t lead_uid h
  step_agrees task_reported current registry lim t lead_uid c h = report_agrees lim t lead_uid c h
  step_agrees task_cancelled current registry lim t lead_uid c h = cancel_agrees t lead_uid c h
  step_agrees task_reassigned current registry lim t lead_uid c h =
      reassign_agrees current registry lim t lead_uid c h
  step_agrees task_reopened current registry lim t lead_uid c h =
      reassign_agrees current registry lim t lead_uid c h
  step_agrees task_overdue current registry lim t lead_uid c h = overdue_agrees t lead_uid h
  step_agrees _ current registry lim t lead_uid c h = cc

-- What a transition that the fold has made shows of the payload.
report-IsReport : (e : Event) (t : Task) {u : Task} → report e t ≡ ok u → IsReport e.payload
unfolding report
report-IsReport e t h =
    let (fits, h₁) = guard-eq-ok _ _ _ h in
    let (service_ok, _, h₂) = >>=-eq-ok (service_report e t) _ h₁ in
    let (_, h₃) = guard-eq-ok _ _ _ h₂ in
    let (kind, kind_is, _) = >>=-eq-ok (report_of (get (codes "state") e.payload)) _ h₃ in
    record { report = kind; report_is = kind_is; reason_fits = fits }

cancel-reason :
    (e : Event) (t : Task) {u : Task}
    → cancel e t ≡ ok u
    → bad_reason (get (codes "reason") e.payload) ≡ false
unfolding cancel
cancel-reason e t h =
    let (_, h₁) = guard-eq-ok _ _ _ h in let (fits, _) = guard-eq-ok _ _ _ h₁ in fits

assignee_of :
    (v : Value) {B : Type 0} (f : Text → Checked B) {b : B}
    → (elim v [
      | str s ↦ if is_uid s then ok s else err (raised invalid_assignee)
      | _ ↦ err (raised invalid_assignee)
    ]
        >>= f)
      ≡ ok b
    → (s : Text) × (v ≡ str s) × (is_uid s ≡ true)
assignee_of (str s) f h = (s, refl, ground arith)
assignee_of _ f h = cc

reassign-IsAssignment :
    (e : Event) (t : Task) {u : Task} → reassign e t ≡ ok u → IsAssignment e.payload
unfolding reassign
reassign-IsAssignment e t h =
    let (_, h₁) = guard-eq-ok _ _ _ h in
    let (_, h₂) = guard-eq-ok _ _ _ h₁ in
    let (s, s_is, fits) = assignee_of (get (codes "assignee") e.payload) _ h₂ in
    record { assignee = s; assignee_is = s_is; assignee_fits = fits }

pub transition-IsChecked :
    (kind : EventType) (e : Event) (t : Task) {u : Task}
    → transition kind e t ≡ ok u
    → IsChecked kind e.payload
unfolding transition
transition-IsChecked task_reported e t h = report-IsReport e t h
transition-IsChecked task_cancelled e t h = cancel-reason e t h
transition-IsChecked task_reassigned e t h = reassign-IsAssignment e t h
transition-IsChecked task_reopened e t h = reassign-IsAssignment e t h
transition-IsChecked _ e t h = tt
