-- ===== src/Ledger/Evolution.antt =====
-- How the tasks of the fold's state evolve: none is lost, and each follows the diagram of `Move`.
use ai_bobnet.Ledger.Tasks.{stamp}
use ai_bobnet.Base.{
  >>=-eq-ok, ◌∙◌, text_eq_iff, ok-injective, lookup-map_values, text_eq, sym, Bool-cases, inr, refl,
  ap, insert, false, true, arith, ok, some, ◌⊎◌, Bool, inl, lookup, ◌≡◌, List, ℕ, Text, Dict,
  contains, [], ◌∷◌, lookup-insert,
}
use mathlib.Core.Option
use mathlib.Core.Option.{some-injective}
use ai_bobnet.Json.{Fields}
use ai_bobnet.Ledger.Types.{
  task_created, run_closed, run_started, run_requested, cancelled, done, EventType, TaskState,
  Event, Task, is_terminal, State,
}
use ai_bobnet.Ledger.Moves.{
  reopens, resumes, blocks, fails, submits, finishes, cascade-Progressed, progresses, starts,
  transition-Progressed, stays, stamp-Progressed, cancels, Move, Progressed,
}
use ai_bobnet.Ledger.Steps.{
  start_run-Started, request_run-Requested, close_run-Closed, create_task-Created,
  change_task-Changed,
}
use ai_bobnet.Ledger.Effects.{fold_event-Effect, applied, with_stream, recorded, refused, Effect}
use ai_bobnet.Ledger.Fold.{
  cascade, close_run, create_task, change_task, fold_events, invalid, reject, apply_kind,
  fold_event,
}

-- A task is as it was, or has made a step.
abbrev pub Evolves : Task → Task → Type 0
Evolves t u = (u ≡ t) ⊎ Progressed t u

-- Every task is still there and has made at most one step.
abbrev pub Evolution : Dict Task → Dict Task → Type 0
Evolution before after =
    (k : Text) (t : Task)
    → lookup k before ≡ some t
    → (u : Task) × (lookup k after ≡ some u) × Evolves t u

Evolution-refl : (tasks : Dict Task) → Evolution tasks tasks
Evolution-refl tasks k t found = (t, found, inl refl)

insert-Evolution :
    (k : Text) (v : Task) (tasks : Dict Task)
    → ((t : Task) → lookup k tasks ≡ some t → Evolves t v)
    → Evolution tasks (insert k v tasks)
insert-Evolution k v tasks step j t found = elim (Bool-cases (text_eq k j)) [
  | inl same ↦ (
    v,
    ground (arith, lookup-insert k j v tasks),
    step t (ap (λ (i : Text). lookup i tasks) ((text_eq_iff k j).0 same) ∙ found),
  )
  | inr other ↦ (t, ground (arith, lookup-insert k j v tasks), inl refl)
]

contains_found : (k : Text) (d : Dict Task) (t : Task) → lookup k d ≡ some t → contains k d ≡ true
unfolding contains
contains_found k d t h = ground arith

module _ (s : State) (e : Event) {s' : State} where
  change_task-Evolution : change_task s e ≡ ok s' → Evolution s.tasks s'.tasks
  change_task-Evolution h =
      let q = change_task-Changed s e h in
      let p =
        stamp-Progressed e q.task q.changed
          (transition-Progressed e.kind e q.task q.changed q.step) in
      rw (← q.result) (
        insert-Evolution q.ident (stamp e q.task q.changed) s.tasks
          (λ t found. rw (some-injective t q.task (sym found ∙ q.task_is)) (inr p)))

  create_task-Evolution : create_task s e ≡ ok s' → Evolution s.tasks s'.tasks
  create_task-Evolution h =
      let q = create_task-Created s e h in
      rw (← q.result) (
        insert-Evolution q.ident _ s.tasks
          (λ t found. absurd (cc (contains_found q.ident s.tasks t found, q.fresh))))

  close_run-Evolution : close_run s e ≡ ok s' → Evolution s.tasks s'.tasks
  close_run-Evolution h =
      let q = close_run-Closed s e h in
      rw (← q.result) (λ k t found. (
        cascade e.run_id e.seq t,
        lookup-map_values (cascade e.run_id e.seq) k s.tasks
            ∙ ap (Option.map (cascade e.run_id e.seq)) found,
        cascade-Progressed e.run_id e.seq t,
      ))

  apply_kind-Evolution :
      (kind : EventType) → apply_kind kind s e ≡ ok s' → Evolution s.tasks s'.tasks
  unfolding apply_kind
  apply_kind-Evolution run_requested h =
      let q = request_run-Requested s e h in rw (← q.result) (Evolution-refl s.tasks)
  apply_kind-Evolution run_started h =
      let q = start_run-Started s e h in rw (← q.result) (Evolution-refl s.tasks)
  apply_kind-Evolution run_closed h = close_run-Evolution h
  apply_kind-Evolution task_created h = create_task-Evolution h
  apply_kind-Evolution _ h = change_task-Evolution h

reject-tasks : (s : State) (e : Event) → (reject s e).tasks ≡ s.tasks
unfolding reject invalid
reject-tasks s e = ground arith

-- A turn of the loop that returns loses no task, and leaves each as it was or moves it by one step of
-- the diagram, which keeps its identity.
pub fold_event-Evolution :
    (s : State) (seq : ℕ) (r : Fields) {s' : State}
    → fold_event s seq r ≡ ok s'
    → Evolution s.tasks s'.tasks
fold_event-Evolution s seq r {s'} h = go (fold_event-Effect s seq r h)
  where
    go : Effect s seq r s' → Evolution s.tasks s'.tasks
    go (refused stream reason result) = rw (← result) (unfold invalid in Evolution-refl s.tasks)
    go (recorded stream e routed result) =
        rw (← result) (rw (reject-tasks (with_stream stream s) e) (Evolution-refl s.tasks))
    go (applied stream e routed match result) =
        apply_kind-Evolution (with_stream stream s) e e.kind result

-- The end states of the diagram.
abbrev pub is_final : TaskState → Bool
is_final done = true
is_final cancelled = true
is_final _ = false

not_final_open : (a : TaskState) → is_terminal a ≡ false → is_final a ≡ true → ⊥
unfolding is_terminal
not_final_open a p h = ground arith

final_stays : {a b : TaskState} → Move a b → is_final a ≡ true → b ≡ a
unfolding is_terminal
final_stays starts h = cc
final_stays progresses h = cc
final_stays finishes h = cc
final_stays submits h = cc
final_stays fails h = cc
final_stays blocks h = cc
final_stays resumes h = cc
final_stays reopens h = cc
final_stays (cancels {a = x} p) h = absurd (not_final_open x p h)
final_stays (stays {a = x} p) h = refl

evolved_final :
    (t u : Task)
    → Evolves t u
    → is_final t.state ≡ true
    → (u.state ≡ t.state) × (u.run_id ≡ t.run_id) × (u.gate ≡ t.gate)
evolved_final t u (inl e) final = ground arith
evolved_final t u (inr p) final = (final_stays p.move final, p.same.same_run, p.same.same_gate)

-- A task that is done or cancelled is, after any further records that are folded, still in that state,
-- in the same run and with the same gate.
pub fold_events_final :
    (s : State) (events : List (ℕ × Fields)) (k : Text) (t : Task) {s' : State}
    → lookup k s.tasks ≡ some t
    → is_final t.state ≡ true
    → fold_events s events ≡ ok s'
    → (u : Task) × (lookup k s'.tasks ≡ some u)
      × (u.state ≡ t.state)
      × (u.run_id ≡ t.run_id)
      × (u.gate ≡ t.gate)
unfolding fold_events
fold_events_final s [] k t found final h =
    (t, ap (λ (x : State). lookup k x.tasks) (sym (ok-injective h)) ∙ found, refl, refl, refl)
fold_events_final s ((seq, r) ∷ rest) k t {s'} found final h =
    let (s₁, first, others) = >>=-eq-ok (fold_event s seq r) (λ s₁. fold_events s₁ rest) h in
    let (u, there, step) = fold_event-Evolution s seq r first k t found in
    let (same_state, same_run, same_gate) = evolved_final t u step final in
    let (w, last, a, b, c) = fold_events_final s₁ rest k u there (rw same_state final) others in
    (w, last, a ∙ same_state, b ∙ same_run, c ∙ same_gate)
