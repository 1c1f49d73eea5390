-- ===== src/Ledger/Moves.antt =====
-- The states of a task as a step relation, and what one event does to a task.
use ai_bobnet.Json.{get}
use ai_bobnet.Base.{
  inr, inl, ◌⊎◌, ℕ, Text, ◌≢◌, err, text_eq, ◌||◌, not, ◌>>=◌, ◌>>◌, ap, sym, codes, raise_if, ◌+◌,
  ◌≤◌, ◌≡◌, refl, Bool, true, false, ok, arith,
}
use ai_bobnet.Ledger.Types.{
  is_nonterminal, task_overdue, task_reopened, task_reassigned, task_cancelled, task_reported,
  task_started, EventType, Reason, Checked, TaskState, queued, assigned, in_progress, blocked,
  review, done, failed, cancelled, is_terminal, is_in_progress, Task, Event,
}
use ai_bobnet.Ledger.Fold.{cascade, open_in}
use ai_bobnet.Base.{Bool-cases, and_true}
use ai_bobnet.Ledger.Tasks.{
  stamp, transition, reported_state, report_of, Report, start, report, cancel, reassign, overdue,
}

-- The lines of the diagram. Nothing leaves `done` or `cancelled`.
pub data Move : TaskState → TaskState → Type 0 where
  starts : Move assigned in_progress
  progresses : Move in_progress in_progress
  finishes : Move in_progress done
  submits : Move in_progress review
  fails : Move in_progress failed
  blocks : Move in_progress blocked
  resumes : Move blocked assigned
  reopens : Move failed assigned
  cancels : {a : TaskState} → is_terminal a ≡ false → Move a cancelled
  stays : {a : TaskState} → is_terminal a ≡ false → Move a a

-- the same diagram as a test
abbrev can_move : TaskState → TaskState → Bool
can_move queued queued = true
can_move queued cancelled = true
can_move assigned in_progress = true
can_move assigned assigned = true
can_move assigned cancelled = true
can_move in_progress in_progress = true
can_move in_progress done = true
can_move in_progress review = true
can_move in_progress failed = true
can_move in_progress blocked = true
can_move in_progress cancelled = true
can_move blocked assigned = true
can_move blocked blocked = true
can_move blocked cancelled = true
can_move review review = true
can_move review cancelled = true
can_move failed assigned = true
can_move _ _ = false

Move-of_can_move : (a b : TaskState) → can_move a b ≡ true → Move a b
unfolding is_terminal
Move-of_can_move queued queued h = stays refl
Move-of_can_move queued cancelled h = cancels refl
Move-of_can_move assigned in_progress h = starts
Move-of_can_move assigned assigned h = stays refl
Move-of_can_move assigned cancelled h = cancels refl
Move-of_can_move in_progress in_progress h = progresses
Move-of_can_move in_progress done h = finishes
Move-of_can_move in_progress review h = submits
Move-of_can_move in_progress failed h = fails
Move-of_can_move in_progress blocked h = blocks
Move-of_can_move in_progress cancelled h = cancels refl
Move-of_can_move blocked assigned h = resumes
Move-of_can_move blocked blocked h = stays refl
Move-of_can_move blocked cancelled h = cancels refl
Move-of_can_move review review h = stays refl
Move-of_can_move review cancelled h = cancels refl
Move-of_can_move failed assigned h = reopens
Move-of_can_move _ _ h = cc

-- What no event of a task changes.
pub record SameTask (t u : Task) : Type 0 where
  pub same_id : u.task_id ≡ t.task_id
  pub same_run : u.run_id ≡ t.run_id
  pub same_team : u.team_uid ≡ t.team_uid
  pub same_source : u.source_msg_id ≡ t.source_msg_id
  pub same_gate : u.gate ≡ t.gate
  pub same_title : u.title ≡ t.title
  pub same_deadline : u.deadline_at ≡ t.deadline_at

-- The counters of one step.
pub record Counts (t u : Task) : Type 0 where
  pub attempts_follow : u.attempts + t.assignments ≡ u.assignments + t.attempts
  pub assignments_grow : t.assignments ≤ u.assignments
  pub turns_total_grow : t.turns_total ≤ u.turns_total
  pub turns_bounded : t.turns ≤ t.turns_total → u.turns ≤ u.turns_total

-- What an accepted report has found: its kind, and a task in progress.
pub record Reported (e : Event) (t u : Task) : Type 0 where
  pub kind : Report
  pub kind_is : report_of (get (codes "state") e.payload) ≡ ok kind
  pub was_in_progress : is_in_progress t.state ≡ true
  pub state_is : u.state ≡ reported_state kind t
  pub same : SameTask t u
  pub counts : Counts t u

report_steps :
    {A : Type 0} (bad in_state actor_ok : Bool) (service : Checked Bool) (kind : Checked Report)
    (r s : Reason) (f : Report → A) {u : A}
    → (raise_if bad r
        >> (service >>= λ service_ok.
            raise_if (not in_state || not (actor_ok || service_ok)) s >> (kind >>= λ k. ok (f k))))
      ≡ ok u
    → (k : Report) × (kind ≡ ok k) × (in_state ≡ true) × (f k ≡ u)
unfolding raise_if
report_steps true in_state actor_ok service kind r s f h = cc
report_steps false in_state actor_ok (err x) kind r s f h = cc
report_steps false false actor_ok (ok b) kind r s f h = cc
report_steps false true actor_ok (ok b) (err x) r s f h = ground arith
report_steps false true actor_ok (ok b) (ok k) r s f h = (k, refl, refl, ground arith)

report-eq-ok : (e : Event) (t : Task) {u : Task} → report e t ≡ ok u → Reported e t u
unfolding report
report-eq-ok e t {u} h =
    let (k, read, ready, result) = report_steps _ _ _ _ _ _ _ _ h in
    record {
      kind = k;
      kind_is = read;
      was_in_progress = ready;
      state_is = sym (ap (λ (x : Task). x.state) result);
      same = rw (← result) (record {
        same_id = refl;
        same_run = refl;
        same_team = refl;
        same_source = refl;
        same_gate = refl;
        same_title = refl;
        same_deadline = refl;
      });
      counts = rw (← result) (ground arith);
    }

module _ (e : Event) (t : Task) {u : Task} where
  start-can_move : start e t ≡ ok u → can_move t.state u.state ≡ true
  unfolding start raise_if
  start-can_move h = ground arith

  report-can_move : report e t ≡ ok u → can_move t.state u.state ≡ true
  unfolding reported_state
  report-can_move h = let r = report-eq-ok e t h in ground (arith, r.was_in_progress, r.state_is)

  cancel-can_move : cancel e t ≡ ok u → can_move t.state u.state ≡ true
  unfolding cancel raise_if is_terminal
  cancel-can_move h = ground arith

  reassign-can_move : reassign e t ≡ ok u → can_move t.state u.state ≡ true
  unfolding reassign raise_if
  reassign-can_move h = ground arith

  overdue-can_move : overdue e t ≡ ok u → can_move t.state u.state ≡ true
  unfolding overdue raise_if is_terminal
  overdue-can_move h = ground arith

  start-SameTask : start e t ≡ ok u → SameTask t u × Counts t u
  unfolding start raise_if
  start-SameTask h = ground arith

  cancel-SameTask : cancel e t ≡ ok u → SameTask t u × Counts t u
  unfolding cancel raise_if
  cancel-SameTask h = ground arith

  reassign-SameTask : reassign e t ≡ ok u → SameTask t u × Counts t u
  unfolding reassign raise_if
  reassign-SameTask h = ground arith

  overdue-SameTask : overdue e t ≡ ok u → SameTask t u × Counts t u
  unfolding overdue raise_if
  overdue-SameTask h = ground arith

  -- A task with a gate is not done by a report: it ends in review.
  report_gated :
      text_eq t.gate (codes "none") ≡ false → report e t ≡ ok u → u.state ≢ TaskState.done
  unfolding reported_state
  report_gated g h = let r = report-eq-ok e t h in ground (arith, r.state_is)

open-not_terminal : (a : TaskState) → is_nonterminal a ≡ true → is_terminal a ≡ false
unfolding is_nonterminal is_terminal
open-not_terminal a h = ground arith

-- What one event does to a task that it is about.
pub record Progressed (t u : Task) : Type 0 where
  pub move : Move t.state u.state
  pub same : SameTask t u
  pub counts : Counts t u
  pub gated : text_eq t.gate (codes "none") ≡ false → u.state ≢ TaskState.done

-- no line leads to `done` but the report's
reaches_done : (a b : TaskState) → can_move a b ≡ true → b ≡ done → a ≡ in_progress
reaches_done a b h e = ground arith

module _ (t u : Task) (m : can_move t.state u.state ≡ true) (sc : SameTask t u × Counts t u) where
  progressed : (text_eq t.gate (codes "none") ≡ false → u.state ≢ TaskState.done) → Progressed t u
  progressed g = record {
    move = Move-of_can_move t.state u.state m;
    same = sc.0;
    counts = sc.1;
    gated = g;
  }

module _ (e : Event) (t : Task) {u : Task} where
  start-ne-done : start e t ≡ ok u → u.state ≢ done
  unfolding start raise_if
  start-ne-done h = ground arith

  cancel-ne-done : cancel e t ≡ ok u → u.state ≢ done
  unfolding cancel raise_if
  cancel-ne-done h = ground arith

  reassign-ne-done : reassign e t ≡ ok u → u.state ≢ done
  unfolding reassign raise_if
  reassign-ne-done h = ground arith

  overdue-ne-done : overdue e t ≡ ok u → u.state ≢ done
  unfolding overdue raise_if is_terminal
  overdue-ne-done h = ground arith

-- Every accepted task event follows a line of the diagram, keeps the task's identity and moves its
-- counters together.
pub transition-Progressed :
    (kind : EventType) (e : Event) (t u : Task) → transition kind e t ≡ ok u → Progressed t u
unfolding transition
transition-Progressed task_started e t u h =
    progressed t u (start-can_move e t h) (start-SameTask e t h) (λ _. start-ne-done e t h)
transition-Progressed task_reported e t u h =
    let r = report-eq-ok e t h in
    progressed t u (report-can_move e t h) (r.same, r.counts) (λ g. report_gated e t g h)
transition-Progressed task_cancelled e t u h =
    progressed t u (cancel-can_move e t h) (cancel-SameTask e t h) (λ _. cancel-ne-done e t h)
transition-Progressed task_reassigned e t u h =
    progressed t u (reassign-can_move e t h) (reassign-SameTask e t h) (λ _. reassign-ne-done e t h)
transition-Progressed task_reopened e t u h =
    progressed t u (reassign-can_move e t h) (reassign-SameTask e t h) (λ _. reassign-ne-done e t h)
transition-Progressed task_overdue e t u h =
    progressed t u (overdue-can_move e t h) (overdue-SameTask e t h) (λ _. overdue-ne-done e t h)
transition-Progressed _ e t u h = cc

-- the cascade of a run's closure is a step of the diagram too
pub cascade-Progressed :
    (run_id : Text) (seq : ℕ) (t : Task)
    → (cascade run_id seq t ≡ t) ⊎ Progressed t (cascade run_id seq t)
unfolding cascade
cascade-Progressed run_id seq t = elim (Bool-cases (open_in run_id t)) [
  | inl is_open ↦ rw is_open (
      inr (record {
        move = cancels (open-not_terminal t.state (and_true _ _ is_open).1);
        same = record {
          same_id = refl;
          same_run = refl;
          same_team = refl;
          same_source = refl;
          same_gate = refl;
          same_title = refl;
          same_deadline = refl;
        };
        counts = ground arith;
        gated = λ g. ground arith;
      }))
  | inr other ↦ rw other (inl refl)
]

-- `stamp` writes sequence numbers and times only.
pub stamp-Progressed : (e : Event) (t u : Task) → Progressed t u → Progressed t (stamp e t u)
unfolding stamp
stamp-Progressed e t u p = record {
  move = p.move;
  same = record {
    same_id = p.same.same_id;
    same_run = p.same.same_run;
    same_team = p.same.same_team;
    same_source = p.same.same_source;
    same_gate = p.same.same_gate;
    same_title = p.same.same_title;
    same_deadline = p.same.same_deadline;
  };
  counts = record {
    attempts_follow = p.counts.attempts_follow;
    assignments_grow = p.counts.assignments_grow;
    turns_total_grow = p.counts.turns_total_grow;
    turns_bounded = p.counts.turns_bounded;
  };
  gated = p.gated;
}
