-- ===== src/Ledger/Invariant.antt =====
-- The invariant of the fold's state, and that every turn of the loop keeps it.
use ai_bobnet.Ledger.Effects.{
  fold_event-Effect, applied, with_stream, recorded, refused, Effect, IsRouted,
}
use ai_bobnet.Ledger.Tasks.{stamp}
use ai_bobnet.Ledger.Fold.{
  fold_event, close_run, fold_events, invalid, reject, apply_kind, cascade, create_task, wake,
  change_task, start_run, request_run,
}
use ai_bobnet.Ledger.Steps.{
  close_run-Closed, base_task-IsBase, create_task-Created, change_task-Changed, start_run-Started,
  request_run-Requested, IsBase,
}
use ai_bobnet.Json.{Value, as_str, get, str, Fields}
use ai_bobnet.Ledger.Moves.{cascade-Progressed, transition-Progressed, stamp-Progressed, Progressed}
use ai_bobnet.Base.{
  >>=-eq-ok, [], ◌∷◌, map_values_ind, ok-injective, List, ap, sym, insert_ind, ℕ, ◌∙◌, refl, ok,
  ◌⊎◌, inr, inl, text_eq_iff, ◌≢◌, Bool-cases, arith, codes, insert, true, text_eq, false, ◌≤◌,
  some, lookup, ◌≡◌, Text, Dict, contains, lookup-insert,
}
use ai_bobnet.Ledger.Types.{
  task_created, run_closed, run_started, run_requested, EventType, Event, State, TaskState,
  is_nonterminal, is_closed, Run, Task,
}

-- A task's run is there, of the same team, and a closed run has no task that is still open.
pub record IsHome (runs : Dict Run) (t : Task) : Type 0 where
  pub run : Run
  pub found : lookup t.run_id runs ≡ some run
  pub team : run.team_uid ≡ t.team_uid
  pub settled : is_closed run.state ≡ true → is_nonterminal t.state ≡ false

-- The counters agree, and a task with a gate has not ended as done.
pub record IsSound (t : Task) : Type 0 where
  pub attempts_are : t.attempts ≡ t.assignments
  pub assigned_once : 1 ≤ t.assignments
  pub turns_in_total : t.turns ≤ t.turns_total
  pub gate_kept : text_eq t.gate (codes "none") ≡ false → t.state ≢ TaskState.done

pub record IsValid (runs : Dict Run) (tasks : Dict Task) : Type 0 where
  pub home : (k : Text) (t : Task) → lookup k tasks ≡ some t → IsHome runs t
  pub key : (k : Text) (t : Task) → lookup k tasks ≡ some t → t.task_id ≡ k
  pub sound : (k : Text) (t : Task) → lookup k tasks ≡ some t → IsSound t

contains_found :
    {V : Type 0} (k : Text) (d : Dict V) {v : V} → lookup k d ≡ some v → contains k d ≡ true
unfolding contains
contains_found k d h = ground arith

-- A new run does not touch the runs that tasks have.
fresh-IsHome :
    (k : Text) (run : Run) (runs : Dict Run) (t : Task)
    → contains k runs ≡ false
    → IsHome runs t
    → IsHome (insert k run runs) t
fresh-IsHome k run runs t fresh h = record {
  run = h.run;
  found = ground (
    arith,
    lookup-insert k t.run_id run runs,
    text_eq_iff k t.run_id,
    contains_found t.run_id runs h.found,
    h.found,
  );
  team = h.team;
  settled = h.settled;
}

-- A run may be written again with its team, if it stays open.
update-IsHome :
    (k : Text) (old new : Run) (runs : Dict Run) (t : Task)
    → lookup k runs ≡ some old
    → new.team_uid ≡ old.team_uid
    → is_closed new.state ≡ false
    → IsHome runs t
    → IsHome (insert k new runs) t
update-IsHome k old new runs t found team is_open h = elim (Bool-cases (text_eq k t.run_id)) [
  | inl same ↦ record {
    run = new;
    found = ground (arith, lookup-insert k t.run_id new runs);
    team = ground (arith, text_eq_iff k t.run_id, h.found, h.team);
    settled = λ (c : is_closed new.state ≡ true). cc (c, is_open);
  }
  | inr other ↦ record {
    run = h.run;
    found = ground (arith, lookup-insert k t.run_id new runs, h.found);
    team = h.team;
    settled = h.settled;
  }
]

-- A step of the diagram keeps a task at home and sound, as long as its run is open.
Progressed-IsHome :
    (runs : Dict Run) (t u : Task) (run : Run)
    → lookup t.run_id runs ≡ some run
    → is_closed run.state ≡ false
    → IsHome runs t
    → Progressed t u
    → IsHome runs u
Progressed-IsHome runs t u run found is_open h p = record {
  run = run;
  found = rw p.same.same_run found;
  team = cc (p.same.same_team, h.team, h.found, found);
  settled = λ (c : is_closed run.state ≡ true). cc (c, is_open);
}

Progressed-IsSound : (t u : Task) → IsSound t → Progressed t u → IsSound u
Progressed-IsSound t u h p = record {
  attempts_are = omega (arith, h.attempts_are, p.counts.attempts_follow);
  assigned_once = omega (arith, h.assigned_once, p.counts.assignments_grow);
  turns_in_total = p.counts.turns_bounded h.turns_in_total;
  gate_kept = rw p.same.same_gate p.gated;
}

evolved-IsSound : (t u : Task) → IsSound t → (u ≡ t) ⊎ Progressed t u → IsSound u
evolved-IsSound t u h (inl e) = rw e h
evolved-IsSound t u h (inr p) = Progressed-IsSound t u h p

evolved_id : (t u : Task) → (u ≡ t) ⊎ Progressed t u → u.task_id ≡ t.task_id
evolved_id t u (inl e) = ap (λ (x : Task). x.task_id) e
evolved_id t u (inr p) = p.same.same_id

base-IsSound :
    (team : Text) (r : Fields) (t : Task) (seq : ℕ)
    → IsBase team r t
    → IsSound (record t { created_seq = some seq; last_seq = some seq; state_seq = some seq })
base-IsSound team r t seq b = ground (arith, b.state_is, b.counters_are)

-- After the closure of a run its tasks have ended, and the others are as they were.
closed-IsHome :
    (k : Text) (seq : ℕ) (old new : Run) (runs : Dict Run) (t : Task)
    → lookup k runs ≡ some old
    → new.team_uid ≡ old.team_uid
    → IsHome runs t
    → IsHome (insert k new runs) (cascade k seq t)
unfolding cascade is_nonterminal
closed-IsHome k seq old new runs t found team h = elim (Bool-cases (text_eq t.run_id k)) [
  | inl same ↦ record {
    run = new;
    found =
        ground (
          arith,
          lookup-insert k t.run_id new runs,
          text_eq_iff k t.run_id,
          text_eq_iff t.run_id k,
        );
    team = ground (arith, text_eq_iff t.run_id k, h.found, h.team);
    settled = λ (c : is_closed new.state ≡ true). ground arith;
  }
  | inr other ↦ record {
    run = h.run;
    found = ground (
      arith,
      lookup-insert k t.run_id new runs,
      text_eq_iff k t.run_id,
      text_eq_iff t.run_id k,
      h.found,
    );
    team = ground (arith, h.team);
    settled = ground (arith, h.settled);
  }
]

wake_same_team : (run : Run) → (wake run).team_uid ≡ run.team_uid
wake_same_team run = ground arith

wake_is_open : (run : Run) → is_closed run.state ≡ false → is_closed (wake run).state ≡ false
unfolding is_closed
wake_is_open run h = ground arith

-- The run of a new task, written again by the creation.
new-IsHome :
    (runs : Dict Run) (run : Run) (t : Task) (e : Event)
    → t.team_uid ≡ e.team_uid
    → text_eq run.team_uid e.team_uid ≡ true
    → is_closed run.state ≡ false
    → t.run_id ≡ e.run_id
    → IsHome (insert e.run_id (wake run) runs) t
new-IsHome runs run t e team same_team is_open run_is = record {
  run = wake run;
  found =
      ground
        (arith, lookup-insert e.run_id t.run_id (wake run) runs, text_eq_iff e.run_id t.run_id);
  team = wake_same_team run ∙ (text_eq_iff _ _).0 same_team ∙ sym team;
  settled = λ (c : is_closed (wake run).state ≡ true). cc (c, wake_is_open run is_open);
}

str-injective : {s t : Text} → str s ≡ str t → s ≡ t
str-injective h = cc

-- the key of a new task is its identifier
as_str-of : {v w : Value} {s k : Text} → v ≡ str s → v ≡ w → as_str w ≡ some k → s ≡ k
unfolding as_str
as_str-of {v} {w} p q r = ground arith

module _ (s : State) (valid : IsValid s.runs s.tasks) (e : Event) {s' : State} where
  request_run-IsValid : request_run s e ≡ ok s' → IsValid s'.runs s'.tasks
  request_run-IsValid h =
      let q = request_run-Requested s e h in
      rw (← q.result) (record {
        home = λ k t found. fresh-IsHome e.run_id _ s.runs t q.fresh (valid.home k t found);
        key = valid.key;
        sound = valid.sound;
      })

  start_run-IsValid : start_run s e ≡ ok s' → IsValid s'.runs s'.tasks
  start_run-IsValid h =
      let q = start_run-Started s e h in
      rw (← q.result) (record {
        home = λ k t found.
            update-IsHome e.run_id q.run _ s.runs t q.run_is refl (unfold is_closed in refl)
              (valid.home k t found);
        key = valid.key;
        sound = valid.sound;
      })

  -- A task event writes back a task that has made a step.
  change_task-IsValid : change_task s e ≡ ok s' → IsValid s'.runs s'.tasks
  change_task-IsValid h =
      let q = change_task-Changed s e h in
      let u = stamp e q.task q.changed in
      let p =
        stamp-Progressed e q.task q.changed
          (transition-Progressed e.kind e q.task q.changed q.step) in
      let same_run = (text_eq_iff q.task.run_id e.run_id).0 q.same_run in
      rw (← q.result) (record {
        home =
            insert_ind (λ _ t. IsHome s.runs t) q.ident u s.tasks
              (Progressed-IsHome s.runs q.task u q.run (rw same_run q.run_is) q.run_open
                (valid.home q.ident q.task q.task_is) p)
              valid.home;
        key =
            insert_ind (λ k t. t.task_id ≡ k) q.ident u s.tasks
              (p.same.same_id ∙ valid.key q.ident q.task q.task_is) valid.key;
        sound =
            insert_ind (λ _ t. IsSound t) q.ident u s.tasks
              (Progressed-IsSound q.task u (valid.sound q.ident q.task q.task_is) p) valid.sound;
      })

  -- A new task is at home in its run, which stays open.
  create_task-IsValid :
      {seq : ℕ} {r : Fields} → IsRouted seq r e → create_task s e ≡ ok s' → IsValid s'.runs s'.tasks
  create_task-IsValid routed h =
      let q = create_task-Created s e h in
      let b = base_task-IsBase e.team_uid e.fields e.payload q.task_is in
      let run_is =
        str-injective
          (sym b.run_is ∙ ap (get (codes "run_id")) routed.fields_are ∙ routed.run_is) in
      let new = record q.task {
        created_seq = some e.seq;
        last_seq = some e.seq;
        state_seq = some e.seq;
      } in
      let key_is =
        as_str-of b.task_is (ap (get (codes "task_id")) routed.fields_are ∙ routed.task_is)
          q.ident_is in
      let runs = insert e.run_id (wake q.run) s.runs in
      let woken = update-IsHome e.run_id q.run (wake q.run) s.runs in
      rw (← q.result) (record {
        home =
            insert_ind (λ _ t. IsHome runs t) q.ident new s.tasks
              (new-IsHome s.runs q.run new e b.team_is q.same_team q.run_open run_is)
              (λ k t found.
                woken t q.run_is (wake_same_team q.run) (wake_is_open q.run q.run_open)
                  (valid.home k t found));
        key = insert_ind (λ k t. t.task_id ≡ k) q.ident new s.tasks key_is valid.key;
        sound =
            insert_ind (λ _ t. IsSound t) q.ident new s.tasks
              (base-IsSound e.team_uid e.fields q.task e.seq b) valid.sound;
      })

  close_run-IsValid : close_run s e ≡ ok s' → IsValid s'.runs s'.tasks
  close_run-IsValid h =
      let q = close_run-Closed s e h in
      let step = cascade-Progressed e.run_id e.seq in
      rw (← q.result) (record {
        home =
            map_values_ind (λ _ t. IsHome _ t) (cascade e.run_id e.seq) s.tasks
              (λ k t found.
                closed-IsHome e.run_id e.seq q.run _ s.runs t q.run_is refl (valid.home k t found));
        key =
            map_values_ind (λ k t. t.task_id ≡ k) (cascade e.run_id e.seq) s.tasks
              (λ k t found. evolved_id t _ (step t) ∙ valid.key k t found);
        sound =
            map_values_ind (λ _ t. IsSound t) (cascade e.run_id e.seq) s.tasks
              (λ k t found. evolved-IsSound t _ (valid.sound k t found) (step t));
      })

  apply_kind-IsValid :
      {seq : ℕ} {r : Fields}
      → IsRouted seq r e
      → (kind : EventType) → apply_kind kind s e ≡ ok s'
      → IsValid s'.runs s'.tasks
  unfolding apply_kind
  apply_kind-IsValid routed run_requested h = request_run-IsValid h
  apply_kind-IsValid routed run_started h = start_run-IsValid h
  apply_kind-IsValid routed run_closed h = close_run-IsValid h
  apply_kind-IsValid routed task_created h = create_task-IsValid routed h
  apply_kind-IsValid routed _ h = change_task-IsValid h

reject-same :
    (s : State) (e : Event) → ((reject s e).runs ≡ s.runs) × ((reject s e).tasks ≡ s.tasks)
unfolding reject invalid
reject-same s e = ground arith

-- One turn of the loop keeps the invariant, whatever the record holds.
pub fold_event-IsValid :
    (s : State) (seq : ℕ) (r : Fields) {s' : State}
    → IsValid s.runs s.tasks
    → fold_event s seq r ≡ ok s'
    → IsValid s'.runs s'.tasks
fold_event-IsValid s seq r {s'} valid h = go (fold_event-Effect s seq r h)
  where
    go : Effect s seq r s' → IsValid s'.runs s'.tasks
    go (refused stream reason result) = rw (← result) (unfold invalid in valid)
    go (recorded stream e routed result) =
        let same = reject-same (with_stream stream s) e in rw (← result) (rw (same.0, same.1) valid)
    go (applied stream e routed match result) =
        apply_kind-IsValid (with_stream stream s) valid e routed e.kind result

-- Every turn of the loop keeps the invariant, so the whole fold does.
pub fold_events-IsValid :
    (s : State) (events : List (ℕ × Fields)) {s' : State}
    → IsValid s.runs s.tasks
    → fold_events s events ≡ ok s'
    → IsValid s'.runs s'.tasks
unfolding fold_events
fold_events-IsValid s [] valid h = rw (← ok-injective h) valid
fold_events-IsValid s ((seq, r) ∷ rest) valid h =
    let (s₁, first, others) = >>=-eq-ok (fold_event s seq r) (λ s₁. fold_events s₁ rest) h in
    fold_events-IsValid s₁ rest (fold_event-IsValid s seq r valid first) others
