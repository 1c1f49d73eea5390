-- ===== src/Ledger/Accepted.antt =====
-- The decisions that are accepted: the bounds that they keep, and the event that the fold applies.
use ai_bobnet.Ledger.Derived.{lookup-derive_runs_inv}
use ai_bobnet.Ledger.Tasks.{stamp, transition}
use ai_bobnet.Ledger.Agreement.{step_agrees, IsCommitted, IsChecked, transition-IsChecked}
use mathlib.Core.Option.{none, some-injective}
use mathlib.Core.Path.{subst, subst₂}
use ai_bobnet.Base.{
  ◌↔◌, not-false, ◌∙◌, values, refl, insert, text_eq, ◌>>=◌, lookup, expect-eq-ok, guard-eq-ok,
  Bool, raise_if, expect, >>=-eq-ok, ok-injective, some, codes, sym, arith, ap, true, false, ok, ℕ,
  ◌≡◌, List, Text, Option,
}
use ai_bobnet.Json.{as_str, str, put, Fields}
use ai_bobnet.Ledger.Types.{
  task_overdue, task_reopened, task_reassigned, is_closed, task_cancelled, unknown_task, run_closed,
  task_reported, task_created, task_started, Event, Run, State, Task, run_requested, task_rejected,
  EventType, Reason, Checked,
}
use ai_bobnet.Ledger.Fold.{view, change_task, Ledger}
use ai_bobnet.Ledger.Decide.{
  decide_step, find_task, Roles, decide_task, decide_after, roles, decide_kind, settle_engine,
  settle_kind, decide, decide_authorized, World,
}
use ai_bobnet.Ledger.Requests.{caller_actor_reason, Decision, rejection, Request}
use ai_bobnet.Ledger.Registry.{team_lead, limits, Limits}

-- What an accepted decision has found: the limits and the lead of the team, and the payload by kind.
pub record IsAccepted (world : World) (q : Request) (current : Ledger) (registry : Fields)
    (body : Option (List ℕ)) (d : Decision) : Type 0 where
  pub lim : Limits
  pub lead_uid : Text
  pub limits_are : limits world.unicode_digit registry q.team_uid ≡ ok lim
  pub lead_is : team_lead registry q.team_uid ≡ ok lead_uid
  pub kind_is : d.kind ≡ q.event_type
  pub decided :
      decide_kind q.event_type world q current registry lim
        (put (codes "caller") (str q.caller) q.payload)
        lead_uid
        (roles q (put (codes "caller") (str q.caller) q.payload) lead_uid)
        body
      ≡ ok d.payload

settle_kind-accepted :
    (q : Request) (r : Checked Fields) (d : Decision)
    → settle_kind q r ≡ ok d
    → d.is_accepted ≡ true
    → (d.kind ≡ q.event_type) × (r ≡ ok d.payload)
unfolding rejection
settle_kind-accepted q r d h a = ground arith

rejection-refused :
    (q : Request) (reason : Reason) (d : Decision) → rejection q reason ≡ d → d.is_accepted ≡ false
unfolding rejection
rejection-refused q reason d h = ap (λ (x : Decision). x.is_accepted) (sym h)

settle_engine-refused :
    (q : Request) (payload : Fields) (r : Checked Text) (d : Decision)
    → settle_engine q payload r ≡ ok d
    → d.is_accepted ≡ false
unfolding rejection
settle_engine-refused q payload r d h = ground arith

module _ (world : World) (q : Request) (current : Ledger) (registry : Fields)
    (body : Option (List ℕ)) (d : Decision) where
  decide_authorized-accepted :
      (kind : EventType) (lim : Limits) (payload : Fields) (lead_uid : Text)
      → decide_authorized kind world q current registry lim payload lead_uid body ≡ ok d
      → d.is_accepted ≡ true
      → (d.kind ≡ q.event_type)
        × (decide_kind kind world q current registry lim payload lead_uid
              (roles q payload lead_uid)
              body
            ≡ ok d.payload)
  unfolding decide_authorized
  decide_authorized-accepted task_rejected lim payload lead_uid h a =
      absurd (cc (settle_engine-refused q payload _ d h, a))
  decide_authorized-accepted run_requested lim payload lead_uid h a = settle_kind-accepted q _ d h a
  decide_authorized-accepted _ lim payload lead_uid h a = settle_kind-accepted q _ d h a

  pub decide-IsAccepted :
      decide world q current registry body ≡ ok d
      → d.is_accepted ≡ true
      → IsAccepted world q current registry body d
  unfolding decide
  decide-IsAccepted h a = go (caller_actor_reason q.caller q.actor_type q.actor_id payload) h
    where
      payload : Fields
      payload = put (codes "caller") (str q.caller) q.payload

      go :
          (refusal : Option Reason)
          → decide_after world q current registry payload body refusal ≡ ok d
          → IsAccepted world q current registry body d
      go (some reason) p = absurd (cc (rejection-refused q reason d (ok-injective p), a))
      go none p =
          let (lim, limits_are, p₁) =
            >>=-eq-ok (limits world.unicode_digit registry q.team_uid) _ p in
          let (lead_uid, lead_is, p₂) = >>=-eq-ok (team_lead registry q.team_uid) _ p₁ in
          let (kind_is, decided) =
            decide_authorized-accepted q.event_type lim payload lead_uid p₂ a in
          record {
            lim = lim;
            lead_uid = lead_uid;
            limits_are = limits_are;
            lead_is = lead_is;
            kind_is = kind_is;
            decided = decided;
          }

-- The events of a task that exists.
abbrev pub changes : EventType → Bool
changes task_started = true
changes task_reported = true
changes task_cancelled = true
changes task_reassigned = true
changes task_reopened = true
changes task_overdue = true
changes _ = false

-- What `decide_task` has found.
record FoundTask (q : Request) (current : Ledger) (registry : Fields) (lim : Limits)
    (payload : Fields) (lead_uid : Text) : Type 0 where
  ident : Text
  task : Task
  run : Run
  ident_is : q.task_id ≡ some ident
  task_is : lookup ident current.tasks ≡ some task
  same_run : text_eq task.run_id q.run_id ≡ true
  same_team : text_eq task.team_uid q.team_uid ≡ true
  run_is : lookup q.run_id current.runs ≡ some run
  run_team : text_eq run.team_uid task.team_uid ≡ true
  run_open : is_closed run.state ≡ false
  step :
      decide_step q.event_type q current registry lim task payload lead_uid
        (roles q payload lead_uid)
      ≡ ok tt

find_task-eq-ok :
    {B : Type 0} (q : Request) (current : Ledger) (f : Task → Checked B) {b : B}
    → (find_task q current >>= f) ≡ ok b
    → (ident : Text) × (t : Task) × (q.task_id ≡ some ident)
      × (lookup ident current.tasks ≡ some t)
      × (f t ≡ ok b)
unfolding find_task expect
find_task-eq-ok q current f h =
    let (t, found, rest) = >>=-eq-ok (find_task q current) f h in
    let (ident, p, p₁) = expect-eq-ok q.task_id unknown_task _ found in
    (ident, t, p, ground arith, rest)

decide_task-FoundTask :
    (q : Request) (current : Ledger) (registry : Fields) (lim : Limits) (payload : Fields)
    (lead_uid : Text)
    → decide_task q current registry lim payload lead_uid (roles q payload lead_uid) ≡ ok tt
    → FoundTask q current registry lim payload lead_uid
unfolding decide_task
decide_task-FoundTask q current registry lim payload lead_uid h₀ =
    let (ident, t, p, found, h₁) = find_task-eq-ok _ _ _ h₀ in
    let (same_run, h₂) = guard-eq-ok _ _ _ h₁ in
    let (same_team, h₃) = guard-eq-ok _ _ _ h₂ in
    let (run, run_is, h₄) = expect-eq-ok _ _ _ h₃ in
    let (run_team, h₅) = guard-eq-ok _ _ _ h₄ in
    let (run_open, h₆) = guard-eq-ok _ _ _ h₅ in
    let (_, h₇) = guard-eq-ok _ _ _ h₆ in
    record {
      ident = ident;
      task = t;
      run = run;
      ident_is = p;
      task_is = found;
      same_run = not-false _ same_run;
      same_team = not-false _ same_team;
      run_is = run_is;
      run_team = not-false _ run_team;
      run_open = run_open;
      step = h₇;
    }

decide_kind-task :
    (kind : EventType) (world : World) (q : Request) (current : Ledger) (registry : Fields)
    (lim : Limits) (payload : Fields) (lead_uid : Text) (who : Roles) (body : Option (List ℕ))
    (out : Fields)
    → changes kind ≡ true
    → decide_kind kind world q current registry lim payload lead_uid who body ≡ ok out
    → (decide_task q current registry lim payload lead_uid who ≡ ok tt) × (out ≡ payload)
unfolding decide_kind
decide_kind-task task_created world q current registry lim payload lead_uid who body out c h = cc
decide_kind-task run_requested world q current registry lim payload lead_uid who body out c h = cc
decide_kind-task run_closed world q current registry lim payload lead_uid who body out c h = cc
decide_kind-task _ world q current registry lim payload lead_uid who body out c h = ground arith

change_task-intro :
    (s : State) (e : Event) (ident : Text) (t u : Task) (run : Run)
    → as_str e.task_id ≡ some ident
    → lookup ident s.tasks ≡ some t
    → text_eq t.run_id e.run_id ≡ true
    → text_eq t.team_uid e.team_uid ≡ true
    → lookup e.run_id s.runs ≡ some run
    → text_eq run.team_uid t.team_uid ≡ true
    → is_closed run.state ≡ false
    → transition e.kind e t ≡ ok u
    → change_task s e ≡ ok (record s { tasks = insert ident (stamp e t u) s.tasks })
unfolding change_task expect raise_if
change_task-intro s e ident t u run a b c d f g h i = rw (a, b, c, d, f, g, h, i) refl

change_task-transition :
    (s s' : State) (e : Event) (ident : Text) (t : Task)
    → as_str e.task_id ≡ some ident
    → lookup ident s.tasks ≡ some t
    → change_task s e ≡ ok s'
    → (u : Task) × (transition e.kind e t ≡ ok u)
unfolding change_task
change_task-transition s s' e ident t named there h =
    let (i, i_is, h₁) = expect-eq-ok _ _ _ h in
    let (t', t_is, h₂) = expect-eq-ok _ _ _ h₁ in
    let (_, h₃) = guard-eq-ok _ _ _ h₂ in
    let (_, h₄) = guard-eq-ok _ _ _ h₃ in
    let (run, _, h₅) = expect-eq-ok _ _ _ h₄ in
    let (_, h₆) = guard-eq-ok _ _ _ h₅ in
    let (_, h₇) = guard-eq-ok _ _ _ h₆ in
    let (u, moved, _) = >>=-eq-ok _ _ h₇ in
    let there' =
      subst (λ x. lookup x s.tasks ≡ some t) (some-injective ident i (sym named ∙ i_is)) there in
    let same = some-injective t' t (sym t_is ∙ there') in
    (u, subst (λ x. transition e.kind e x ≡ ok u) same moved)

-- Let `decide`, on the view of a state, accept a request of a kind that changes a task. Then the request
-- names a task of the state, and the fold's handler applies the event that is committed for the request exactly
-- when the payload holds what the fold wants of it: for a report one of the four reports and a reason that is
-- missing or one line of at most 512 characters, for a cancellation such a reason, for a reassignment or a
-- reopening an assignee in the form of an identifier, for a start or an overdue task nothing. Where it is
-- applied, the task makes the transition of the kind and is stored stamped, and nothing else of the
-- state changes.
pub accepted_applies :
    (world : World) (q : Request) (status : Text) (highest : ℕ) (s : State) (registry : Fields)
    (body : Option (List ℕ)) (d : Decision) (e : Event)
    → changes q.event_type ≡ true
    → decide world q (view status highest s) registry body ≡ ok d
    → d.is_accepted ≡ true
    → IsCommitted q d.payload e
    → (ident : Text) × (t : Task) × (q.task_id ≡ some ident)
      × (lookup ident s.tasks ≡ some t)
      × (((s' : State) × (change_task s e ≡ ok s')) ↔ IsChecked q.event_type d.payload)
      × (IsChecked q.event_type d.payload ↔ (
          (u : Task) × (transition e.kind e t ≡ ok u)
          × (change_task s e ≡ ok (record s { tasks = insert ident (stamp e t u) s.tasks }))))
accepted_applies world q status highest s registry body d e c h a committed =
    let payload = put (codes "caller") (str q.caller) q.payload in
    let current = view status highest s in
    let acc = decide-IsAccepted world q current registry body d h a in
    let (decided, same) =
      decide_kind-task q.event_type world q current registry acc.lim payload acc.lead_uid _ body
        d.payload c acc.decided in
    let f = decide_task-FoundTask q current registry acc.lim payload acc.lead_uid decided in
    let committed' = subst (λ p. IsCommitted q p e) same committed in
    let (run, run_is, team, closed) =
      lookup-derive_runs_inv (values s.tasks) q.run_id s.runs f.run_is in
    let named : as_str e.task_id ≡ some f.ident =
      rw (committed.task_is f.ident f.ident_is) (unfold as_str in refl) in
    let applies : IsChecked q.event_type d.payload
        → (u : Task) × (transition e.kind e f.task ≡ ok u)
          × (change_task s e
              ≡ ok (record s { tasks = insert f.ident (stamp e f.task u) s.tasks })) =
      λ checked.
        let (u, moved) =
          step_agrees q payload e committed' q.event_type current registry acc.lim f.task
            acc.lead_uid (subst (IsChecked q.event_type) same checked) f.step in
        let moved' = subst (λ k. transition k e f.task ≡ ok u) (sym committed.kind_is) moved in
        (
          u,
          moved',
          change_task-intro s e f.ident f.task u run named f.task_is
              (rw committed.run_is f.same_run) (rw committed.team_is f.same_team)
              (rw committed.run_is run_is) (rw (← team) f.run_team) (sym closed ∙ f.run_open)
              moved',
        ) in
    let needs : (s' : State) → change_task s e ≡ ok s' → IsChecked q.event_type d.payload =
      λ s' applied.
        let (u, moved) = change_task-transition s s' e f.ident f.task named f.task_is applied in
        subst₂ IsChecked committed.kind_is committed.payload_is
          (transition-IsChecked e.kind e f.task moved) in
    (
      f.ident,
      f.task,
      f.ident_is,
      f.task_is,
      (
        (λ x. needs x.0 x.1),
        (λ (checked : IsChecked q.event_type d.payload).
            let (u, _, applied) = applies checked in
            (record s { tasks = insert f.ident (stamp e f.task u) s.tasks }, applied)),
      ),
      (applies, (λ x. needs _ x.2)),
    )
