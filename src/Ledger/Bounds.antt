-- ===== src/Ledger/Bounds.antt =====
-- The limits of a team across a decision and the event that follows it.
use mathlib.Core.Path.{subst}
use ai_bobnet.Base.{
  not-false, text_eq, ◌&&◌, ◌∙◌, sym, ok-injective, some, ◌≤◌, if◌then◌else◌, >>=-eq-ok, true,
  arith, sum_of, count_of, ◌+◌, ok, false, none, ◌≡◌, codes, any, List, ◌<◌, Option, leb, Dict,
  Text, Bool, ℕ, contains, values, insert, lookup, [], ◌∷◌, expect-eq-ok, guard-eq-ok,
}
use ai_bobnet.Json.{get_or, str, put, is_str, get, Fields}
use ai_bobnet.Ledger.Types.{is_open_limit, task_created, Event, Task, State}
use ai_bobnet.Ledger.Fold.{view, Ledger, create_task}
use ai_bobnet.Ledger.Decide.{
  decide_kind, roles, decide, same_work, assignments_in, Roles, open_count, decide_create, World,
}
use ai_bobnet.Ledger.Requests.{Decision, Request}
use ai_bobnet.Ledger.Registry.{limits, valid_assignee, Limits}
use ai_bobnet.Ledger.Accepted.{decide-IsAccepted, IsAccepted}
use ai_bobnet.Ledger.Steps.{base_task-IsBase, create_task-Created}

count-insert_fresh :
    (p : Task → Bool) (k : Text) (t : Task) (d : Dict Task)
    → lookup k d ≡ none
    → count_of p (values (insert k t d)) ≡ count_of p (values d) + (if p t then 1 else 0)
unfolding lookup insert values
count-insert_fresh p k t [] h = omega arith
count-insert_fresh p k t ((j, w) ∷ d) h = ground (arith, count-insert_fresh p k t d)

sum-insert_fresh :
    (f : Task → ℕ) (k : Text) (t : Task) (d : Dict Task)
    → lookup k d ≡ none
    → sum_of f (values (insert k t d)) ≡ sum_of f (values d) + f t
unfolding lookup insert values
sum-insert_fresh f k t [] h = omega arith
sum-insert_fresh f k t ((j, w) ∷ d) h = ground (arith, sum-insert_fresh f k t d)

-- What an accepted creation has found.
pub record Room (q : Request) (current : Ledger) (lim : Limits) (payload : Fields) : Type 0 where
  pub below_open : open_count q.team_uid (values current.tasks) < lim.max_open
  pub below_run : assignments_in q.run_id (values current.tasks) < lim.max_tasks_per_run
  pub not_twice :
      any
        (same_work (get (codes "source_msg_id") payload) (get (codes "assignee") payload))
        (values current.tasks)
      ≡ false
  pub no_gate : is_str (get (codes "gate") payload) (codes "none") ≡ true

not_leb : (a b : ℕ) → leb a b ≡ false → b < a
not_leb a b h = ground arith

decide_create-Room :
    (world : World) (q : Request) (current : Ledger) (registry : Fields) (lim : Limits)
    (payload : Fields) (who : Roles) (body : Option (List ℕ)) {out : Fields}
    → decide_create world q current registry lim payload who body ≡ ok out
    → Room q current lim payload
unfolding decide_create
decide_create-Room world q current registry lim payload who body h₀ =
    let (_, h₁) = guard-eq-ok _ _ _ h₀ in
    let (_, _, h₂) = expect-eq-ok _ _ _ h₁ in
    let (_, h₃) = guard-eq-ok _ _ _ h₂ in
    let (_, h₄) = guard-eq-ok _ _ _ h₃ in
    let (_, h₅) = guard-eq-ok _ _ _ h₄ in
    let (gate, h₆) = guard-eq-ok _ _ _ h₅ in
    let (_, h₇) = guard-eq-ok _ _ _ h₆ in
    let (_, _, h₈) =
      >>=-eq-ok (valid_assignee registry (get_or (codes "assignee") (str []) payload) q.team_uid) _
        h₇ in
    let (once, h₉) = guard-eq-ok _ _ _ h₈ in
    let (opened, h₁₀) = guard-eq-ok _ _ _ h₉ in
    let (used, h₁₁) = guard-eq-ok _ _ _ h₁₀ in
    record {
      below_open = not_leb _ _ opened;
      below_run = not_leb _ _ used;
      not_twice = once;
      no_gate = not-false _ gate;
    }

fresh_lookup : (k : Text) (d : Dict Task) → contains k d ≡ false → lookup k d ≡ none
unfolding contains
fresh_lookup k d h = ground arith

accepted-Room :
    (world : World) (q : Request) (current : Ledger) (registry : Fields) (body : Option (List ℕ))
    (d : Decision)
    → q.event_type ≡ task_created
    → (acc : IsAccepted world q current registry body d)
    → Room q current acc.lim (put (codes "caller") (str q.caller) q.payload)
unfolding decide_kind
accepted-Room world q current registry body d kind acc =
    decide_create-Room world q current registry acc.lim
      (put (codes "caller") (str q.caller) q.payload)
      (roles q (put (codes "caller") (str q.caller) q.payload) acc.lead_uid) body
      (subst
        (λ k.
          decide_kind k world q current registry acc.lim
            (put (codes "caller") (str q.caller) q.payload) acc.lead_uid
            (roles q (put (codes "caller") (str q.caller) q.payload) acc.lead_uid) body
          ≡ ok d.payload)
        kind acc.decided)

one_more : (b : Bool) (n m k : ℕ) → n < m → k ≡ n + (if b then 1 else 0) → k ≤ m
one_more b n m k h e = ground arith

one_assignment : (b : Bool) (a n m k : ℕ) → a ≡ 1 → n < m → k ≡ n + (if b then a else 0) → k ≤ m
one_assignment b a n m k one h e = ground arith

-- When `decide`, on the view of a state, accepts the creation of a task, and the fold's handler takes
-- an event of creation on that state, the open tasks of the request's team and the assignments of its
-- run are afterwards within the limits that the registry has for the team.
pub create_within_limits :
    (world : World) (q : Request) (status : Text) (highest : ℕ) (s s' : State) (registry : Fields)
    (body : Option (List ℕ)) (d : Decision) (e : Event) (lim : Limits)
    → q.event_type ≡ task_created
    → decide world q (view status highest s) registry body ≡ ok d
    → d.is_accepted ≡ true
    → limits world.unicode_digit registry q.team_uid ≡ ok lim
    → create_task s e ≡ ok s'
    → (open_count q.team_uid (values s'.tasks) ≤ lim.max_open)
      × (assignments_in q.run_id (values s'.tasks) ≤ lim.max_tasks_per_run)
create_within_limits world q status highest s s' registry body d e lim kind h a limits_are made =
    let acc = decide-IsAccepted world q (view status highest s) registry body d h a in
    let room = accepted-Room world q (view status highest s) registry body d kind acc in
    let c = create_task-Created s e made in
    let b = base_task-IsBase e.team_uid e.fields e.payload c.task_is in
    let fresh = fresh_lookup c.ident s.tasks c.fresh in
    let new = record c.task {
      created_seq = some e.seq;
      last_seq = some e.seq;
      state_seq = some e.seq;
    } in
    let same = ok-injective (sym acc.limits_are ∙ limits_are) in
    rw (← c.result, ← same)
      (
        one_more _ _ _ _ room.below_open (
            count-insert_fresh (λ t. is_open_limit t.state && text_eq t.team_uid q.team_uid) c.ident
              new s.tasks fresh),
        one_assignment _ _ _ _ _ b.counters_are.0 room.below_run (
            sum-insert_fresh (λ t. if text_eq t.run_id q.run_id then t.assignments else 0) c.ident
              new s.tasks fresh),
      )
