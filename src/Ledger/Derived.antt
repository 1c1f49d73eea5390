-- ===== src/Ledger/Derived.antt =====
-- The derived states of the runs: the fold's result against its last state.
use ai_bobnet.Json.{Fields}
use ai_bobnet.Base.{
  values, ok-injective, refl, ap, >>=-eq-ok, sym, ok, true, Option, text_eq_iff, ◌∙◌, none, some,
  arith, false, ◌≡◌, ℕ, Text, List, lookup, [], ◌∷◌, Dict,
}
use ai_bobnet.Ledger.Types.{Run, Invalid, Task, is_closed}
use ai_bobnet.Ledger.Fold.{
  fold_events, children_of, Ledger, empty_state, fold, derive_run, derived_state, derive_runs,
}
use mathlib.Core.Option.{some-injective}
use ai_bobnet.Ledger.Invariant.{fold_events-IsValid, IsHome, IsValid}

derived-open : (children : List Task) → is_closed (derived_state children) ≡ false
unfolding derived_state is_closed
derived-open children = ground arith

-- The derivation changes neither the team of a run nor whether it is closed.
pub derive_run-same :
    (tasks : List Task) (k : Text) (run : Run)
    → ((derive_run tasks k run).team_uid ≡ run.team_uid)
      × (is_closed (derive_run tasks k run).state ≡ is_closed run.state)
unfolding derive_run
derive_run-same tasks k run = ground (arith, derived-open (children_of k tasks))

pub lookup-derive_runs :
    (tasks : List Task) (k : Text) (runs : Dict Run) (run : Run)
    → lookup k runs ≡ some run
    → lookup k (derive_runs tasks runs) ≡ some (derive_run tasks k run)
unfolding lookup derive_runs
lookup-derive_runs tasks k [] run h = cc
lookup-derive_runs tasks k ((j, v) ∷ runs) run h =
    ground (arith, text_eq_iff j k, lookup-derive_runs tasks k runs run)

missing :
    (tasks : List Task) (k : Text) (runs : Dict Run) (run : Run)
    → lookup k runs ≡ none
    → lookup k (derive_runs tasks runs) ≡ some run
    → ⊥
unfolding lookup derive_runs
missing tasks k [] run p h = cc
missing tasks k ((j, v) ∷ runs) run p h = ground (arith, missing tasks k runs run)

-- and back
pub lookup-derive_runs_inv :
    (tasks : List Task) (k : Text) (runs : Dict Run) {run : Run}
    → lookup k (derive_runs tasks runs) ≡ some run
    → (old : Run) × (lookup k runs ≡ some old)
      × (run.team_uid ≡ old.team_uid)
      × (is_closed run.state ≡ is_closed old.state)
lookup-derive_runs_inv tasks k runs {run} h = go (lookup k runs) refl
  where
    go :
        (o : Option Run)
        → lookup k runs ≡ o
        → (old : Run) × (lookup k runs ≡ some old)
          × (run.team_uid ≡ old.team_uid)
          × (is_closed run.state ≡ is_closed old.state)
    go none p = absurd (missing tasks k runs run p h)
    go (some old) p =
        let same = derive_run-same tasks k old in
        let e = some-injective _ _ (sym (lookup-derive_runs tasks k runs old p) ∙ h) in
        (
          old,
          p,
          ap (λ (x : Run). x.team_uid) (sym e) ∙ same.0,
          ap (λ (x : Run). is_closed x.state) (sym e) ∙ same.1,
        )

derived-IsHome :
    (tasks : List Task) (runs : Dict Run) (t : Task)
    → IsHome runs t
    → IsHome (derive_runs tasks runs) t
derived-IsHome tasks runs t h =
    let same = derive_run-same tasks t.run_id h.run in
    record {
      run = derive_run tasks t.run_id h.run;
      found = lookup-derive_runs tasks t.run_id runs h.run h.found;
      team = same.0 ∙ h.team;
      settled = λ (c : is_closed (derive_run tasks t.run_id h.run).state ≡ true).
          h.settled (sym same.1 ∙ c);
    }

empty-IsValid : (bad : List Invalid) → IsValid (empty_state bad).runs (empty_state bad).tasks
unfolding lookup
empty-IsValid bad = record {
  home = λ k t h. absurd (cc h);
  key = λ k t h. cc h;
  sound = λ k t h. absurd (cc h);
}

-- Whatever the records, a fold that returns returns a ledger with the invariant: every task stands
-- under its own id and in a run of its team that the ledger lists, a closed run has no open task, and
-- each task's counters agree and its gate is respected.
pub fold-IsValid :
    (status : Text) (highest : ℕ) (events : List (ℕ × Fields)) (bad : List Invalid) {l : Ledger}
    → fold status highest events bad ≡ ok l
    → IsValid l.runs l.tasks
unfolding fold
fold-IsValid status highest events bad {l} h =
    let (s, folded, viewed) = >>=-eq-ok (fold_events (empty_state bad) events) _ h in
    let valid = fold_events-IsValid (empty_state bad) events (empty-IsValid bad) folded in
    rw (← ok-injective viewed) (record {
      home = λ k t found. derived-IsHome (values s.tasks) s.runs t (valid.home k t found);
      key = valid.key;
      sound = valid.sound;
    })
