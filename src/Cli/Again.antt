-- ===== src/Cli/Again.antt =====
-- The same request once more, after `main` of lib/task_cli.py has answered it.
use mathlib.Core.Path.{subst}
use ai_bobnet.Cli.Locked.{commits, dies, replays, locked-IsLocked, Answered}
use ai_bobnet.Ledger.Fold.{Ledger}
use ai_bobnet.Ledger.Reading.{Rows}
use ai_bobnet.Ledger.Requests.{reason_name, Decision}
use ai_bobnet.Cli.Once.{committed-DecidedOnce, DecidedOnce, Appends}
use ai_bobnet.Cli.Run.{replayed_rejection, lift, duplicate, Outcome, locked, System}
use ai_bobnet.Json.{str, Value}
use ai_bobnet.Cli.Replay.{Replay, Submission}
use ai_bobnet.Base.{
  ok-injective, sym, ap, ℕ, ok, List, ◌==◌, length, true, false, ◌≡◌, Text, Option,
}
use ai_bobnet.Ledger.Types.{Checked}

-- What the command line says on the replay of a decision: a duplicate of an accepted one; of any other the reason that
-- was decided then, as Python prints it.
abbrev pub IsReplayOf : (Value → Text) → Decision → Outcome → Type 0
IsReplayOf text_of d (duplicate event_id) = d.is_accepted ≡ true
IsReplayOf text_of d (replayed_rejection reason) =
    (d.is_accepted ≡ false) × (reason ≡ text_of (str (reason_name d.reason)))
IsReplayOf text_of d _ = ⊥

lift-ok : {A : Type 0} {m : Checked A} {a : A} → m ≡ ok a → lift m ≡ ok a
lift-ok h = ap lift h

module _ (sys : System) (rows : Rows) (sub : Submission) (body : Option (List ℕ))
    (appends : Appends sys) (names_causation : (length sub.request.causation_id == 0) ≡ false) where
  answered-DecidedOnce :
      (current : Ledger) (out : Outcome) (after : Rows)
      → DecidedOnce rows
      → Answered sys rows sub body current out after
      → DecidedOnce after
  answered-DecidedOnce current out after once (replays r found said same) = rw same once
  answered-DecidedOnce current out after once (dies status said same) = rw same once
  answered-DecidedOnce current out after once (commits d c fresh made written said same) =
      rw same (committed-DecidedOnce sys appends rows sub d c names_causation written fresh once)

  -- On rows where no causation has two records, a locked run that returns, with a causation that is
  -- not empty, leaves rows where none has two.
  pub locked-DecidedOnce :
      DecidedOnce rows
      → (done : Outcome × Rows) → locked sys (ok rows) sub body ≡ ok done
      → DecidedOnce done.1
  locked-DecidedOnce once done h =
      let l = locked-IsLocked sys (ok rows) sub body h in
      let same = ok-injective l.stream_is in
      answered-DecidedOnce l.current done.0 done.1 once
        (subst (λ rs. Answered sys rs sub body l.current done.0 done.1) (sym same) l.answered)
