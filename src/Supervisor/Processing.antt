-- ===== src/Supervisor/Processing.antt =====
-- `process_controls` of lib/aib_supervisor.py over all candidates.
use ai_bobnet.Supervisor.ControlRecovery.{reject_control-IsOrderly, HasNumber, IsOrderly}
use ai_bobnet.Supervisor.Controls.{
  crashed, skipped, granted, judge, refused, Verdict, Authority, Candidate,
}
use ai_bobnet.Supervisor.ProcessRecovery.{
  accept-IsRecovered, judge-Numbered, NamesNumbered, TurnsRecover,
}
use ai_bobnet.Supervisor.Recovered.{IsRecovered, Leaves, AreQuiet}
use ai_bobnet.Supervisor.Sessions.{Surroundings}
use ai_bobnet.Supervisor.Machine.{broke, reject_control, went, Machine, Ran, Setting}
use ai_bobnet.Supervisor.Handling.{
  handle, ends, goes_on, continues, Handled, Turning, process_controls, carry_out,
}
use ai_bobnet.Base.{All, List, ◌<◌, [], ◌∷◌}

module _ (s : Setting) (o : Surroundings) (quiet : AreQuiet s o) (t : Turning)
    (turns : TurnsRecover s t) (positive : 0 < s.burst) where
  abbrev GoesOn : Handled → Type 0
  GoesOn (continues m) = IsOrderly s m
  GoesOn (ends r) = Leaves s (IsRecovered s) r

  goes_on-GoesOn : (r : Ran) → Leaves s (IsOrderly s) r → GoesOn (goes_on r)
  goes_on-GoesOn (went m) ok = ok
  goes_on-GoesOn (broke m) ok = ok.0

  carry_out-GoesOn :
      (c : Candidate) (m : Machine) (v : Verdict)
      → NamesNumbered v
      → IsOrderly s m
      → GoesOn (carry_out s o t c m v)
  unfolding carry_out
  carry_out-GoesOn c m skipped n ok = ok
  carry_out-GoesOn c m (refused r reason caller) n ok =
      goes_on-GoesOn (reject_control s r reason caller m)
        (reject_control-IsOrderly s r reason caller n.0 m n.1 ok)
  carry_out-GoesOn c m (granted r caller) n ok =
      accept-IsRecovered s o quiet t turns positive c caller r m n ok
  carry_out-GoesOn c m crashed n ok = ok.0

  process_controls-keeps :
      (a : Authority) (candidates : List Candidate) (m : Machine)
      → IsRecovered s m
      → All HasNumber m.control_log.lines
      → Leaves s (IsRecovered s) (process_controls s o t a candidates m)
  unfolding process_controls handle
  process_controls-keeps a [] m ok numbered = ok
  process_controls-keeps a (c ∷ candidates) m ok numbered =
      next (handle s o t a c m) handled (λ m' ok. process_controls-keeps a candidates m' ok.0 ok.1)
    where
      handled : GoesOn (handle s o t a c m)
      handled =
          carry_out-GoesOn c m (judge s a c m) (judge-Numbered s a c m numbered) (ok, numbered)

      next :
          (h : Handled)
          → GoesOn h
          → ((m' : Machine)
              → IsOrderly s m'
              → Leaves s (IsRecovered s) (process_controls s o t a candidates m'))
          → Leaves s
              (IsRecovered s)
              (elim h [ continues m' ↦ process_controls s o t a candidates m' | ends r ↦ r ])
      next (continues m') ok later = later m' ok
      next (ends r) ok later = ok

-- The calls of `cancel_turn` and `start_turn` end the run that is looked at.
abbrev pub up_to_turns : Turning
up_to_turns = record { cancel_turn = λ m. broke m; start_turn = λ work m. broke m }

-- Whatever candidates are found: after all of them, or where an exception ends the loop, or where a request has
-- a turn started or cancelled, the supervisor's journal still replays to its memory, which stays well formed, if
-- it did before. The entries of the control log have ints for their numbers, the brake's limit is positive, notes and
-- alarms journal only what `restore` passes over, and the writes of the journal succeed; what follows the start or
-- the cancellation of a turn is not looked at.
pub process_controls-IsRecovered :
    (s : Setting) (o : Surroundings)
    → AreQuiet s o
    → 0 < s.burst
    → (a : Authority) (candidates : List Candidate) (m : Machine) → IsRecovered s m
    → All HasNumber m.control_log.lines
    → Leaves s (IsRecovered s) (process_controls s o up_to_turns a candidates m)
process_controls-IsRecovered s o quiet positive =
    process_controls-keeps s o quiet up_to_turns
      (record { cancels = λ m ok. ok; starts = λ work m ok. ok }) positive
