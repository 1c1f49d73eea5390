-- ===== src/Supervisor/Sessions.antt =====
-- The sessions of lib/aib_supervisor.py: `bind_session`, `rotate_with_note`,
-- `begin_session_loss_handover`, `check_cwd_binding`; and what the modelled code calls of the rest of the class.
use ai_bobnet.Supervisor.Memory.{truthy}
use ai_bobnet.Json.{value_eq, end, str, field, Value, ℤ}
use ai_bobnet.Supervisor.Machine.{handover, broke, went, Work, Ran, journal, Setting, Machine}
use ai_bobnet.Base.{true, not, ◌++◌, ◌&&◌, some, if◌then◌else◌, codes, Bool, Text}

-- What the turn's task part leaves: the state, the exit code, the output, and whether the intents are handled.
pub record Settled : Type 0 where
  pub machine : Machine
  pub rc : ℤ
  pub output : Text
  pub is_handled : Bool

-- The parts of the class that the modelled ones call: `write_alarm` by the alarm's kind,
-- `add_handover_note` (false: it raises), and what the end of a turn does for a task: its intents, its
-- missing report, its failure.
pub record Surroundings : Type 0 where
  pub write_alarm : Text → Machine → Machine
  pub add_handover_note : Text → Value → Machine → Machine × Bool
  pub apply_intents : Work → Text → ℤ → Text → Machine → Settled
  pub missing_report : Work → Text → Bool → Machine → Machine
  pub service_fail : Work → Text → Machine → Machine

-- `bind_session`
unfoldable pub bind_session : Setting → Machine → Machine
bind_session s m =
    journal s (codes "session.bound")
      (field (codes "agent") (str s.uid)
        (field (codes "sid") (str s.new_id) (field (codes "cwd") (str s.active_cwd) end)))
      (record m {
        core = record m.core {
          session_id = str s.new_id;
          session_cwd = str s.active_cwd;
          session_new = true;
          turns_in_session = 0;
        };
      })

-- `bind_session(rebound_from=…, rebound=True)`
unfoldable pub rebind_session : Setting → Value → Machine → Machine
rebind_session s previous m = bind_session s (
    journal s (codes "session.rebound")
      (field (codes "sid") (str s.new_id)
        (field (codes "prev_sid") previous (field (codes "cwd") (str s.active_cwd) end)))
      m)

abbrev pub rotated : Setting → Text → Value → Machine → Machine
rotated s reason previous m =
    journal s (codes "session.rotated")
      (field (codes "reason") (str reason) (field (codes "prev_sid") previous end)) m

-- `rotate_with_note`
unfoldable pub rotate_with_note : Setting → Surroundings → Text → Machine → Ran
rotate_with_note s o reason m =
    let previous = m.core.session_id in
    let (m', is_sent) = o.add_handover_note reason previous m in
    if is_sent then went (bind_session s (rotated s reason previous m')) else broke m'

-- `begin_session_loss_handover`, with the handover's identifier
unfoldable pub begin_session_loss_handover : Setting → Work → Machine → Machine
begin_session_loss_handover s queued m =
    let m' = bind_session s (rotated s (codes "unknown_sid") m.core.session_id m) in
    record m' { work = some (handover (codes "handover-session-loss-" ++ s.handover_id) queued) }

-- `check_cwd_binding`
unfoldable pub check_cwd_binding : Setting → Surroundings → Machine → Ran
check_cwd_binding s o m =
    let previous = m.core.session_id in
    let (m', is_sent) = o.add_handover_note (codes "cwd_changed") previous m in
    if truthy previous && not (value_eq m.core.session_cwd (str s.active_cwd))
    then (if is_sent then went (rebind_session s previous m') else broke m')
    else went m
