-- ===== src/Supervisor/Results.antt =====
-- `_finish_result` of lib/aib_supervisor.py: the good turn, and the choice between the branches.
use mathlib.Core.Option.{none}
use ai_bobnet.Supervisor.Turns.{
  finish_lost, finish_in_use, finish_failure, finish_infra, end_turn, is_code, not_kept,
}
use ai_bobnet.Supervisor.Sessions.{rotated, bind_session, Settled, Surroundings}
use ai_bobnet.Supervisor.Restore.{healed}
use ai_bobnet.Json.{end, get, int, field, negsuc, null, Fields, pos, ℤ}
use ai_bobnet.Supervisor.Memory.{Core}
use ai_bobnet.Supervisor.Machine.{
  message_command, message, heartbeat, rotation, at, done_control, handover, transcript, afterwards,
  routine, output, went, journal, Ran, Work, set_state, Setting, Machine,
}
use ai_bobnet.Base.{
  ends_with, has_part, ◌||◌, ◌&&◌, true, text_eq, none, starts_with, some, length, false, ◌++◌,
  decimal, ◌+◌, not, ◌==◌, if◌then◌else◌, codes, ℕ, Bool, Option, Text, [], ◌∷◌,
}

-- `self.set_state("READY", …)`
unfoldable pub set_ready : Machine → Machine
set_ready m =
    set_state (codes "READY") (if m.core.persistence_failure_streak == 0 then [] else not_kept) m

abbrev pub is_resumed : Text → Bool
is_resumed session_arg = not (starts_with (codes "new:") session_arg)

-- the streak of lost sessions that a good turn in a resumed session ends
abbrev pub restored_streak : Text → Core → ℕ
restored_streak session_arg c = if is_resumed session_arg then c.persistence_failure_streak else 0

-- what a good turn does to the brake
unfoldable pub release_brake : Text → Core → Core
release_brake session_arg c =
    let released = record c { brake_consecutive = pos 0; brake_tripped_at = null } in
    if c.persistence_failure_streak == 0
    then released
    else if is_resumed session_arg
    then record released { persistence_failure_streak = 0; persistence_episode = none }
    else c

unfoldable pub count_turn : Core → Core
count_turn c = record (healed c) { turns_in_session = c.turns_in_session + 1 }

-- the end of the routine of a control request
unfoldable pub settle_routine : Setting → Text → Fields → Machine → Ran
settle_routine s action request m =
    if text_eq action (codes "feierabend")
    then afterwards
        (done_control s request (codes "off_duty") (
          set_state (codes "WAITING") (codes "off_duty")
            (record (journal s (codes "duty.off")
              (field (codes "req") (get (codes "seq") request) end)
              (record m { core = record m.core { off_duty = true } })) { work = none })))
        (λ m'. went (record m' { retry_at = at s.now }))
    else if text_eq action (codes "standup")
    then afterwards
        (done_control s request (codes "ready")
          (set_ready (record m { core = record m.core { off_duty = false }; work = none })))
        (λ m'. went (record m' { retry_at = at s.now }))
    else went
        (record (heartbeat (codes "idle") (codes "supervisor ready")
          (set_ready (record m { work = none }))) { retry_at = at s.now })

-- what comes after a good turn
unfoldable pub settle_work : Setting → Work → Machine → Ran
settle_work s (routine id action request) m = settle_routine s action request m
settle_work s (handover id resume) m =
    went (record (set_ready (record m { work = some resume })) { retry_at = at s.now })
settle_work s (rotation id queued) m =
    went (record (bind_session s (rotated s (codes "max_turns") m.core.session_id m)) {
      work = some queued;
      retry_at = at s.now;
    })
settle_work s (message id task) m =
    went
      (record (heartbeat (codes "idle") (codes "supervisor ready")
        (set_ready (record (message_command (codes "done" ∷ id ∷ []) m) { work = none }))) {
          retry_at = at s.now;
        })

-- the record of the end of a streak of lost sessions
unfoldable pub tell_restored : Setting → ℕ → Machine → Machine
tell_restored s streak m =
    if streak == 0
    then m
    else journal s (codes "session.persistence_restored")
        (field (codes "sid") m.core.session_id (field (codes "previous") (int (pos streak)) end)) m

-- a good turn
unfoldable pub finish_ok : Setting → Surroundings → Work → Text → Text → ℤ → Bool → Machine → Ran
finish_ok s o work session_arg attempt_id rc is_handled m =
    let streak = restored_streak session_arg m.core in
    let counted = record m {
      infra_since = none;
      core = count_turn (release_brake session_arg m.core);
    } in
    settle_work s work (
      tell_restored s streak (
        o.missing_report work attempt_id is_handled
          (end_turn s work attempt_id (codes "ok") rc false none counted)))

-- the classes of a result
pub data ResultClass : Type 0 where
  good infra failed : ResultClass

unfoldable pub result_class : ℤ → Bool → Bool → Option Text → ResultClass
result_class rc has_output login_hint (some refusal) = failed
result_class rc has_output login_hint none =
    if is_code rc 0 && has_output
    then good
    else if (is_code rc 75 || is_code rc 78 || is_code rc 69)
        || (is_code rc 0 && not has_output)
        || login_hint
    then infra
    else failed

abbrev signed : ℤ → Text
signed (pos n) = decimal n
signed (negsuc n) = b'-' ∷ decimal (n + 1)

-- `f"provider failure rc={rc}"`, with the reason
unfoldable pub failure_detail : ℤ → Option Text → Text
failure_detail rc none = codes "provider failure rc=" ++ signed rc
failure_detail rc (some reason) =
    codes "provider failure rc=" ++ signed rc ++ codes " reason=" ++ reason

unfoldable pub finish_class :
    Setting
    → Surroundings
    → ResultClass
    → Work
    → Text
    → Text
    → ℤ
    → Bool
    → Bool
    → Option Text
    → Machine
    → Ran
finish_class s o good work session_arg attempt_id rc login_hint is_handled refusal m =
    finish_ok s o work session_arg attempt_id rc is_handled m
finish_class s o infra work session_arg attempt_id rc login_hint is_handled refusal m =
    went (finish_infra s o work attempt_id rc login_hint m)
finish_class s o failed work session_arg attempt_id rc login_hint is_handled refusal m =
    went (finish_failure s o work attempt_id rc (failure_detail rc refusal) refusal m)

abbrev is_given : Option Text → Bool
is_given none = false
is_given (some _) = true

-- the provider failed, and says this
abbrev says : Setting → Option Text → Settled → Text → Bool
says s refusal done part =
    (not (is_given refusal) && not (is_code done.rc 0)) && has_part part (s.lower done.output)

abbrev pub is_in_use : Setting → Text → Option Text → Settled → Bool
is_in_use s session_arg refusal done =
    not (is_resumed session_arg) && says s refusal done (codes "already in use")

abbrev pub is_lost : Setting → Text → Option Text → Settled → Bool
is_lost s session_arg refusal done =
    is_resumed session_arg && says s refusal done (codes "no conversation found")

abbrev pub has_login_hint : Setting → Settled → Bool
has_login_hint s done = is_code done.rc 78 && has_part (codes "hint:login") (s.lower done.output)

abbrev pub class_of : Setting → Option Text → Settled → ResultClass
class_of s refusal done =
    result_class done.rc (not (length done.output == 0)) (has_login_hint s done) refusal

-- after the task part
unfoldable pub finish_settled :
    Setting → Surroundings → Work → Text → Text → Option Text → Settled → Ran
finish_settled s o work session_arg attempt_id refusal done =
    if is_in_use s session_arg refusal done
    then went (finish_in_use s work attempt_id done.rc done.machine)
    else if is_lost s session_arg refusal done
    then finish_lost s o work attempt_id done.rc done.machine
    else finish_class s o (class_of s refusal done) work session_arg attempt_id done.rc
        (has_login_hint s done) done.is_handled refusal done.machine

-- `append_transcript`
unfoldable pub append_transcript : Text → Machine → Machine
append_transcript text m =
    if length text == 0
    then m
    else output (transcript (if ends_with (codes "\n") text then text else text ++ codes "\n")) m

-- `_finish_result`
unfoldable pub finish_result :
    Setting → Surroundings → ℤ → Text → Work → Text → Text → Option Text → Machine → Ran
finish_result s o rc text work session_arg attempt_id refusal m =
    finish_settled s o work session_arg attempt_id refusal
      (o.apply_intents work attempt_id rc text (append_transcript text m))
