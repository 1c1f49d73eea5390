-- ===== src/Supervisor/Turns.antt =====
-- How a turn ends: `end_turn` of lib/aib_supervisor.py, and the branches of `_finish_result` for a
-- session that is in use or lost, for a good turn, an outage and a failure.
use Prim.Native.Nat.{zero}
use ai_bobnet.Supervisor.Restore.{healed}
use ai_bobnet.Supervisor.Sessions.{rotate_with_note, begin_session_loss_handover, Surroundings}
use ai_bobnet.Json.{Value, null, int, negsuc, str, bool, is_null, end, field, pos, Fields, ℤ}
use ai_bobnet.Supervisor.Machine.{
  is_synthetic, rotation, handover, never, afterwards, done_control, heartbeat, went, at, routine,
  message, set_state, work_id, message_command, Ran, journal, Machine, Work, Setting,
}
use ai_bobnet.Supervisor.Memory.{without_session, remove, count_at, at_least, Core}
use ai_bobnet.Base.{
  ◌++◌, ◌-◌, ◌==◌, not, ◌&&◌, ◌^◌, leb, ◌*◌, suc, ◌||◌, insert, true, some, none, ◌/◌, false, min,
  ◌+◌, codes, ℕ, if◌then◌else◌, Text, Option, Bool, [], ◌∷◌,
}

-- what a good or failed session has to say: a mark of the login, a reason
abbrev pub hinted : Bool → Fields → Fields
hinted login_hint rest = if login_hint then field (codes "login_hint") (bool true) rest else rest

abbrev pub reasoned : Option Text → Fields
reasoned none = end
reasoned (some reason) = field (codes "reason") (str reason) end

abbrev pub ended_fields : Core → Text → Text → Text → ℤ → Bool → Option Text → Fields
ended_fields c id attempt_id name rc login_hint reason = field (codes "msg_id") (str id) (
    field (codes "sid") c.session_id (
      field (codes "attempt_id") (str attempt_id) (
        field (codes "class") (str name) (
          field (codes "rc") (int rc) (
            field (codes "brake") (int c.brake_consecutive) (
              field (codes "tripped_at") c.brake_tripped_at
                (hinted login_hint (reasoned reason))))))))

-- `end_turn`
unfoldable pub end_turn : Setting → Work → Text → Text → ℤ → Bool → Option Text → Machine → Machine
end_turn s work attempt_id name rc login_hint reason m =
    journal s (codes "turn.ended")
      (ended_fields m.core (work_id work) attempt_id name rc login_hint reason) m

-- `n + 1`
abbrev pub plus_one : ℤ → ℤ
plus_one (pos n) = pos (n + 1)
plus_one (negsuc zero) = pos 0
plus_one (negsuc (suc n)) = negsuc n

-- `self.brake_consecutive += 1`, and the time of tripping at the limit
unfoldable pub count_failure : Setting → Core → Core
count_failure s c =
    let n = plus_one c.brake_consecutive in
    record c {
      brake_consecutive = n;
      brake_tripped_at = if at_least n s.burst then str s.utc else c.brake_tripped_at;
    }

-- `min(backoff_cap, backoff_base * 2 ** (n - 1))`
unfoldable pub backoff : Setting → ℤ → ℕ
backoff s (pos zero) = min s.backoff_cap (s.backoff_base / 2)
backoff s (pos (suc n)) = min s.backoff_cap (s.backoff_base * 2 ^ n)
backoff s (negsuc n) = min s.backoff_cap (s.backoff_base / 2 ^ (n + 2))

-- What both failures end with: the brake's alarm, or the wait for the next try.
unfoldable pub settle_brake : Setting → Surroundings → Text → Machine → Machine
settle_brake s o reason m =
    if is_null m.core.brake_tripped_at
    then record (set_state (codes "WAITING") reason m) {
      retry_at = at (s.now + backoff s m.core.brake_consecutive);
    }
    else record (heartbeat (codes "blocked") (codes "supervisor provider-failure brake tripped")
        (set_state (codes "FAILED") (codes "brake") (o.write_alarm (codes "brake_tripped") m))) {
          retry_at = never;
        }

-- a new session that is already in use
unfoldable pub finish_in_use : Setting → Work → Text → ℤ → Machine → Machine
finish_in_use s work attempt_id rc m =
    record (end_turn s work attempt_id (codes "session_in_use") rc false none m) {
      retry_at = at s.now;
    }

abbrev pub not_kept : Text
not_kept = codes "session_persistence_unavailable"

-- the episode that has begun, or the one that begins with this attempt
abbrev pub begin_episode : Text → Option Text → Option Text
begin_episode attempt_id none = some attempt_id
begin_episode attempt_id (some e) = some e

abbrev pub or_null : Option Text → Value
or_null none = null
or_null (some e) = str e

-- the second loss in a row, up to the record of it
unfoldable pub fail_persistence : Setting → Text → Core → Core
fail_persistence s attempt_id c = count_failure s (record (healed c) {
  persistence_failure_streak = c.persistence_failure_streak + 1;
  persistence_episode = begin_episode attempt_id c.persistence_episode;
})

-- the fields of session.persistence_failed
abbrev pub failed_fields : Core → Text → Fields
failed_fields c id = field (codes "msg_id") (str id) (
    field (codes "sid") c.session_id (
      field (codes "reason") (str not_kept) (
        field (codes "brake") (int c.brake_consecutive) (
          field (codes "tripped_at") c.brake_tripped_at (
            field (codes "streak") (int (pos c.persistence_failure_streak))
              (field (codes "episode") (or_null c.persistence_episode) end))))))

-- what is told to who asked for the work
unfoldable pub tell_failure : Setting → Work → Text → Machine → Ran
tell_failure s (message id task) reason m =
    went (message_command (codes "fail" ∷ id ∷ reason ∷ []) m)
tell_failure s (routine id action request) reason m = done_control s request reason m
tell_failure s (handover id resume) reason m = went m
tell_failure s (rotation id queued) reason m = went m

-- after the record of the second loss
unfoldable pub drop_session : Setting → Surroundings → Work → Machine → Ran
drop_session s o work m =
    let lost = record m {
      tallies = record m.tallies {
        session_loss_counts = remove (work_id work) m.tallies.session_loss_counts;
      };
      core = without_session m.core;
    } in
    afterwards
      (tell_failure s work not_kept (o.write_alarm (codes "session_persistence_failed") lost))
      (λ m'. went (settle_brake s o not_kept (record m' { work = none })))

-- the second loss in a row
unfoldable pub finish_unkept : Setting → Surroundings → Work → Text → ℤ → Machine → Ran
finish_unkept s o work attempt_id rc m =
    let failed = record m { infra_since = none; core = fail_persistence s attempt_id m.core } in
    let told =
      end_turn s work attempt_id (codes "provider_failure") rc false (some not_kept) failed in
    drop_session s o work
      (journal s (codes "session.persistence_failed") (failed_fields told.core (work_id work)) told)

-- the first loss: a handover for a routine, a note and a new session for other work
unfoldable pub replace_session : Setting → Surroundings → Work → Machine → Ran
replace_session s o (routine id action request) m =
    went (begin_session_loss_handover s (routine id action request) m)
replace_session s o work m =
    afterwards (rotate_with_note s o (codes "unknown_sid") m)
      (λ m'. went (record m' { work = none }))

-- a session that the provider does not know
unfoldable pub finish_lost : Setting → Surroundings → Work → Text → ℤ → Machine → Ran
finish_lost s o work attempt_id rc m =
    let losses = count_at (work_id work) m.tallies.session_loss_counts + 1 in
    let counted = record m {
      tallies = record m.tallies {
        session_loss_counts = insert (work_id work) losses m.tallies.session_loss_counts;
      };
    } in
    if leb 2 losses
    then finish_unkept s o work attempt_id rc counted
    else afterwards
        (replace_session s o work
          (end_turn s work attempt_id (codes "session_lost") rc false none counted))
        (λ m'. went (record m' { retry_at = at s.now }))

-- `rc == n`
abbrev pub is_code : ℤ → ℕ → Bool
is_code (pos m) n = m == n
is_code (negsuc m) n = false

-- what an outage does to the memory
unfoldable pub count_outage : Text → Bool → Core → Core
count_outage attempt_id login_hint c = record c {
  infra_episode = begin_episode attempt_id c.infra_episode;
  infra_login_hint = c.infra_login_hint || login_hint;
}

-- what is told of an outage since that time, and when the next try is
unfoldable pub tell_outage : Setting → Surroundings → Text → ℕ → Machine → Machine
tell_outage s o reason since m =
    let waiting = set_state (codes "WAITING") reason m in
    let told =
      if leb s.blocked_after (s.now - since)
      then o.write_alarm (codes "infra_blocked")
          (heartbeat (codes "blocked") (codes "supervisor waiting on " ++ reason) waiting)
      else waiting in
    record told { retry_at = at (s.now + s.pause) }

-- an outage: exit code 75, 78 or 69, or no output
unfoldable pub finish_infra : Setting → Surroundings → Work → Text → ℤ → Bool → Machine → Machine
finish_infra s o work attempt_id rc login_hint m =
    let since : ℕ = elim m.infra_since [ none ↦ s.now | some t ↦ t ] in
    let noted = record m {
      infra_since = some since;
      core = count_outage attempt_id login_hint m.core;
    } in
    tell_outage s o (if is_code rc 75 then codes "capacity" else codes "infra") since
      (end_turn s work attempt_id (codes "infra") rc login_hint none noted)

-- the third failure of a message, which is given up
unfoldable pub give_up : Surroundings → Work → Text → Text → Machine → Machine
give_up o work attempt_id detail m =
    record (o.service_fail work attempt_id
      (message_command (codes "fail" ∷ work_id work ∷ detail ∷ []) m)) { work = none }

-- after the record of a failure: nothing more where the brake has tripped, else the message is given up
-- or kept
unfoldable pub keep_work : Surroundings → Work → Text → Text → ℕ → Machine → Machine
keep_work o work attempt_id detail failures m =
    if not (is_null m.core.brake_tripped_at)
    then m
    else if leb 3 failures && not (is_synthetic work)
    then give_up o work attempt_id detail m
    else record m { work = some work }

-- a failure of the provider
unfoldable pub finish_failure :
    Setting → Surroundings → Work → Text → ℤ → Text → Option Text → Machine → Machine
finish_failure s o work attempt_id rc detail refusal m =
    let failures = count_at (work_id work) m.tallies.message_failures + 1 in
    let counted = record m {
      infra_since = none;
      core = count_failure s (healed m.core);
      tallies = record m.tallies {
        message_failures = insert (work_id work) failures m.tallies.message_failures;
      };
    } in
    settle_brake s o (codes "infra") (
      keep_work o work attempt_id detail failures
        (end_turn s work attempt_id (codes "provider_failure") rc false refusal counted))
