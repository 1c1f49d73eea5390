-- ===== src/Supervisor/Witness.antt =====
-- The theorems about the supervisor at a concrete journal, work and control log.
use ai_bobnet.Supervisor.Turns.{ended_fields}
use ai_bobnet.Supervisor.Processing.{up_to_turns, process_controls-IsRecovered}
use ai_bobnet.Supervisor.Unfinished.{release_not_restored, unfinished-running_after, good_turn}
use ai_bobnet.Supervisor.Permission.{judge-IsRightful}
use ai_bobnet.Supervisor.Rightful.{IsRightful}
use ai_bobnet.Supervisor.Handling.{process_controls}
use ai_bobnet.Supervisor.Recovered.{Leaves, IsRecovered, AreQuiet}
use ai_bobnet.Supervisor.Sessions.{Surroundings}
use ai_bobnet.Supervisor.Machine.{at, routine, Work, Machine, Setting}
use ai_bobnet.Control.Log.{entry, numbered, is_request, find_request, Ending}
use ai_bobnet.Supervisor.Controls.{
  granted, Verdict, Candidate, Authority, judge_allowed, control_authorized, judge_authorized,
  judge_audited, is_audited, judge_found, judge_owner, is_consumed, judge,
}
use ai_bobnet.Json.{null, pos, end, field, str, Fields, value_eq, is_str, get}
use ai_bobnet.Supervisor.Memory.{Core, is_text, as_int, truthy, initial_core}
use ai_bobnet.Supervisor.Restore.{
  unfinished, restore_core, healed, braked, ended, bound, restore_record, restore_records,
}
use ai_bobnet.Base.{
  Text, arith, some, ◌≡◌, false, refl, inl, true, codes, starts_with, text_eq, [], ◌∷◌, none,
}

abbrev pub setting : Setting
setting = record {
  uid = codes "acme-lead";
  active_cwd = codes "/srv/acme";
  burst = 5;
  backoff_base = 10;
  backoff_cap = 600;
  blocked_after = 600;
  now = 1000;
  utc = codes "2026-10-28T00:00:00Z";
  new_id = codes "6f1c2d3e";
  handover_id = codes "0a1b2c3d";
  pause = 5;
  lower = λ t. t;
  text_of = λ v. codes "value";
  coerced = λ v. none;
}

-- no alarm is written, each note is sent, and no work has a task
abbrev around : Surroundings
around = record {
  write_alarm = λ kind m. m;
  add_handover_note = λ reason previous m. (m, true);
  apply_intents = λ work attempt_id rc text m. record {
    machine = m;
    rc = rc;
    output = text;
    is_handled = false;
  };
  missing_report = λ work attempt_id is_handled m. m;
  service_fail = λ work attempt_id m. m;
}

around-AreQuiet : AreQuiet setting around
around-AreQuiet = record {
  alarm = λ kind m. (refl, λ c replays. replays);
  note = λ reason previous m. (refl, λ c replays. replays);
  intents = λ work attempt_id rc text m. (refl, λ c replays. replays);
  report = λ work attempt_id is_handled m. (refl, λ c replays. replays);
  service = λ work attempt_id m. (refl, λ c replays. replays);
}

abbrev session : Fields
session = numbered 1 (codes "2026-10-27T00:00:00Z") (codes "session.bound") (
    field (codes "agent") (str (codes "acme-lead")) (
      field (codes "sid") (str (codes "5d4c3b2a"))
        (field (codes "cwd") (str (codes "/srv/acme")) end)))

abbrev core : Core
core = record {
  session_id = str (codes "5d4c3b2a");
  session_cwd = str (codes "/srv/acme");
  turns_in_session = 0;
  session_new = true;
  brake_consecutive = pos 0;
  brake_tripped_at = null;
  infra_episode = none;
  infra_login_hint = false;
  off_duty = false;
  persistence_failure_streak = 0;
  persistence_episode = none;
  consumed = [];
}

-- after one session was bound, and after one loss of it
abbrev pub lost_once : Machine
lost_once = record {
  core = core;
  tallies = record { message_failures = []; session_loss_counts = (codes "m-1", 1) ∷ [] };
  records = session ∷ [];
  journal_seq = 1;
  control_log = record {
    lines =
        entry (numbered 4 (codes "2026-10-27T00:00:00Z") (codes "ctl.requested") request_fields)
        ∷ [];
    ending = Ending.ended;
  };
  work = none;
  attempt = none;
  state = codes "READY";
  state_reason = [];
  retry_at = at 0;
  infra_since = none;
  last_heartbeat = codes "idle";
  outputs = [];
  stop_requested = false;
  exit_code = 0;
}
  where
    request_fields : Fields
    request_fields = field (codes "verb") (str (codes "reset-brake")) (
        field (codes "target") (str (codes "acme-lead"))
          (field (codes "caller") (str (codes "human:ada")) end))

lost_once-IsRecovered : IsRecovered setting lost_once
unfolding restore_records restore_record bound initial_core get is_str text_eq value_eq
lost_once-IsRecovered = record {
  replays = refl;
  sound = record {
    session = refl;
    time = inl refl;
    tripped = λ reached. cc;
    episode = λ kept. refl;
  };
}

-- a restart at whatever time restores the memory
abbrev IsRestored : Machine → Type 0
IsRestored m =
    IsRecovered setting m
    × ((utc : Text) → restore_core setting.text_of setting.burst utc m.records ≡ m.core)

abbrev authority : Authority
authority = record { agents = end; protected = []; identity = λ uid. codes "human:ada" }

abbrev candidate : Candidate
candidate = record { sequence = 4; verb = codes "reset-brake"; owner = some 1005 }

process_controls-IsRecovered_example :
    Leaves setting
      (IsRecovered setting)
      (process_controls setting around up_to_turns authority (candidate ∷ []) lost_once)
unfolding as_int get text_eq
process_controls-IsRecovered_example =
    process_controls-IsRecovered setting around around-AreQuiet (omega arith) authority
      (candidate ∷ []) lost_once lost_once-IsRecovered ((pos 4, refl), tt)

abbrev requested : Fields
requested = granted_request (judge setting authority candidate lost_once)
  where
    granted_request : Verdict → Fields
    granted_request (granted r caller) = r
    granted_request _ = end

unfoldable judged : Setting → Authority → Candidate → Machine → Verdict
unfolding judge is_consumed judge_owner find_request is_request judge_found is_audited judge_audited
    judge_authorized control_authorized judge_allowed get text_eq is_str value_eq starts_with
judged = judge

judge-IsRightful_example :
    IsRightful setting authority candidate lost_once requested (codes "human:ada")
unfolding judged
judge-IsRightful_example = judge-IsRightful setting authority candidate lost_once refl

unfinished-running_after_example :
    unfinished (session ∷ numbered 2 (codes "") (codes "turn.started") end ∷ [])
    ≡ some (numbered 2 (codes "") (codes "turn.started") end)
unfolding get is_str text_eq
unfinished-running_after_example =
    unfinished-running_after (session ∷ numbered 2 (codes "") (codes "turn.started") end ∷ [])

-- the brake has tripped, and a standup's turn succeeds
abbrev tripped : Machine
tripped = record lost_once {
  core = record core {
    brake_consecutive = pos 5;
    brake_tripped_at = str (codes "2026-10-27T12:00:00Z");
  };
  records = session ∷ failure ∷ [];
}
  where
    failure : Fields
    failure = numbered 2 (codes "2026-10-27T12:00:00Z") (codes "turn.ended") (
        ended_fields
          (record core {
            brake_consecutive = pos 5;
            brake_tripped_at = str (codes "2026-10-27T12:00:00Z");
          })
          (codes "m-1") (codes "0a1b") (codes "provider_failure") (pos 1) false none)

abbrev standup : Work
standup = routine (codes "control-standup-4") (codes "standup") end

release_not_restored_example :
    ((good_turn setting standup
        (codes "5d4c3b2a")
        (codes "0a1c")
        (pos 0)
        tripped).core.brake_tripped_at
      ≡ null)
    × ((restore_records setting.text_of
          (good_turn setting standup (codes "5d4c3b2a") (codes "0a1c") (pos 0) tripped).records
          initial_core).brake_tripped_at
        ≡ str (codes "2026-10-27T12:00:00Z"))
unfolding restore_records restore_record bound ended braked healed initial_core get is_str text_eq
    is_text as_int truthy
release_not_restored_example =
    release_not_restored setting standup (codes "5d4c3b2a") (codes "0a1c") (pos 0) tripped refl refl
