-- ===== src/Supervisor/TurnRecovery.antt =====
-- The end of a turn in lib/aib_supervisor.py keeps the recovery.
use ai_bobnet.Supervisor.Restore.{healed}
use ai_bobnet.Supervisor.Sound.{
  healed-IsSound, count_failure-IsSound, count_outage-IsSound, bound-IsSound,
}
use ai_bobnet.Supervisor.EndedTurns.{failed_step, in_use_step, infra_step}
use ai_bobnet.Supervisor.JournalSteps.{bound_step}
use ai_bobnet.Supervisor.Quiet.{
  give_up-IsQuiet, settle_brake-IsQuiet, heartbeat-IsQuiet, Keeps-IsRecovered, journal-IsRecovered,
}
use ai_bobnet.Supervisor.Recovered.{quiet-IsRecovered, IsQuiet, AreQuiet, IsRecovered}
use ai_bobnet.Json.{is_null, ℤ, str}
use ai_bobnet.Supervisor.Memory.{count_at, truthy}
use ai_bobnet.Supervisor.Machine.{
  heartbeat, is_synthetic, set_state, work_id, Work, Machine, Setting,
}
use ai_bobnet.Supervisor.Turns.{
  settle_brake, count_outage, is_code, count_failure, keep_work, finish_failure, finish_infra,
  tell_outage, end_turn, finish_in_use,
}
use ai_bobnet.Supervisor.Sessions.{Surroundings, bind_session}
use ai_bobnet.Base.{
  inr, ◌∙◌, ◌++◌, not, insert, ◌&&◌, inl, ◌-◌, if◌then◌else◌, leb, some, Bool-cases, none, refl,
  none, ◌+◌, false, Option, Bool, codes, true, ℕ, ◌≡◌, Text,
}

module _ (s : Setting) where
  abbrev pub Shown : Type 0
  Shown = truthy (str s.utc) ≡ true

  pub bind_session-IsRecovered : (m : Machine) → IsRecovered s m → IsRecovered s (bind_session s m)
  unfolding bind_session
  bind_session-IsRecovered m ok =
      journal-IsRecovered s (codes "session.bound") _ _ m.core _ ok.replays
        (bound_step s (m.journal_seq + 1) s.new_id s.active_cwd m.core) refl
        (bound-IsSound s m.core ok.sound s.new_id s.active_cwd)

  pub finish_in_use-IsRecovered :
      (work : Work) (attempt_id : Text) (rc : ℤ) (m : Machine)
      → IsRecovered s m
      → IsRecovered s (finish_in_use s work attempt_id rc m)
  unfolding finish_in_use end_turn
  finish_in_use-IsRecovered work attempt_id rc m ok =
      Keeps-IsRecovered s (end_turn s work attempt_id (codes "session_in_use") rc false none m) _
        (refl, λ c r. r)
        (journal-IsRecovered s (codes "turn.ended") _ m m.core m.core ok.replays
          (in_use_step s (m.journal_seq + 1) (work_id work) attempt_id rc m.core) refl ok.sound)

  module _ (o : Surroundings) (quiet : AreQuiet s o) where
    tell_outage-IsQuiet : (reason : Text) (since : ℕ) → IsQuiet s (tell_outage s o reason since)
    unfolding tell_outage
    tell_outage-IsQuiet reason since m = elim (Bool-cases (leb s.blocked_after (s.now - since))) [
      | inl late ↦
          let waiting = set_state (codes "WAITING") reason m in
          let told =
            heartbeat-IsQuiet s (codes "blocked") (codes "supervisor waiting on " ++ reason)
              waiting in
          let alarmed =
            quiet.alarm (codes "infra_blocked")
              (heartbeat (codes "blocked") (codes "supervisor waiting on " ++ reason) waiting) in
          rw late (alarmed.0 ∙ told.0, λ c replays. alarmed.1 c (told.1 c replays))
      | inr early ↦ rw early (refl, λ c replays. replays)
    ]

    pub finish_infra-IsRecovered :
        (work : Work) (attempt_id : Text) (rc : ℤ) (login_hint : Bool) (m : Machine)
        → IsRecovered s m
        → IsRecovered s (finish_infra s o work attempt_id rc login_hint m)
    unfolding finish_infra end_turn
    finish_infra-IsRecovered work attempt_id rc login_hint m ok =
        quiet-IsRecovered s (tell_outage s o reason since) (tell_outage-IsQuiet reason since)
          (end_turn s work attempt_id (codes "infra") rc login_hint none noted)
          (journal-IsRecovered s (codes "turn.ended") _ noted m.core
            (count_outage attempt_id login_hint m.core) ok.replays
            (infra_step s (m.journal_seq + 1) (work_id work) attempt_id rc m.core login_hint) refl
            (count_outage-IsSound s m.core ok.sound attempt_id login_hint))
      where
        since : ℕ
        since = elim m.infra_since [ none ↦ s.now | some t ↦ t ]

        reason : Text
        reason = if is_code rc 75 then codes "capacity" else codes "infra"

        noted : Machine
        noted = record m {
          infra_since = some since;
          core = count_outage attempt_id login_hint m.core;
        }

    keep_work-IsQuiet :
        (work : Work) (attempt_id detail : Text) (failures : ℕ)
        → IsQuiet s (keep_work o work attempt_id detail failures)
    unfolding keep_work
    keep_work-IsQuiet work attempt_id detail failures m =
        elim (Bool-cases (is_null m.core.brake_tripped_at)) [
          | inl clear ↦ elim (Bool-cases (leb 3 failures && not (is_synthetic work))) [
            | inl last ↦ rw (clear, last) (give_up-IsQuiet s o quiet work attempt_id detail m)
            | inr more ↦ rw (clear, more) (refl, λ c replays. replays)
          ]
          | inr tripped ↦ rw tripped (refl, λ c replays. replays)
        ]

    pub finish_failure-IsRecovered :
        (work : Work) (attempt_id : Text) (rc : ℤ) (detail : Text) (refusal : Option Text)
        (m : Machine)
        → Shown
        → IsRecovered s m
        → IsRecovered s (finish_failure s o work attempt_id rc detail refusal m)
    unfolding finish_failure end_turn
    finish_failure-IsRecovered work attempt_id rc detail refusal m shown ok =
        quiet-IsRecovered s (settle_brake s o (codes "infra"))
          (settle_brake-IsQuiet s o quiet (codes "infra")) _
          (quiet-IsRecovered s (keep_work o work attempt_id detail failures)
            (keep_work-IsQuiet work attempt_id detail failures)
            (end_turn s work attempt_id (codes "provider_failure") rc false refusal counted)
            (journal-IsRecovered s (codes "turn.ended") _ counted m.core
              (count_failure s (healed m.core)) ok.replays
              (failed_step s (m.journal_seq + 1) (work_id work) attempt_id rc m.core refusal shown)
              refl
              (count_failure-IsSound s (healed m.core) (healed-IsSound s m.core ok.sound) shown)))
      where
        failures : ℕ
        failures = count_at (work_id work) m.tallies.message_failures + 1

        counted : Machine
        counted = record m {
          infra_since = none;
          core = count_failure s (healed m.core);
          tallies = record m.tallies {
            message_failures = insert (work_id work) failures m.tallies.message_failures;
          };
        }
