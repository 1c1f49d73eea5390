-- ===== src/Supervisor/ResultRecovery.antt =====
-- `_finish_result` of lib/aib_supervisor.py keeps the recovery.
use ai_bobnet.Supervisor.EndedTurns.{good_step}
use ai_bobnet.Supervisor.Turns.{end_turn}
use ai_bobnet.Supervisor.TurnRecovery.{bind_session-IsRecovered}
use ai_bobnet.Supervisor.Sound.{count_turn-IsSound, duty-IsSound}
use ai_bobnet.Supervisor.Sessions.{Surroundings, rotated, bind_session}
use ai_bobnet.Supervisor.JournalSteps.{max_turns_step, off_step, restored_step}
use ai_bobnet.Supervisor.Quiet.{
  advance, set_ready-IsQuiet, done_control-IsSilent, heartbeat-IsQuiet, Keeps, journal-IsRecovered,
  Leaves-afterwards, Keeps-IsRecovered,
}
use ai_bobnet.Supervisor.Recovered.{
  IsQuiet, AreQuiet, quiet-IsRecovered, IsSound, Leaves, IsRecovered,
}
use ai_bobnet.Supervisor.Recovery.{Replays}
use ai_bobnet.Json.{null, ℤ, end, get, field, Fields}
use ai_bobnet.Supervisor.Memory.{Core}
use ai_bobnet.Supervisor.Machine.{
  work_id, rotation, handover, journal, went, message_command, at, done_control, message,
  afterwards, heartbeat, routine, Machine, Work, Setting,
}
use ai_bobnet.Supervisor.Restore.{persistence_restored, healed}
use ai_bobnet.Supervisor.Results.{
  finish_ok, is_resumed, set_ready, restored_streak, settle_work, settle_routine, tell_restored,
  release_brake, count_turn,
}
use mathlib.Core.Path.{subst}
use ai_bobnet.Base.{
  sym, ℕ, ◌<◌, Bool, ap, ◌+◌, refl, some, inr, ◌∙◌, inl, Bool-cases, false, true, codes, ◌≡◌, ◌==◌,
  text_eq, Text, [], ◌∷◌, none,
}

-- the memory after a good turn, but for the streak of lost sessions
abbrev pub counted_core : Text → Core → Core
counted_core session_arg c = record (count_turn (release_brake session_arg c)) {
  persistence_failure_streak = c.persistence_failure_streak;
  persistence_episode = c.persistence_episode;
}

unrestored_same :
    (session_arg : Text) (c : Core)
    → (restored_streak session_arg c == 0) ≡ true
    → counted_core session_arg c ≡ count_turn (release_brake session_arg c)
unfolding count_turn release_brake healed
unrestored_same session_arg c h = elim (Bool-cases (c.persistence_failure_streak == 0)) [
  | inl kept ↦ rw kept refl
  | inr lost ↦ elim (Bool-cases (is_resumed session_arg)) [
    | inl resumed ↦ cc
    | inr new ↦ rw (lost, new) refl
  ]
]

restored_same :
    (session_arg : Text) (c : Core)
    → (restored_streak session_arg c == 0) ≡ false
    → persistence_restored (counted_core session_arg c) ≡ count_turn (release_brake session_arg c)
unfolding count_turn release_brake healed persistence_restored
restored_same session_arg c h = elim (Bool-cases (c.persistence_failure_streak == 0)) [
  | inl kept ↦ elim (Bool-cases (is_resumed session_arg)) [ inl resumed ↦ cc | inr new ↦ cc ]
  | inr lost ↦ elim (Bool-cases (is_resumed session_arg)) [
    | inl resumed ↦ rw (lost, resumed) refl
    | inr new ↦ cc
  ]
]

module _ (s : Setting) where
  tell_restored-IsRecovered :
      (session_arg : Text) (c : Core) (m : Machine)
      → Replays s m (counted_core session_arg c)
      → m.core ≡ count_turn (release_brake session_arg c)
      → IsSound s (count_turn (release_brake session_arg c))
      → IsRecovered s (tell_restored s (restored_streak session_arg c) m)
  unfolding tell_restored
  tell_restored-IsRecovered session_arg c m replays same sound =
      elim (Bool-cases (restored_streak session_arg c == 0)) [
        | inl kept ↦ rw kept (record {
          replays = rw same (replays ∙ unrestored_same session_arg c kept);
          sound = rw same sound;
        })
        | inr ended ↦ rw ended (
            journal-IsRecovered s (codes "session.persistence_restored") _ m
              (counted_core session_arg c) (count_turn (release_brake session_arg c)) replays
              (restored_step s (m.journal_seq + 1) _ (counted_core session_arg c)
                ∙ restored_same session_arg c ended)
              same sound)
      ]

  -- Where the work is the standup's routine, the supervisor is on duty.
  abbrev pub IsOnDuty : Work → Bool → Type 0
  IsOnDuty (routine id action request) off = text_eq action (codes "standup") ≡ true → off ≡ false
  IsOnDuty _ off = Unit

  told-IsRecovered :
      (request : Fields) (result : Text) (m : Machine)
      → IsRecovered s m
      → Leaves s (IsRecovered s) (
          afterwards
            (done_control s request result m)
            (λ m'. went (record m' { retry_at = at s.now })))
  told-IsRecovered request result m ok =
      Leaves-afterwards s (Keeps s m) (IsRecovered s) (done_control s request result m) _
        (done_control-IsSilent s request result m) (λ m' keeps. Keeps-IsRecovered s m m' keeps ok)
        (λ m' keeps.
          Keeps-IsRecovered s m' _ (refl, λ c replays. replays) (Keeps-IsRecovered s m m' keeps ok))

  idle-IsRecovered :
      (m : Machine)
      → IsRecovered s m
      → IsRecovered s (record (heartbeat (codes "idle") (codes "supervisor ready") (set_ready m)) {
        retry_at = at s.now;
      })
  idle-IsRecovered m ok =
      Keeps-IsRecovered s _ _ (refl, λ c replays. replays)
        (quiet-IsRecovered s (heartbeat (codes "idle") (codes "supervisor ready"))
          (heartbeat-IsQuiet s (codes "idle") (codes "supervisor ready")) (set_ready m)
          (quiet-IsRecovered s set_ready (set_ready-IsQuiet s) m ok))

  settle_routine-IsRecovered :
      (action : Text) (request : Fields) (m : Machine)
      → (text_eq action (codes "standup") ≡ true → m.core.off_duty ≡ false)
      → IsRecovered s m
      → Leaves s (IsRecovered s) (settle_routine s action request m)
  unfolding settle_routine
  settle_routine-IsRecovered action request m on_duty ok =
      elim (Bool-cases (text_eq action (codes "feierabend"))) [
        | inl off ↦ rw off (
            told-IsRecovered request (codes "off_duty") _ (
              Keeps-IsRecovered s
                (journal s (codes "duty.off") (field (codes "req") (get (codes "seq") request) end)
                  (record m { core = record m.core { off_duty = true } }))
                _ (refl, λ c replays. replays)
                (journal-IsRecovered s (codes "duty.off") _ _ m.core _ ok.replays
                  (off_step s (m.journal_seq + 1) _ m.core) refl
                  (duty-IsSound s m.core ok.sound true))))
        | inr other ↦ elim (Bool-cases (text_eq action (codes "standup"))) [
          | inl up ↦
              rw (other, up)
                (told-IsRecovered request (codes "ready") _ (
                  quiet-IsRecovered s set_ready (set_ready-IsQuiet s)
                    (record m { core = record m.core { off_duty = false }; work = none })
                    (record {
                      replays = ok.replays ∙ ap (λ b. record m.core { off_duty = b }) (on_duty up);
                      sound = duty-IsSound s m.core ok.sound false;
                    })))
          | inr neither ↦
              rw (other, neither)
                (idle-IsRecovered (record m { work = none })
                  (Keeps-IsRecovered s m _ (refl, λ c replays. replays) ok))
        ]
      ]

  settle_work-IsRecovered :
      (work : Work) (m : Machine)
      → IsOnDuty work m.core.off_duty
      → IsRecovered s m
      → Leaves s (IsRecovered s) (settle_work s work m)
  unfolding settle_work
  settle_work-IsRecovered (routine id action request) m on_duty ok =
      settle_routine-IsRecovered action request m on_duty ok
  settle_work-IsRecovered (message id task) m on_duty ok =
      idle-IsRecovered (record (message_command (codes "done" ∷ id ∷ []) m) { work = none })
        (Keeps-IsRecovered s m _ (refl, λ c replays. replays) ok)
  settle_work-IsRecovered (handover id resume) m on_duty ok =
      Keeps-IsRecovered s (set_ready (record m { work = some resume })) _
        (refl, λ c replays. replays)
        (quiet-IsRecovered s set_ready (set_ready-IsQuiet s) (record m { work = some resume })
          (Keeps-IsRecovered s m _ (refl, λ c replays. replays) ok))
  settle_work-IsRecovered (rotation id queued) m on_duty ok =
      Keeps-IsRecovered s (bind_session s (rotated s (codes "max_turns") m.core.session_id m)) _
        (refl, λ c replays. replays)
        (bind_session-IsRecovered s (rotated s (codes "max_turns") m.core.session_id m) (
          journal-IsRecovered s (codes "session.rotated") _ m m.core m.core ok.replays
            (max_turns_step s (m.journal_seq + 1) m.core.session_id m.core) refl ok.sound))

  count_turn_duty :
      (session_arg : Text) (c : Core)
      → (count_turn (release_brake session_arg c)).off_duty ≡ c.off_duty
  unfolding count_turn release_brake healed
  count_turn_duty session_arg c = elim (Bool-cases (c.persistence_failure_streak == 0)) [
    | inl kept ↦ rw kept refl
    | inr lost ↦ elim (Bool-cases (is_resumed session_arg)) [
      | inl resumed ↦ rw (lost, resumed) refl
      | inr new ↦ rw (lost, new) refl
    ]
  ]

  tell_restored_core : (streak : ℕ) (m : Machine) → (tell_restored s streak m).core ≡ m.core
  unfolding tell_restored journal
  tell_restored_core streak m = elim (Bool-cases (streak == 0)) [
    | inl none_lost ↦ rw none_lost refl
    | inr some_lost ↦ rw some_lost refl
  ]

  module _ (o : Surroundings) (quiet : AreQuiet s o) where
    pub finish_ok-IsRecovered :
        (work : Work) (session_arg attempt_id : Text) (rc : ℤ) (is_handled : Bool) (m : Machine)
        → 0 < s.burst
        → m.core.brake_tripped_at ≡ null
        → IsOnDuty work m.core.off_duty
        → IsRecovered s m
        → Leaves s (IsRecovered s) (finish_ok s o work session_arg attempt_id rc is_handled m)
    unfolding finish_ok end_turn journal
    finish_ok-IsRecovered work session_arg attempt_id rc is_handled m positive clear on_duty ok =
        settle_work-IsRecovered work _ (subst (IsOnDuty work) (sym same_duty) on_duty) (
          tell_restored-IsRecovered session_arg m.core reported
            ((reporting ended).1 (counted_core session_arg m.core) (
              advance s (codes "turn.ended") _ counted ok.replays (
                good_step s (m.journal_seq + 1) (work_id work) attempt_id rc m.core session_arg
                  clear ok.sound.session)))
            ((reporting ended).0 ∙ refl)
            (count_turn-IsSound s m.core ok.sound positive session_arg))
      where
        counted : Machine
        counted = record m {
          infra_since = none;
          core = count_turn (release_brake session_arg m.core);
        }

        ended : Machine
        ended = end_turn s work attempt_id (codes "ok") rc false none counted

        reporting : IsQuiet s (o.missing_report work attempt_id is_handled)
        reporting = quiet.report work attempt_id is_handled

        reported : Machine
        reported = o.missing_report work attempt_id is_handled ended

        same_duty :
            (tell_restored s (restored_streak session_arg m.core) reported).core.off_duty
            ≡ m.core.off_duty
        same_duty =
            ap (λ c. c.off_duty)
              (tell_restored_core (restored_streak session_arg m.core) reported
                ∙ (reporting ended).0)
            ∙ count_turn_duty session_arg m.core
