-- ===== src/Supervisor/SessionRecovery.antt =====
-- A lost session in lib/aib_supervisor.py, and a good turn, keep the recovery.
use ai_bobnet.Supervisor.Sound.{fail_persistence-IsSound, without_session-IsSound}
use ai_bobnet.Supervisor.EndedTurns.{lost_step}
use ai_bobnet.Supervisor.JournalSteps.{unkept_step, unkept_end_step, unknown_sid_step}
use ai_bobnet.Supervisor.Quiet.{
  settle_brake-IsQuiet, tell_failure-IsSilent, Keeps, Leaves-mono, advance, journal-IsRecovered,
  Leaves-afterwards, Keeps-IsRecovered,
}
use ai_bobnet.Supervisor.TurnRecovery.{bind_session-IsRecovered, Shown}
use ai_bobnet.Supervisor.Recovery.{Replays}
use ai_bobnet.Json.{ℤ, str}
use ai_bobnet.Supervisor.Recovered.{quiet-IsRecovered, IsSound, Leaves, IsRecovered, AreQuiet}
use ai_bobnet.Supervisor.Memory.{count_at, remove, without_session, truthy}
use ai_bobnet.Supervisor.Machine.{
  rotation, went, handover, afterwards, work_id, message, routine, Machine, Work, Setting, journal,
}
use ai_bobnet.Supervisor.Turns.{
  settle_brake, failed_fields, tell_failure, not_kept, fail_persistence, finish_lost, end_turn,
  finish_unkept, drop_session, replace_session,
}
use ai_bobnet.Supervisor.Sessions.{
  bind_session, rotated, Surroundings, rotate_with_note, begin_session_loss_handover,
}
use ai_bobnet.Base.{
  inr, refl, leb, insert, inl, ◌+◌, some, Bool-cases, false, ℕ, codes, true, ◌≡◌, Text, none,
}

module _ (s : Setting) where
  -- A text that is not empty, as an attempt's identifier is.
  abbrev pub Named : Text → Type 0
  Named attempt_id = truthy (str attempt_id) ≡ true

  begin_session_loss_handover-IsRecovered :
      (work : Work) (m : Machine)
      → IsRecovered s m
      → IsRecovered s (begin_session_loss_handover s work m)
  unfolding begin_session_loss_handover
  begin_session_loss_handover-IsRecovered work m ok =
      Keeps-IsRecovered s (bind_session s told) _ (refl, λ c replays. replays)
        (bind_session-IsRecovered s told (
          journal-IsRecovered s (codes "session.rotated") _ m m.core m.core ok.replays
            (unknown_sid_step s (m.journal_seq + 1) m.core.session_id m.core) refl ok.sound))
    where
      told : Machine
      told = rotated s (codes "unknown_sid") m.core.session_id m

  module _ (o : Surroundings) (quiet : AreQuiet s o) where
    rotate_with_note-IsRecovered :
        (m : Machine)
        → IsRecovered s m
        → Leaves s (IsRecovered s) (rotate_with_note s o (codes "unknown_sid") m)
    unfolding rotate_with_note
    rotate_with_note-IsRecovered m ok =
        elim (Bool-cases (o.add_handover_note (codes "unknown_sid") m.core.session_id m).1) [
          | inl sent ↦ rw sent (
              bind_session-IsRecovered s _ (
                journal-IsRecovered s (codes "session.rotated") _ noted noted.core noted.core
                  noted_ok.replays
                  (unknown_sid_step s (noted.journal_seq + 1) m.core.session_id noted.core) refl
                  noted_ok.sound))
          | inr refused ↦ rw refused noted_ok
        ]
      where
        noted : Machine
        noted = (o.add_handover_note (codes "unknown_sid") m.core.session_id m).0

        noted_ok : IsRecovered s noted
        noted_ok =
            quiet-IsRecovered s
              (λ m'. (o.add_handover_note (codes "unknown_sid") m.core.session_id m').0)
              (quiet.note (codes "unknown_sid") m.core.session_id) m ok

    renew-IsRecovered :
        (m : Machine)
        → IsRecovered s m
        → Leaves s (IsRecovered s) (
            afterwards
              (rotate_with_note s o (codes "unknown_sid") m)
              (λ m'. went (record m' { work = none })))
    renew-IsRecovered m ok =
        Leaves-afterwards s (IsRecovered s) (IsRecovered s) _ _ (rotate_with_note-IsRecovered m ok)
          (λ m' ok. ok) (λ m' ok. Keeps-IsRecovered s m' _ (refl, λ c replays. replays) ok)

    replace_session-IsRecovered :
        (work : Work) (m : Machine)
        → IsRecovered s m
        → Leaves s (IsRecovered s) (replace_session s o work m)
    unfolding replace_session
    replace_session-IsRecovered (routine id action request) m ok =
        begin_session_loss_handover-IsRecovered (routine id action request) m ok
    replace_session-IsRecovered (message id task) m ok = renew-IsRecovered m ok
    replace_session-IsRecovered (handover id resume) m ok = renew-IsRecovered m ok
    replace_session-IsRecovered (rotation id queued) m ok = renew-IsRecovered m ok

    drop_session-IsRecovered :
        (work : Work) (m : Machine)
        → Replays s m (without_session m.core)
        → IsSound s (without_session m.core)
        → Leaves s (IsRecovered s) (drop_session s o work m)
    unfolding drop_session
    drop_session-IsRecovered work m replays sound =
        Leaves-afterwards s (IsRecovered s) (IsRecovered s) (tell_failure s work not_kept alarmed) _
          (Leaves-mono s (Keeps s alarmed) (IsRecovered s) (tell_failure s work not_kept alarmed)
            (λ m' keeps. Keeps-IsRecovered s alarmed m' keeps alarmed_ok)
            (tell_failure-IsSilent s work not_kept alarmed))
          (λ m' ok. ok)
          (λ m' ok.
            quiet-IsRecovered s (settle_brake s o not_kept)
              (settle_brake-IsQuiet s o quiet not_kept) (record m' { work = none })
              (Keeps-IsRecovered s m' _ (refl, λ c replays. replays) ok))
      where
        lost : Machine
        lost = record m {
          tallies = record m.tallies {
            session_loss_counts = remove (work_id work) m.tallies.session_loss_counts;
          };
          core = without_session m.core;
        }

        alarmed : Machine
        alarmed = o.write_alarm (codes "session_persistence_failed") lost

        alarmed_ok : IsRecovered s alarmed
        alarmed_ok =
            quiet-IsRecovered s (o.write_alarm (codes "session_persistence_failed"))
              (quiet.alarm (codes "session_persistence_failed")) lost
              (record { replays = replays; sound = sound })

    finish_unkept-IsRecovered :
        (work : Work) (attempt_id : Text) (rc : ℤ) (m : Machine)
        → Shown s
        → Named attempt_id
        → IsRecovered s m
        → Leaves s (IsRecovered s) (finish_unkept s o work attempt_id rc m)
    unfolding finish_unkept end_turn journal
    finish_unkept-IsRecovered work attempt_id rc m shown named ok =
        drop_session-IsRecovered work _
          (advance s (codes "session.persistence_failed")
            (failed_fields (fail_persistence s attempt_id m.core) (work_id work)) told
            (advance s (codes "turn.ended") _ failed ok.replays
              (unkept_end_step s (m.journal_seq + 1) (work_id work) attempt_id m.core rc shown))
            (unkept_step s (told.journal_seq + 1) (work_id work) attempt_id m.core named
              ok.sound.session))
          (without_session-IsSound s _
            (fail_persistence-IsSound s m.core attempt_id ok.sound shown))
      where
        failed : Machine
        failed = record m { infra_since = none; core = fail_persistence s attempt_id m.core }

        told : Machine
        told = end_turn s work attempt_id (codes "provider_failure") rc false (some not_kept) failed

    pub finish_lost-IsRecovered :
        (work : Work) (attempt_id : Text) (rc : ℤ) (m : Machine)
        → Shown s
        → Named attempt_id
        → IsRecovered s m
        → Leaves s (IsRecovered s) (finish_lost s o work attempt_id rc m)
    unfolding finish_lost end_turn
    finish_lost-IsRecovered work attempt_id rc m shown named ok = elim (Bool-cases (leb 2 losses)) [
      | inl again ↦
          rw again (finish_unkept-IsRecovered work attempt_id rc counted shown named counted_ok)
      | inr first ↦ rw first (
          Leaves-afterwards s (IsRecovered s) (IsRecovered s) _ _
            (replace_session-IsRecovered work
              (end_turn s work attempt_id (codes "session_lost") rc false none counted)
              (journal-IsRecovered s (codes "turn.ended") _ counted m.core m.core ok.replays
                (lost_step s (m.journal_seq + 1) (work_id work) attempt_id rc m.core) refl
                ok.sound))
            (λ m' ok. ok) (λ m' ok. Keeps-IsRecovered s m' _ (refl, λ c replays. replays) ok))
    ]
      where
        losses : ℕ
        losses = count_at (work_id work) m.tallies.session_loss_counts + 1

        counted : Machine
        counted = record m {
          tallies = record m.tallies {
            session_loss_counts = insert (work_id work) losses m.tallies.session_loss_counts;
          };
        }

        counted_ok : IsRecovered s counted
        counted_ok = Keeps-IsRecovered s m counted (refl, λ c replays. replays) ok
