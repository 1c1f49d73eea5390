-- ===== src/Supervisor/HandlingRecovery.antt =====
-- What control requests do in lib/aib_supervisor.py, a restart restores.
use ai_bobnet.Supervisor.Sound.{duty-IsSound, without_session-IsSound, reset-IsSound}
use ai_bobnet.Supervisor.JournalSteps.{on_step, reset_step, fresh_step}
use ai_bobnet.Supervisor.Quiet.{
  Leaves-if, done_control-IsSilent, Leaves-afterwards, journal-IsRecovered, Keeps-IsRecovered,
  Keeps, Leaves-mono, advance,
}
use ai_bobnet.Supervisor.Recovered.{quiet-IsRecovered, Leaves, AreQuiet, IsRecovered, IsSound}
use ai_bobnet.Supervisor.Sessions.{Surroundings}
use ai_bobnet.Json.{bool, end, get_or, int, negsuc, field, null, pos, Fields, Value, ℤ}
use ai_bobnet.Supervisor.Memory.{truthy, Core}
use ai_bobnet.Supervisor.Machine.{went, done_control, Machine, Setting, journal}
use ai_bobnet.Supervisor.Handling.{is_zero, restart, forget_session, clear_brake, has_brake}
use ai_bobnet.Supervisor.Restore.{reset}
use ai_bobnet.Base.{
  refl, if◌then◌else◌, ◌+◌, inr, ◌∙◌, inl, Bool, ap, codes, Bool-cases, false, arith, Text, ◌<◌,
  true, Option, ℕ, ◌≡◌, none,
}

-- the memory with these values of the brake and of the lost sessions
abbrev with_brake : Core → ℤ → Value → ℕ → Option Text → Core
with_brake c n time streak episode = record c {
  brake_consecutive = n;
  brake_tripped_at = time;
  persistence_failure_streak = streak;
  persistence_episode = episode;
}

reset_same :
    (c : Core)
    → c.brake_consecutive ≡ pos 0
    → c.brake_tripped_at ≡ null
    → c.persistence_failure_streak ≡ 0
    → c.persistence_episode ≡ none
    → c ≡ reset c
unfolding reset
reset_same c brake time streak episode =
    ap (λ n. with_brake c n c.brake_tripped_at c.persistence_failure_streak c.persistence_episode)
      brake
    ∙ ap (λ v. with_brake c (pos 0) v c.persistence_failure_streak c.persistence_episode) time
    ∙ ap (λ n. with_brake c (pos 0) null n c.persistence_episode) streak
    ∙ ap (λ e. with_brake c (pos 0) null 0 e) episode

is_zero-pos : (n : ℤ) → is_zero n ≡ true → n ≡ pos 0
is_zero-pos (pos n) h = ground arith
is_zero-pos (negsuc n) h = cc

module _ (s : Setting) where
  -- without anything to clear, clearing changes nothing
  unbraked_same : (m : Machine) → IsSound s m.core → has_brake m ≡ false → m.core ≡ reset m.core
  unfolding has_brake
  unbraked_same m sound clear =
      reset_same m.core (is_zero-pos m.core.brake_consecutive (ground arith)) time streak
        (sound.episode streak)
    where
      streak : m.core.persistence_failure_streak ≡ 0
      streak = ground arith

      untold : truthy m.core.brake_tripped_at ≡ false
      untold = ground arith

      time : m.core.brake_tripped_at ≡ null
      time = elim sound.time [ inl none_told ↦ none_told | inr told ↦ let never = untold in cc ]

  pub clear_brake-IsRecovered :
      (m : Machine) → 0 < s.burst → IsRecovered s m → IsRecovered s (clear_brake s m)
  unfolding clear_brake journal
  clear_brake-IsRecovered m positive ok = elim (Bool-cases (has_brake m)) [
    | inl braked ↦ rw braked (record {
      replays =
          advance s (codes "brake.reset")
            (field (codes "previous") (int m.core.brake_consecutive) end) m ok.replays
            (reset_step s (m.journal_seq + 1) _ m.core);
      sound = reset-IsSound s m.core ok.sound positive;
    })
    | inr clear ↦ rw clear (record {
      replays = ok.replays ∙ unbraked_same m ok.sound clear;
      sound = reset-IsSound s m.core ok.sound positive;
    })
  ]

  pub told_control-IsRecovered :
      (r : Fields) (result : Text) (m : Machine)
      → IsRecovered s m
      → Leaves s (IsRecovered s) (done_control s r result m)
  told_control-IsRecovered r result m ok =
      Leaves-mono s (Keeps s m) (IsRecovered s) (done_control s r result m)
        (λ m' keeps. Keeps-IsRecovered s m m' keeps ok) (done_control-IsSilent s r result m)

  pub standing_by-IsRecovered :
      (n : ℕ) (m : Machine)
      → IsRecovered s m
      → IsRecovered s (
          journal s
            (codes "duty.on")
            (field (codes "req") (int (pos n)) end)
            (record m { core = record m.core { off_duty = false } }))
  standing_by-IsRecovered n m ok =
      journal-IsRecovered s (codes "duty.on") _ _ m.core _ ok.replays
        (on_step s (m.journal_seq + 1) _ m.core) refl (duty-IsSound s m.core ok.sound false)

  module _ (o : Surroundings) (quiet : AreQuiet s o) where
    forget_session-IsRecovered :
        (m : Machine) → IsRecovered s m → Leaves s (IsRecovered s) (forget_session s o m)
    unfolding forget_session journal
    forget_session-IsRecovered m ok =
        elim (Bool-cases (o.add_handover_note (codes "fresh") m.core.session_id m).1) [
          | inl sent ↦ rw sent (record {
            replays =
                advance s (codes "session.rotated") _ noted noted_ok.replays
                  (fresh_step s (noted.journal_seq + 1) m.core.session_id noted.core);
            sound = without_session-IsSound s noted.core noted_ok.sound;
          })
          | inr refused ↦ rw refused noted_ok
        ]
      where
        noted : Machine
        noted = (o.add_handover_note (codes "fresh") m.core.session_id m).0

        noted_ok : IsRecovered s noted
        noted_ok =
            quiet-IsRecovered s (λ m'. (o.add_handover_note (codes "fresh") m.core.session_id m').0)
              (quiet.note (codes "fresh") m.core.session_id) m ok

    pub restart-IsRecovered :
        (r : Fields) (m : Machine)
        → 0 < s.burst
        → IsRecovered s m
        → Leaves s (IsRecovered s) (restart s o r m)
    unfolding restart
    restart-IsRecovered r m positive ok =
        Leaves-afterwards s (IsRecovered s) (IsRecovered s)
          (if is_fresh then forget_session s o cleared else went cleared) _
          (Leaves-if s (IsRecovered s) is_fresh (forget_session s o cleared) (went cleared)
            (forget_session-IsRecovered cleared cleared_ok) cleared_ok)
          (λ m' ok. ok)
          (λ fresh fresh_ok.
            Leaves-afterwards s (IsRecovered s) (IsRecovered s)
              (done_control s r (codes "restarting") fresh) _
              (told_control-IsRecovered r (codes "restarting") fresh fresh_ok) (λ m' ok. ok)
              (λ done done_ok. elim (Bool-cases is_hard) [
                | inl hard ↦
                    rw hard (Keeps-IsRecovered s done _ (refl, λ c replays. replays) done_ok)
                | inr soft ↦
                    rw soft (Keeps-IsRecovered s done _ (refl, λ c replays. replays) done_ok)
              ]))
      where
        cleared : Machine
        cleared = clear_brake s m

        cleared_ok : IsRecovered s cleared
        cleared_ok = clear_brake-IsRecovered m positive ok

        is_fresh : Bool
        is_fresh = truthy (get_or (codes "fresh") (bool false) r)

        is_hard : Bool
        is_hard = truthy (get_or (codes "hard") (bool false) r)
