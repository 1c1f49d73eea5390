-- ===== src/Supervisor/Sound.antt =====
-- The changes of the memory in lib/aib_supervisor.py keep it well formed.
use ai_bobnet.Supervisor.Recovered.{IsSound}
use ai_bobnet.Supervisor.Machine.{Setting}
use ai_bobnet.Supervisor.Results.{is_resumed, release_brake, count_turn}
use ai_bobnet.Supervisor.Turns.{plus_one, fail_persistence, count_failure, count_outage}
use ai_bobnet.Supervisor.Restore.{reset, healed}
use ai_bobnet.Json.{Value, str, value_eq}
use ai_bobnet.Supervisor.Memory.{at_least, truthy, Core, without_session}
use ai_bobnet.Base.{
  inr, ◌==◌, arith, text_eq_refl, Bool-cases, inl, true, ◌≡◌, refl, false, ◌<◌, Bool, Text, ◌∷◌,
}

module _ (s : Setting) (c : Core) (sound : IsSound s c) where
  pub without_session-IsSound : IsSound s (without_session c)
  unfolding without_session value_eq
  without_session-IsSound = record {
    session = refl;
    time = sound.time;
    tripped = sound.tripped;
    episode = sound.episode;
  }

  pub healed-IsSound : IsSound s (healed c)
  unfolding healed
  healed-IsSound = record {
    session = sound.session;
    time = sound.time;
    tripped = sound.tripped;
    episode = sound.episode;
  }

  pub count_outage-IsSound :
      (attempt_id : Text) (login_hint : Bool) → IsSound s (count_outage attempt_id login_hint c)
  unfolding count_outage
  count_outage-IsSound attempt_id login_hint = record {
    session = sound.session;
    time = sound.time;
    tripped = sound.tripped;
    episode = sound.episode;
  }

  pub count_failure-IsSound : truthy (str s.utc) ≡ true → IsSound s (count_failure s c)
  unfolding count_failure
  count_failure-IsSound shown =
      elim (Bool-cases (at_least (plus_one c.brake_consecutive) s.burst)) [
        | inl reached ↦ record {
          session = sound.session;
          time = rw reached (inr shown);
          tripped = rw reached (λ reached. shown);
          episode = sound.episode;
        }
        | inr below ↦ record {
          session = sound.session;
          time = rw below sound.time;
          tripped = λ reached. cc;
          episode = sound.episode;
        }
      ]

  pub bound-IsSound :
      (sid cwd : Text)
      → IsSound s (record c {
        session_id = str sid;
        session_cwd = str cwd;
        session_new = true;
        turns_in_session = 0;
      })
  unfolding value_eq
  bound-IsSound sid cwd = record {
    session = text_eq_refl sid;
    time = sound.time;
    tripped = sound.tripped;
    episode = sound.episode;
  }

  pub reset-IsSound : 0 < s.burst → IsSound s (reset c)
  unfolding reset
  reset-IsSound positive = record {
    session = sound.session;
    time = inl refl;
    tripped = λ reached. ground arith;
    episode = λ none_lost. refl;
  }

  pub consumed-IsSound : (v : Value) → IsSound s (record c { consumed = v ∷ c.consumed })
  consumed-IsSound v = record {
    session = sound.session;
    time = sound.time;
    tripped = sound.tripped;
    episode = sound.episode;
  }

  pub duty-IsSound : (off : Bool) → IsSound s (record c { off_duty = off })
  duty-IsSound off = record {
    session = sound.session;
    time = sound.time;
    tripped = sound.tripped;
    episode = sound.episode;
  }

  pub started-IsSound : IsSound s (record c { session_new = false })
  started-IsSound = record {
    session = sound.session;
    time = sound.time;
    tripped = sound.tripped;
    episode = sound.episode;
  }

  pub count_turn-IsSound :
      0 < s.burst → (session_arg : Text) → IsSound s (count_turn (release_brake session_arg c))
  unfolding count_turn release_brake healed
  count_turn-IsSound positive session_arg = elim (Bool-cases (c.persistence_failure_streak == 0)) [
    | inl kept ↦ rw kept (record {
      session = sound.session;
      time = inl refl;
      tripped = λ reached. ground arith;
      episode = sound.episode;
    })
    | inr lost ↦ elim (Bool-cases (is_resumed session_arg)) [
      | inl resumed ↦
          rw (lost, resumed)
            (record {
              session = sound.session;
              time = inl refl;
              tripped = λ reached. ground arith;
              episode = λ zero. refl;
            })
      | inr new ↦
          rw (lost, new)
            (record {
              session = sound.session;
              time = sound.time;
              tripped = sound.tripped;
              episode = sound.episode;
            })
    ]
  ]

pub fail_persistence-IsSound :
    (s : Setting) (c : Core) (attempt_id : Text)
    → IsSound s c
    → truthy (str s.utc) ≡ true
    → IsSound s (fail_persistence s attempt_id c)
unfolding fail_persistence healed
fail_persistence-IsSound s c attempt_id sound shown =
    count_failure-IsSound s _
      (record {
        session = sound.session;
        time = sound.time;
        tripped = sound.tripped;
        episode = λ zero. ground arith;
      })
      shown
