-- ===== src/Supervisor/Recovered.antt =====
-- The recovery of lib/aib_supervisor.py: its memory is what a restart restores. What the end of a turn
-- keeps of that.
use ai_bobnet.Supervisor.Recovery.{Replays}
use ai_bobnet.Json.{ℤ, null, Value, value_eq}
use ai_bobnet.Supervisor.Sessions.{Surroundings}
use ai_bobnet.Supervisor.Memory.{at_least, truthy, Core}
use ai_bobnet.Supervisor.Machine.{broke, Work, went, Ran, Machine, Setting}
use ai_bobnet.Base.{none, Bool, ◌⊎◌, true, Text, ◌≡◌}

module _ (s : Setting) where
  -- The memory is well formed: the session equals itself (it is no NaN); a time of tripping is null or a
  -- text; the brake at its limit has tripped; without lost sessions there is no episode of them.
  pub record IsSound (c : Core) : Type 0 where
    pub session : value_eq c.session_id c.session_id ≡ true
    pub time : (c.brake_tripped_at ≡ null) ⊎ (truthy c.brake_tripped_at ≡ true)
    pub tripped : at_least c.brake_consecutive s.burst ≡ true → truthy c.brake_tripped_at ≡ true
    pub episode : c.persistence_failure_streak ≡ 0 → c.persistence_episode ≡ none

  -- what a restart restores is the memory, and this is well formed
  pub record IsRecovered (m : Machine) : Type 0 where
    pub replays : Replays s m m.core
    pub sound : IsSound m.core

  -- the same for a step that may break off
  abbrev pub Leaves : (Machine → Type 0) → Ran → Type 0
  Leaves P (went m) = P m
  Leaves P (broke m) = P m

  -- An operation keeps the memory, and all that it journals is passed over by `restore`.
  abbrev pub IsQuiet : (Machine → Machine) → Type 0
  IsQuiet f =
      (m : Machine) → ((f m).core ≡ m.core) × ((c : Core) → Replays s m c → Replays s (f m) c)

  pub quiet-IsRecovered :
      (f : Machine → Machine) → IsQuiet f → (m : Machine) → IsRecovered m → IsRecovered (f m)
  quiet-IsRecovered f quiet m ok = record {
    replays = rw ((quiet m).0) ((quiet m).1 m.core ok.replays);
    sound = rw ((quiet m).0) ok.sound;
  }

  -- the parts of the class that the modelled ones call
  pub record AreQuiet (o : Surroundings) : Type 0 where
    pub alarm : (kind : Text) → IsQuiet (o.write_alarm kind)
    pub note :
        (reason : Text) (previous : Value)
        → IsQuiet (λ m. (o.add_handover_note reason previous m).0)
    pub intents :
        (work : Work) (attempt_id : Text) (rc : ℤ) (text : Text)
        → IsQuiet (λ m. (o.apply_intents work attempt_id rc text m).machine)
    pub report :
        (work : Work) (attempt_id : Text) (is_handled : Bool)
        → IsQuiet (o.missing_report work attempt_id is_handled)
    pub service : (work : Work) (attempt_id : Text) → IsQuiet (o.service_fail work attempt_id)
