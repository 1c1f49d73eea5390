-- ===== src/Supervisor/Quiet.antt =====
-- Operations of lib/aib_supervisor.py that change nothing of what a restart restores.
use mathlib.Core.Bool.{false, true}
use ai_bobnet.Control.Log.{Log, append_record, numbered}
use ai_bobnet.Supervisor.Restore.{restore_record}
use ai_bobnet.Supervisor.JournalSteps.{done_step, step}
use ai_bobnet.Supervisor.Recovery.{journal-Replays, Replays}
use ai_bobnet.Supervisor.Memory.{Core}
use ai_bobnet.Supervisor.Sessions.{Surroundings}
use ai_bobnet.Json.{end, str, is_null, field, Fields}
use ai_bobnet.Supervisor.Recovered.{IsSound, Leaves, AreQuiet, IsRecovered, IsQuiet}
use ai_bobnet.Supervisor.Turns.{give_up, settle_brake, tell_failure}
use ai_bobnet.Supervisor.Results.{set_ready}
use ai_bobnet.Supervisor.Machine.{
  set_state, rotation, broke, handover, went, work_id, afterwards, routine, message_command,
  message, control_values, Ran, Work, Machine, Setting, done_control, journal, control_event,
  heartbeat,
}
use ai_bobnet.Base.{
  if◌then◌else◌, Bool, some, ◌∙◌, inr, Option, inl, ◌+◌, text_eq, refl, codes, ℕ, Bool-cases, ◌≡◌,
  Text, [], ◌∷◌, none,
}

module _ (s : Setting) where
  -- one more record, with what `restore` makes of it
  pub advance :
      (event : Text) (fields : Fields) (m : Machine) {c c' : Core}
      → Replays s m c
      → restore_record s.text_of (numbered (m.journal_seq + 1) s.utc event fields) c ≡ c'
      → Replays s (journal s event fields m) c'
  advance event fields m replays step = journal-Replays s event fields m replays ∙ step

  -- the memory is kept, and the replay too
  abbrev pub Keeps : Machine → Machine → Type 0
  Keeps m m' = (m'.core ≡ m.core) × ((c : Core) → Replays s m c → Replays s m' c)

  abbrev pub IsSilent : (Machine → Ran) → Type 0
  IsSilent k = (m : Machine) → Leaves s (Keeps m) (k m)

  pub Keeps-IsRecovered : (m m' : Machine) → Keeps m m' → IsRecovered s m → IsRecovered s m'
  Keeps-IsRecovered m m' keeps ok = record {
    replays = rw (keeps.0) (keeps.1 m.core ok.replays);
    sound = rw (keeps.0) ok.sound;
  }

  -- a memory that has changed, and the record of the change
  pub journal-IsRecovered :
      (event : Text) (fields : Fields) (m : Machine) (c c' : Core)
      → Replays s m c
      → restore_record s.text_of (numbered (m.journal_seq + 1) s.utc event fields) c ≡ c'
      → m.core ≡ c'
      → IsSound s c'
      → IsRecovered s (journal s event fields m)
  unfolding journal
  journal-IsRecovered event fields m c c' replays step same sound = record {
    replays = rw same (advance event fields m replays step);
    sound = rw same sound;
  }

  pub Leaves-mono :
      (P Q : Machine → Type 0) (r : Ran) → ((m : Machine) → P m → Q m) → Leaves s P r → Leaves s Q r
  Leaves-mono P Q (went m) f p = f m p
  Leaves-mono P Q (broke m) f p = f m p

  pub Leaves-afterwards :
      (P Q : Machine → Type 0) (r : Ran) (k : Machine → Ran)
      → Leaves s P r
      → ((m : Machine) → P m → Q m)
      → ((m : Machine) → P m → Leaves s Q (k m))
      → Leaves s Q (afterwards r k)
  Leaves-afterwards P Q (went m) k p q next = next m p
  Leaves-afterwards P Q (broke m) k p q next = q m p

  pub Leaves-if :
      (P : Machine → Type 0) (test : Bool) (r r' : Ran)
      → Leaves s P r
      → Leaves s P r'
      → Leaves s P (if test then r else r')
  Leaves-if P true r r' p p' = p
  Leaves-if P false r r' p p' = p'

  pub heartbeat-IsQuiet : (status detail : Text) → IsQuiet s (heartbeat status detail)
  unfolding heartbeat
  heartbeat-IsQuiet status detail m = elim (Bool-cases (text_eq status m.last_heartbeat)) [
    | inl same ↦ rw same (refl, λ c replays. replays)
    | inr other ↦ rw other (refl, λ c replays. replays)
  ]

  pub set_ready-IsQuiet : IsQuiet s set_ready
  unfolding set_ready
  set_ready-IsQuiet m = (refl, λ c replays. replays)

  -- an event that `restore` passes over
  abbrev pub IsIgnored : Text → Type 0
  IsIgnored event = (n : ℕ) (fields : Fields) (c : Core) → step s n event fields c ≡ c

  pub control_event-IsSilent :
      (event : Text) (request extra : Fields)
      → IsIgnored event
      → IsSilent (control_event s event request extra)
  unfolding control_event journal
  control_event-IsSilent event request extra ignored m =
      go (append_record s.coerced m.control_log s.utc event values)
    where
      values : Fields
      values = control_values s request extra

      kept : (c : Core) → Replays s m c → Replays s (journal s event values m) c
      kept c replays = advance event values m replays (ignored (m.journal_seq + 1) values c)

      go :
          (done : Option (Log × Fields))
          → Leaves s (Keeps m) (elim done [
            | none ↦ broke (journal s event values m)
            | some done ↦ went (record (journal s event values m) { control_log = done.0 })
          ])
      go none = (refl, kept)
      go (some done) = (refl, kept)

  pub done_control-IsSilent :
      (request : Fields) (result : Text) → IsSilent (done_control s request result)
  unfolding done_control
  done_control-IsSilent request result m =
      control_event-IsSilent (codes "ctl.done") request (field (codes "result") (str result) end)
        (done_step s) m

  pub tell_failure-IsSilent : (work : Work) (reason : Text) → IsSilent (tell_failure s work reason)
  unfolding tell_failure
  tell_failure-IsSilent (message id task) reason m = (refl, λ c replays. replays)
  tell_failure-IsSilent (routine id action request) reason m =
      done_control-IsSilent request reason m
  tell_failure-IsSilent (handover id resume) reason m = (refl, λ c replays. replays)
  tell_failure-IsSilent (rotation id queued) reason m = (refl, λ c replays. replays)

  module _ (o : Surroundings) (quiet : AreQuiet s o) where
    pub settle_brake-IsQuiet : (reason : Text) → IsQuiet s (settle_brake s o reason)
    unfolding settle_brake
    settle_brake-IsQuiet reason m = elim (Bool-cases (is_null m.core.brake_tripped_at)) [
      | inl clear ↦ rw clear (refl, λ c replays. replays)
      | inr tripped ↦
          let alarmed = quiet.alarm (codes "brake_tripped") m in
          let told =
            heartbeat-IsQuiet (codes "blocked") (codes "supervisor provider-failure brake tripped")
              (set_state (codes "FAILED") (codes "brake")
                (o.write_alarm (codes "brake_tripped") m)) in
          rw tripped (told.0 ∙ alarmed.0, λ c replays. told.1 c (alarmed.1 c replays))
    ]

    pub give_up-IsQuiet :
        (work : Work) (attempt_id detail : Text) → IsQuiet s (give_up o work attempt_id detail)
    unfolding give_up
    give_up-IsQuiet work attempt_id detail m =
        quiet.service work attempt_id
          (message_command (codes "fail" ∷ work_id work ∷ detail ∷ []) m)
