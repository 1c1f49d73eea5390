-- ===== src/Supervisor/Restore.antt =====
-- `restore` of lib/aib_supervisor.py, one function per branch of its loop. `text_of` is Python's `str`
-- of a decoded value.
use ai_bobnet.Json.{
  as_str, is_null, get_or, null, is_str, value_eq, int, str, pos, get, Value, Fields,
}
use ai_bobnet.Supervisor.Memory.{
  increment, Tallies, at_least, remove, initial_tallies, initial_core, Core, without_session,
  is_text, is_true, truthy, as_int,
}
use ai_bobnet.Base.{
  ltb, ◌&&◌, ◌+◌, true, suc, false, some, codes, List, Bool, none, if◌then◌else◌, Text, ℕ, Option,
  [], ◌∷◌,
}

-- session.bound
unfoldable pub bound : Fields → Core → Core
bound r c = record c {
  session_id = get (codes "sid") r;
  session_cwd = get (codes "cwd") r;
  turns_in_session = 0;
  session_new = true;
}

-- turn.started
unfoldable pub started : Fields → Core → Core
started r c = record c {
  session_new = if value_eq (get (codes "sid") r) c.session_id then false else c.session_new;
}

-- the brake in turn.ended
unfoldable pub braked : Fields → Core → Core
unfolding as_int truthy
braked r c = record c {
  brake_consecutive = elim (as_int (get (codes "brake") r)) [
    | none ↦ c.brake_consecutive
    | some n ↦ n
  ];
  brake_tripped_at =
      if truthy (get (codes "tripped_at") r)
      then get (codes "tripped_at") r
      else c.brake_tripped_at;
}

-- the first attempt of an outage
unfoldable pub first_episode : Option Text → Value → Option Text
first_episode none (str s) = some s
first_episode episode _ = episode

unfoldable pub healed : Core → Core
healed c = record c { infra_episode = none; infra_login_hint = false }

unfoldable pub outage : Fields → Core → Core
unfolding first_episode is_true
outage r c = record c {
  infra_episode = first_episode c.infra_episode (get (codes "attempt_id") r);
  infra_login_hint = if is_true (get (codes "login_hint") r) then true else c.infra_login_hint;
}

unfoldable pub succeeded : Fields → Core → Core
unfolding healed
succeeded r c = record (healed c) {
  turns_in_session =
      if value_eq (get (codes "sid") r) c.session_id
      then c.turns_in_session + 1
      else c.turns_in_session;
}

abbrev pub class_is : Fields → Text → Bool
class_is r name = is_str (get (codes "class") r) name

-- turn.ended
unfoldable pub ended : Fields → Core → Core
unfolding braked is_text healed outage succeeded
ended r c =
    let c' = braked r c in
    let has_message = is_text (get (codes "msg_id") r) in
    if class_is r (codes "provider_failure") && has_message
    then healed c'
    else if class_is r (codes "session_lost") && has_message
    then c'
    else if class_is r (codes "infra")
    then outage r c'
    else if class_is r (codes "ok")
    then succeeded r c'
    else c'

-- brake.reset
unfoldable pub reset : Core → Core
reset c = record c {
  brake_consecutive = pos 0;
  brake_tripped_at = null;
  persistence_failure_streak = 0;
  persistence_episode = none;
}

-- a streak that is an int above 0 and no Boolean, or one more than before
unfoldable pub next_streak : ℕ → Value → ℕ
next_streak streak (int (pos (suc n))) = suc n
next_streak streak _ = streak + 1

-- a text that is not empty, or else the episode before, or else the time
unfoldable pub next_episode : Text → Option Text → Value → Option Text
next_episode ts episode (str (c ∷ s)) = some (c ∷ s)
next_episode ts (some e) _ = some e
next_episode ts none _ = some ts

-- session.persistence_failed
unfoldable pub persistence_failed : (Value → Text) → Fields → Core → Core
unfolding without_session next_streak next_episode
persistence_failed text_of r c =
    let c' = record c {
      persistence_failure_streak =
          next_streak c.persistence_failure_streak (get (codes "streak") r);
      persistence_episode =
          next_episode (text_of (get_or (codes "ts") (str (codes "legacy")) r))
            c.persistence_episode (get (codes "episode") r);
    } in
    if value_eq (get (codes "sid") r) c.session_id then without_session c' else c'

-- session.persistence_restored
unfoldable pub persistence_restored : Core → Core
persistence_restored c = record c { persistence_failure_streak = 0; persistence_episode = none }

-- ctl.consumed with a request's number
unfoldable pub consume : Value → Core → Core
unfolding as_int
consume v c = elim (as_int v) [ none ↦ c | some n ↦ record c { consumed = v ∷ c.consumed } ]

abbrev pub event_is : Fields → Text → Bool
event_is r name = is_str (get (codes "event") r) name

-- one record of the loop
unfoldable pub restore_record : (Value → Text) → Fields → Core → Core
unfolding bound started ended reset persistence_failed persistence_restored consume without_session
restore_record text_of r c =
    if event_is r (codes "session.bound")
    then bound r c
    else if event_is r (codes "turn.started")
    then started r c
    else if event_is r (codes "turn.ended")
    then ended r c
    else if event_is r (codes "duty.off")
    then record c { off_duty = true }
    else if event_is r (codes "duty.on")
    then record c { off_duty = false }
    else if event_is r (codes "brake.reset")
    then reset c
    else if event_is r (codes "session.rotated") && is_str (get (codes "reason") r) (codes "fresh")
    then without_session c
    else if event_is r (codes "session.persistence_failed")
    then persistence_failed text_of r c
    else if event_is r (codes "session.persistence_restored")
    then persistence_restored c
    else if event_is r (codes "ctl.consumed")
    then consume (get (codes "req") r) c
    else c

unfoldable pub restore_records : (Value → Text) → List Fields → Core → Core
restore_records text_of [] c = c
restore_records text_of (r ∷ records) c =
    restore_records text_of records (restore_record text_of r c)

-- the brake that is at its limit and has no time of tripping
unfoldable pub arm : ℕ → Text → Core → Core
arm burst utc c =
    if at_least c.brake_consecutive burst && is_null c.brake_tripped_at
    then record c { brake_tripped_at = str utc }
    else c

-- what a start remembers of the journal
unfoldable pub restore_core : (Value → Text) → ℕ → Text → List Fields → Core
unfolding arm initial_core
restore_core text_of burst utc records =
    arm burst utc (restore_records text_of records initial_core)

-- message_failures and session_loss_counts after one record
unfoldable pub restore_tallies : Fields → Tallies → Tallies
unfolding initial_tallies remove
restore_tallies r t =
    if event_is r (codes "turn.ended")
    then elim (as_str (get (codes "msg_id") r)) [
      | none ↦ t
      | some id ↦
          if class_is r (codes "provider_failure")
          then record t { message_failures = increment id t.message_failures }
          else if class_is r (codes "session_lost")
          then record t { session_loss_counts = increment id t.session_loss_counts }
          else if class_is r (codes "ok")
          then forget id t
          else t
    ]
    else if event_is r (codes "brake.reset")
    then initial_tallies
    else if event_is r (codes "session.persistence_failed")
    then elim (as_str (get (codes "msg_id") r)) [ none ↦ t | some id ↦ forget id t ]
    else t
  where
    forget : Text → Tallies → Tallies
    forget id t = record {
      message_failures = remove id t.message_failures;
      session_loss_counts = remove id t.session_loss_counts;
    }

-- the last turn that was started, and the positions of the last start and the last end, from 1 on
pub record Positions : Type 0 where
  pub latest_start : Option Fields
  pub start_index : ℕ
  pub end_index : ℕ

-- what the record at this index, from 0 on, changes of them
unfoldable pub turn_position : ℕ → Fields → Positions → Positions
turn_position index r p =
    if event_is r (codes "turn.started")
    then record p { latest_start = some r; start_index = index + 1 }
    else if event_is r (codes "turn.ended")
    then record p { end_index = index + 1 }
    else p

unfoldable pub turn_positions : ℕ → List Fields → Positions → Positions
unfolding turn_position
turn_positions index [] p = p
turn_positions index (r ∷ records) p = turn_positions (index + 1) records (turn_position index r p)

-- the turn that `restore` returns
unfoldable pub unfinished : List Fields → Option Fields
unfolding turn_positions
unfinished records =
    let p =
      turn_positions 0 records (record { latest_start = none; start_index = 0; end_index = 0 }) in
    if ltb p.end_index p.start_index then p.latest_start else none
