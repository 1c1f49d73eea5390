-- ===== src/Supervisor/EndedTurns.antt =====
-- What `restore` of lib/aib_supervisor.py makes of the records that the end of a turn writes: the
-- memory that the supervisor has.
use ai_bobnet.Control.Log.{numbered}
use mathlib.Core.Bool.{false}
use ai_bobnet.Supervisor.Machine.{Setting}
use ai_bobnet.Supervisor.Results.{is_resumed, release_brake, count_turn}
use ai_bobnet.Supervisor.Memory.{at_least, Core, truthy, is_true, as_int, is_text}
use ai_bobnet.Json.{value_eq, str, Fields, null, ℤ, Value, is_str, get}
use ai_bobnet.Supervisor.Turns.{begin_episode, plus_one, ended_fields, count_outage, count_failure}
use ai_bobnet.Supervisor.Restore.{
  succeeded, first_episode, outage, healed, braked, ended, restore_record,
}
use ai_bobnet.Base.{
  inr, inl, ◌==◌, Bool-cases, ◌||◌, some, refl, none, codes, Option, arith, true, Text, ◌≡◌, ℕ,
  if◌then◌else◌, Bool, text_eq,
}

-- a time of tripping that is written is the one that is read
pub kept_time :
    (test : Bool) (v w : Value)
    → truthy v ≡ true
    → (if truthy (if test then v else w) then (if test then v else w) else w)
      ≡ (if test then v else w)
kept_time true v w shown = ground arith
kept_time false v w shown = ground arith

same_time : (v : Value) → (if truthy v then v else v) ≡ v
same_time v = ground arith

episode_same :
    (attempt_id : Text) (episode : Option Text)
    → first_episode episode (str attempt_id) ≡ begin_episode attempt_id episode
unfolding first_episode
episode_same attempt_id none = refl
episode_same attempt_id (some e) = refl

or_hint : (new old : Bool) → (old || new) ≡ (if new then true else old)
or_hint new old = ground arith

module _ (s : Setting) where
  -- the record that ends a turn
  abbrev pub end_record : ℕ → Core → Text → Text → Text → ℤ → Bool → Option Text → Fields
  end_record n c id attempt_id name rc login_hint reason =
      numbered n s.utc (codes "turn.ended") (ended_fields c id attempt_id name rc login_hint reason)

  module _ (n : ℕ) (id attempt_id : Text) (rc : ℤ) (c : Core) where
    pub failed_step :
        (reason : Option Text)
        → truthy (str s.utc) ≡ true
        → restore_record s.text_of
            (end_record n
              (count_failure s (healed c))
              id
              attempt_id
              (codes "provider_failure")
              rc
              false
              reason)
            c
          ≡ count_failure s (healed c)
    unfolding restore_record ended braked healed count_failure get is_str text_eq is_text as_int
    failed_step reason shown =
        rw
          (kept_time (at_least (plus_one c.brake_consecutive) s.burst) (str s.utc)
            c.brake_tripped_at shown)
          refl

    -- a class that only shows the brake
    pub lost_step :
        restore_record s.text_of
          (end_record n c id attempt_id (codes "session_lost") rc false none)
          c
        ≡ c
    unfolding restore_record ended braked get is_str text_eq is_text as_int
    lost_step = rw (same_time c.brake_tripped_at) refl

    pub in_use_step :
        restore_record s.text_of
          (end_record n c id attempt_id (codes "session_in_use") rc false none)
          c
        ≡ c
    unfolding restore_record ended braked get is_str text_eq is_text as_int
    in_use_step = rw (same_time c.brake_tripped_at) refl

    pub cancelled_step :
        restore_record s.text_of (end_record n c id attempt_id (codes "cancelled") rc false none) c
        ≡ c
    unfolding restore_record ended braked get is_str text_eq is_text as_int
    cancelled_step = rw (same_time c.brake_tripped_at) refl

    -- an outage
    pub infra_step :
        (login_hint : Bool)
        → restore_record s.text_of
            (end_record n
              (count_outage attempt_id login_hint c)
              id
              attempt_id
              (codes "infra")
              rc
              login_hint
              none)
            c
          ≡ count_outage attempt_id login_hint c
    unfolding restore_record ended braked outage first_episode is_true count_outage get is_str
        text_eq is_text as_int
    infra_step true =
        rw
          (
            same_time c.brake_tripped_at,
            episode_same attempt_id c.infra_episode,
            or_hint true c.infra_login_hint,
          )
          refl
    infra_step false =
        rw
          (
            same_time c.brake_tripped_at,
            episode_same attempt_id c.infra_episode,
            or_hint false c.infra_login_hint,
          )
          refl

    -- a good turn, but for the streak of lost sessions
    pub good_step :
        (session_arg : Text)
        → c.brake_tripped_at ≡ null
        → value_eq c.session_id c.session_id ≡ true
        → restore_record s.text_of
            (end_record n
              (count_turn (release_brake session_arg c))
              id
              attempt_id
              (codes "ok")
              rc
              false
              none)
            c
          ≡ record (count_turn (release_brake session_arg c)) {
            persistence_failure_streak = c.persistence_failure_streak;
            persistence_episode = c.persistence_episode;
          }
    unfolding restore_record ended braked succeeded healed count_turn release_brake get is_str
        text_eq is_text as_int
    good_step session_arg clear same = elim (Bool-cases (c.persistence_failure_streak == 0)) [
      | inl kept ↦ rw (kept, clear, same) refl
      | inr lost ↦ elim (Bool-cases (is_resumed session_arg)) [
        | inl resumed ↦ rw (lost, resumed, clear, same) refl
        | inr new ↦ rw (lost, new, clear, same) refl
      ]
    ]
