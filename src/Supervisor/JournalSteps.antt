-- ===== src/Supervisor/JournalSteps.antt =====
-- What `restore` of lib/aib_supervisor.py makes of the other records that the supervisor writes.
use ai_bobnet.Supervisor.EndedTurns.{kept_time}
use ai_bobnet.Control.Log.{numbered}
use ai_bobnet.Supervisor.Machine.{Setting}
use ai_bobnet.Json.{end, field, value_eq, ℤ, str, pos, Value, Fields, int, has, is_str, get}
use ai_bobnet.Supervisor.Turns.{
  begin_episode, or_null, plus_one, not_kept, failed_fields, ended_fields, fail_persistence,
  count_failure,
}
use ai_bobnet.Supervisor.Memory.{at_least, Core, without_session, as_int, is_text, truthy}
use ai_bobnet.Supervisor.Restore.{
  reset, persistence_restored, started, consume, bound, persistence_failed, healed, braked, ended,
  restore_record, next_episode, next_streak,
}
use ai_bobnet.Base.{
  none, arith, suc, refl, some, false, true, ◌≡◌, ◌+◌, codes, Option, Text, ℕ, text_eq, [], ◌∷◌,
}

add_one : (n : ℕ) → n + 1 ≡ suc n
add_one n = omega arith

next_streak_same : (before n : ℕ) → next_streak before (int (pos (n + 1))) ≡ n + 1
unfolding next_streak
next_streak_same before n = rw (add_one n) refl

next_episode_same :
    (ts attempt_id : Text) (episode : Option Text)
    → truthy (str attempt_id) ≡ true
    → next_episode ts episode (or_null (begin_episode attempt_id episode))
      ≡ begin_episode attempt_id episode
unfolding next_episode truthy
next_episode_same ts [] none shown = cc
next_episode_same ts (c ∷ s) none shown = refl
next_episode_same ts attempt_id (some []) shown = refl
next_episode_same ts attempt_id (some (c ∷ s)) shown = refl

module _ (s : Setting) (n : ℕ) where
  abbrev pub step : Text → Fields → Core → Core
  step event fields c = restore_record s.text_of (numbered n s.utc event fields) c

  -- the second loss in a row: the end of its turn, and the record of the loss
  module _ (id attempt_id : Text) (c : Core) where
    abbrev pub before_loss : Core
    before_loss = record (fail_persistence s attempt_id c) {
      persistence_failure_streak = c.persistence_failure_streak;
      persistence_episode = c.persistence_episode;
    }

    pub unkept_end_step :
        (rc : ℤ)
        → truthy (str s.utc) ≡ true
        → step
            (codes "turn.ended")
            (ended_fields
              (fail_persistence s attempt_id c)
              id
              attempt_id
              (codes "provider_failure")
              rc
              false
              (some not_kept))
            c
          ≡ before_loss
    unfolding restore_record ended braked healed count_failure fail_persistence get is_str text_eq
        is_text as_int
    unkept_end_step rc shown =
        rw
          (kept_time (at_least (plus_one c.brake_consecutive) s.burst) (str s.utc)
            c.brake_tripped_at shown)
          refl

    pub unkept_step :
        truthy (str attempt_id) ≡ true
        → value_eq c.session_id c.session_id ≡ true
        → step
            (codes "session.persistence_failed")
            (failed_fields (fail_persistence s attempt_id c) id)
            before_loss
          ≡ without_session (fail_persistence s attempt_id c)
    unfolding restore_record persistence_failed healed count_failure fail_persistence get is_str
        text_eq without_session has
    unkept_step named same =
        rw
          (
            same,
            next_streak_same c.persistence_failure_streak c.persistence_failure_streak,
            next_episode_same (s.text_of (str s.utc)) attempt_id c.persistence_episode named,
          )
          refl

  pub restored_step :
      (fields : Fields) (c : Core)
      → step (codes "session.persistence_restored") fields c ≡ persistence_restored c
  unfolding restore_record get is_str text_eq
  restored_step fields c = refl

  pub bound_step :
      (sid cwd : Text) (c : Core)
      → step
          (codes "session.bound")
          (field
            (codes "agent")
            (str s.uid)
            (field (codes "sid") (str sid) (field (codes "cwd") (str cwd) end)))
          c
        ≡ record c {
          session_id = str sid;
          session_cwd = str cwd;
          session_new = true;
          turns_in_session = 0;
        }
  unfolding restore_record bound get is_str text_eq
  bound_step sid cwd c = refl

  -- the events that `restore` passes over
  pub rebound_step : (fields : Fields) (c : Core) → step (codes "session.rebound") fields c ≡ c
  unfolding restore_record get is_str text_eq
  rebound_step fields c = refl

  pub accepted_step : (fields : Fields) (c : Core) → step (codes "ctl.accepted") fields c ≡ c
  unfolding restore_record get is_str text_eq
  accepted_step fields c = refl

  pub rejected_step : (fields : Fields) (c : Core) → step (codes "ctl.rejected") fields c ≡ c
  unfolding restore_record get is_str text_eq
  rejected_step fields c = refl

  pub done_step : (fields : Fields) (c : Core) → step (codes "ctl.done") fields c ≡ c
  unfolding restore_record get is_str text_eq
  done_step fields c = refl

  pub max_turns_step :
      (previous : Value) (c : Core)
      → step
          (codes "session.rotated")
          (field (codes "reason") (str (codes "max_turns")) (field (codes "prev_sid") previous end))
          c
        ≡ c
  unfolding restore_record get is_str text_eq
  max_turns_step previous c = refl

  pub unknown_sid_step :
      (previous : Value) (c : Core)
      → step
          (codes "session.rotated")
          (field
            (codes "reason")
            (str (codes "unknown_sid"))
            (field (codes "prev_sid") previous end))
          c
        ≡ c
  unfolding restore_record get is_str text_eq
  unknown_sid_step previous c = refl

  pub fresh_step :
      (previous : Value) (c : Core)
      → step
          (codes "session.rotated")
          (field (codes "reason") (str (codes "fresh")) (field (codes "prev_sid") previous end))
          c
        ≡ without_session c
  unfolding restore_record get is_str text_eq
  fresh_step previous c = refl

  pub off_step :
      (fields : Fields) (c : Core) → step (codes "duty.off") fields c ≡ record c { off_duty = true }
  unfolding restore_record get is_str text_eq
  off_step fields c = refl

  pub on_step :
      (fields : Fields) (c : Core) → step (codes "duty.on") fields c ≡ record c { off_duty = false }
  unfolding restore_record get is_str text_eq
  on_step fields c = refl

  pub reset_step : (fields : Fields) (c : Core) → step (codes "brake.reset") fields c ≡ reset c
  unfolding restore_record get is_str text_eq
  reset_step fields c = refl

  pub consumed_step :
      (v : Value) (k : ℤ) (c : Core)
      → as_int v ≡ some k
      → step (codes "ctl.consumed") (field (codes "req") v end) c
        ≡ record c { consumed = v ∷ c.consumed }
  unfolding restore_record consume get is_str text_eq
  consumed_step v k c numbered_v = rw numbered_v refl

  pub started_step :
      (id attempt_id : Text) (task : Fields) (c : Core)
      → value_eq c.session_id c.session_id ≡ true
      → step
          (codes "turn.started")
          (field (codes "msg_id") (str id) (field (codes "sid") c.session_id task))
          c
        ≡ record c { session_new = false }
  unfolding restore_record started get is_str text_eq
  started_step id attempt_id task c same = rw same refl
