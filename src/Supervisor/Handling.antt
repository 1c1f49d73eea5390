-- ===== src/Supervisor/Handling.antt =====
-- `clear_brake` and the handling of the verdicts in `process_controls` of lib/aib_supervisor.py.
use ai_bobnet.Supervisor.Restore.{reset}
use ai_bobnet.Supervisor.Memory.{initial_tallies, without_session, truthy}
use ai_bobnet.Supervisor.Sessions.{rotated, Surroundings}
use ai_bobnet.Supervisor.Controls.{
  crashed, is_forced, skipped, granted, is_running, refused, judge, Authority, Verdict, Candidate,
}
use ai_bobnet.Json.{end, negsuc, bool, int, get_or, field, pos, Fields, ℤ}
use ai_bobnet.Supervisor.Machine.{
  reexec, output, at, heartbeat, set_state, reject_control, accept_control, done_control,
  afterwards, broke, routine, journal, went, Work, Ran, Setting, Machine,
}
use ai_bobnet.Base.{
  ◌&&◌, some, decimal, List, text_eq, ◌++◌, ◌||◌, false, ◌==◌, Text, codes, not, true,
  if◌then◌else◌, ℕ, Bool, Dict, [], ◌∷◌,
}

-- Turns, as the control requests use them: `cancel_turn`, and `start_turn` on a routine.
pub record Turning : Type 0 where
  pub cancel_turn : Machine → Ran
  pub start_turn : Work → Machine → Ran

abbrev pub is_zero : ℤ → Bool
is_zero (pos n) = n == 0
is_zero (negsuc n) = false

abbrev is_empty_dict : Dict ℕ → Bool
is_empty_dict [] = true
is_empty_dict (_ ∷ _) = false

-- there is something for `clear_brake` to clear
unfoldable pub has_brake : Machine → Bool
has_brake m =
    not (is_zero m.core.brake_consecutive)
    || truthy m.core.brake_tripped_at
    || not (is_empty_dict m.tallies.message_failures)
    || not (is_empty_dict m.tallies.session_loss_counts)
    || not (m.core.persistence_failure_streak == 0)

-- `clear_brake`
unfoldable pub clear_brake : Setting → Machine → Machine
clear_brake s m =
    let told =
      if has_brake m
      then journal s (codes "brake.reset")
          (field (codes "previous") (int m.core.brake_consecutive) end) m
      else m in
    record told { core = reset told.core; tallies = initial_tallies; retry_at = at s.now }

-- neustart with `fresh`
unfoldable pub forget_session : Setting → Surroundings → Machine → Ran
forget_session s o m =
    let previous = m.core.session_id in
    let (noted, is_sent) = o.add_handover_note (codes "fresh") previous m in
    if is_sent
    then (let told = rotated s (codes "fresh") previous noted in
        went (record told { core = without_session told.core }))
    else broke noted

-- neustart: with `hard` the process ends with 75, else it replaces itself
unfoldable pub restart : Setting → Surroundings → Fields → Machine → Ran
restart s o r m =
    let cleared = clear_brake s m in
    let is_fresh = truthy (get_or (codes "fresh") (bool false) r) in
    let is_hard = truthy (get_or (codes "hard") (bool false) r) in
    afterwards (if is_fresh then forget_session s o cleared else went cleared) (λ fresh.
      afterwards (done_control s r (codes "restarting") fresh) (λ done. went (
        if is_hard
        then record done { stop_requested = true; exit_code = 75 }
        else output reexec done)))

-- `begin_control_routine`; the number of the request is decimal
unfoldable pub begin_control_routine : Turning → Candidate → Fields → Machine → Ran
begin_control_routine t c r m =
    let work = routine (codes "control-" ++ c.verb ++ codes "-" ++ decimal c.sequence) c.verb r in
    if is_running m then went m else t.start_turn work (record m { work = some work })

-- abschalten
unfoldable pub stop : Setting → Fields → Text → Machine → Ran
stop s r caller m =
    afterwards
      (done_control s r (codes "stopping") (
        heartbeat (codes "done") (codes "shut down by " ++ caller)
          (set_state (codes "STOPPING") [] m)))
      (λ m'. went (record m' { stop_requested = true }))

-- what an accepted request does, once a turn that is in the way is cancelled
unfoldable pub obey : Setting → Surroundings → Turning → Candidate → Text → Fields → Machine → Ran
obey s o t c caller r m =
    if text_eq c.verb (codes "reset-brake")
    then done_control s r (codes "reset") (set_state (codes "READY") [] (clear_brake s m))
    else if text_eq c.verb (codes "neustart")
    then restart s o r m
    else if text_eq c.verb (codes "feierabend")
    then begin_control_routine t c r m
    else if text_eq c.verb (codes "standup")
    then begin_control_routine t c r (
        journal s (codes "duty.on") (field (codes "req") (int (pos c.sequence)) end)
          (record m { core = record m.core { off_duty = false } }))
    else stop s r caller m

-- a request that is granted
unfoldable pub accept : Setting → Surroundings → Turning → Candidate → Text → Fields → Machine → Ran
accept s o t c caller r m = afterwards (accept_control s r m) (λ accepted.
    afterwards
      (if is_running accepted && is_forced r then t.cancel_turn accepted else went accepted)
      (obey s o t c caller r))

-- how the loop over the candidates goes on
pub data Handled : Type 0 where
  continues : Machine → Handled
  ends : Ran → Handled

abbrev pub goes_on : Ran → Handled
goes_on (went m) = continues m
goes_on (broke m) = ends (broke m)

unfoldable pub carry_out :
    Setting → Surroundings → Turning → Candidate → Machine → Verdict → Handled
carry_out s o t c m skipped = continues m
carry_out s o t c m (refused r reason caller) = goes_on (reject_control s r reason caller m)
carry_out s o t c m (granted r caller) = ends (accept s o t c caller r m)
carry_out s o t c m crashed = ends (broke m)

-- one round of the loop
unfoldable pub handle : Setting → Surroundings → Turning → Authority → Candidate → Machine → Handled
handle s o t a c m = carry_out s o t c m (judge s a c m)

-- `process_controls`, from the candidates in the order of their numbers
unfoldable pub process_controls :
    Setting → Surroundings → Turning → Authority → List Candidate → Machine → Ran
process_controls s o t a [] m = went m
process_controls s o t a (c ∷ candidates) m = elim (handle s o t a c m) [
  | continues m' ↦ process_controls s o t a candidates m'
  | ends r ↦ r
]
