-- ===== src/Supervisor/ProcessRecovery.antt =====
-- `process_controls` of lib/aib_supervisor.py as a whole: it keeps the recovery.
use ai_bobnet.Supervisor.HandlingRecovery.{
  clear_brake-IsRecovered, restart-IsRecovered, standing_by-IsRecovered, told_control-IsRecovered,
}
use ai_bobnet.Supervisor.Quiet.{Keeps-IsRecovered, heartbeat-IsQuiet, Leaves-if, Leaves-afterwards}
use ai_bobnet.Supervisor.ControlRecovery.{
  accept_control-IsOrderly, find_request-HasNumber, IsOrderly, HasNumber,
}
use ai_bobnet.Control.Log.{missing, breaks, requested_record, found, Found}
use mathlib.Core.Bool.{false, true}
use ai_bobnet.Supervisor.Recovered.{quiet-IsRecovered, Leaves, IsRecovered, AreQuiet}
use ai_bobnet.Supervisor.Sessions.{Surroundings}
use ai_bobnet.Supervisor.Machine.{
  done_control, went, set_state, heartbeat, accept_control, routine, journal, Work, Machine,
  Setting,
}
use ai_bobnet.Supervisor.Handling.{
  restart, clear_brake, Turning, accept, obey, stop, begin_control_routine,
}
use ai_bobnet.Supervisor.Controls.{
  is_forced, control_authorized, crashed, operator_verbs, skipped, granted, is_consumed, is_audited,
  duty_verbs, is_busy, is_running, unaudited_request, refused, Authority, Candidate, Verdict, judge,
  judge_owner, judge_found, judge_audited, judge_authorized, judge_allowed,
}
use ai_bobnet.Json.{end, int, field, among, pos, ℤ, Fields, get}
use ai_bobnet.Supervisor.Memory.{as_int}
use ai_bobnet.Base.{
  decimal, ◌++◌, ◌||◌, refl, ℕ, ◌&&◌, some, ◌<◌, All, not, Option, ◌≡◌, Text, codes, if◌then◌else◌,
  Bool, text_eq, [], none,
}

-- the requests that a verdict names have ints for their numbers
abbrev pub NamesNumbered : Verdict → Type 0
NamesNumbered skipped = Unit
NamesNumbered (refused r reason caller) = (k : ℤ) × (as_int (get (codes "seq") r) ≡ some k)
NamesNumbered (granted r caller) = (k : ℤ) × (as_int (get (codes "seq") r) ≡ some k)
NamesNumbered crashed = Unit

abbrev IsNumbered : Fields → Type 0
IsNumbered r = (k : ℤ) × (as_int (get (codes "seq") r) ≡ some k)

NamesNumbered-if :
    (test : Bool) (v w : Verdict)
    → NamesNumbered v
    → NamesNumbered w
    → NamesNumbered (if test then v else w)
NamesNumbered-if true v w p q = p
NamesNumbered-if false v w p q = q

module _ (s : Setting) where
  unaudited_request-IsNumbered :
      (c : Candidate) (caller : Text) → IsNumbered (unaudited_request s c caller)
  unfolding as_int get text_eq
  unaudited_request-IsNumbered c caller = (pos c.sequence, refl)

  module _ (a : Authority) (c : Candidate) (m : Machine) where
    judge_allowed-Numbered :
        (caller : Text) (r : Fields) → IsNumbered r → NamesNumbered (judge_allowed a c caller r m)
    unfolding judge_allowed
    judge_allowed-Numbered caller r n =
        NamesNumbered-if _ (refused r (codes "protected") caller) _ n (
          NamesNumbered-if (is_running m && is_busy c.verb r) (refused r (codes "busy") caller)
            (granted r caller) n n)

    judge_authorized-Numbered :
        (caller : Text) (r : Fields) (allowed : Option Bool)
        → IsNumbered r
        → NamesNumbered (judge_authorized a c caller r m allowed)
    unfolding judge_authorized
    judge_authorized-Numbered caller r none n = tt
    judge_authorized-Numbered caller r (some false) n = n
    judge_authorized-Numbered caller r (some true) n = judge_allowed-Numbered caller r n

    judge_audited-Numbered :
        (caller : Text) (r : Fields) → IsNumbered r → NamesNumbered (judge_audited a c caller r m)
    unfolding judge_audited
    judge_audited-Numbered caller r n =
        NamesNumbered-if (not (among c.verb duty_verbs || among c.verb operator_verbs))
          (refused r (codes "unknown_verb") caller)
          (judge_authorized a c caller r m (control_authorized a.agents caller c.verb r)) n
          (judge_authorized-Numbered caller r _ n)

    judge_found-Numbered :
        (caller : Text) (f : Found)
        → ((r : Fields) → f ≡ found r → IsNumbered r)
        → NamesNumbered (judge_found s a c caller m f)
    unfolding judge_found
    judge_found-Numbered caller breaks n = tt
    judge_found-Numbered caller missing n = unaudited_request-IsNumbered c caller
    judge_found-Numbered caller (found r) n =
        NamesNumbered-if (is_audited s c caller r) (judge_audited a c caller r m)
          (refused (unaudited_request s c caller) (codes "unaudited") caller)
          (judge_audited-Numbered caller r (n r refl)) (unaudited_request-IsNumbered c caller)

    judge_owner-Numbered :
        (owner : Option ℕ)
        → All HasNumber m.control_log.lines
        → NamesNumbered (judge_owner s a c m owner)
    unfolding judge_owner
    judge_owner-Numbered none all = tt
    judge_owner-Numbered (some owner) all =
        judge_found-Numbered (a.identity owner) (requested_record c.sequence m.control_log)
          (λ r same. find_request-HasNumber c.sequence m.control_log.lines all same)

    pub judge-Numbered : All HasNumber m.control_log.lines → NamesNumbered (judge s a c m)
    unfolding judge
    judge-Numbered all =
        NamesNumbered-if (is_consumed c.sequence m.core.consumed) skipped
          (judge_owner s a c m c.owner) tt (judge_owner-Numbered c.owner all)

  -- the calls of turns keep the recovery too
  pub record TurnsRecover (t : Turning) : Type 0 where
    pub cancels : (m : Machine) → IsRecovered s m → Leaves s (IsRecovered s) (t.cancel_turn m)
    pub starts :
        (work : Work) (m : Machine)
        → IsRecovered s m
        → Leaves s (IsRecovered s) (t.start_turn work m)

  module _ (o : Surroundings) (quiet : AreQuiet s o) (t : Turning) (turns : TurnsRecover t)
      (positive : 0 < s.burst) where
    begin_control_routine-IsRecovered :
        (c : Candidate) (r : Fields) (m : Machine)
        → IsRecovered s m
        → Leaves s (IsRecovered s) (begin_control_routine t c r m)
    unfolding begin_control_routine
    begin_control_routine-IsRecovered c r m ok =
        Leaves-if s (IsRecovered s) (is_running m) (went m)
          (t.start_turn work (record m { work = some work })) ok
          (turns.starts work (record m { work = some work })
            (Keeps-IsRecovered s m _ (refl, λ c replays. replays) ok))
      where
        work : Work
        work = routine (codes "control-" ++ c.verb ++ codes "-" ++ decimal c.sequence) c.verb r

    stop-IsRecovered :
        (r : Fields) (caller : Text) (m : Machine)
        → IsRecovered s m
        → Leaves s (IsRecovered s) (stop s r caller m)
    unfolding stop
    stop-IsRecovered r caller m ok =
        Leaves-afterwards s (IsRecovered s) (IsRecovered s) _ _
          (told_control-IsRecovered s r (codes "stopping") _ (
            quiet-IsRecovered s (heartbeat (codes "done") (codes "shut down by " ++ caller))
              (heartbeat-IsQuiet s (codes "done") (codes "shut down by " ++ caller))
              (set_state (codes "STOPPING") [] m)
              (Keeps-IsRecovered s m _ (refl, λ c replays. replays) ok)))
          (λ m' ok. ok) (λ m' ok. Keeps-IsRecovered s m' _ (refl, λ c replays. replays) ok)

    obey-IsRecovered :
        (c : Candidate) (caller : Text) (r : Fields) (m : Machine)
        → IsRecovered s m
        → Leaves s (IsRecovered s) (obey s o t c caller r m)
    unfolding obey
    obey-IsRecovered c caller r m ok =
        let P = IsRecovered s in
        let up =
          journal s (codes "duty.on") (field (codes "req") (int (pos c.sequence)) end)
            (record m { core = record m.core { off_duty = false } }) in
        let cleared = set_state (codes "READY") [] (clear_brake s m) in
        let last = stop s r caller m in
        let standup =
          Leaves-if s P (text_eq c.verb (codes "standup")) (begin_control_routine t c r up) last
            (begin_control_routine-IsRecovered c r up (standing_by-IsRecovered s c.sequence m ok))
            (stop-IsRecovered r caller m ok) in
        let feierabend =
          Leaves-if s P (text_eq c.verb (codes "feierabend")) (begin_control_routine t c r m)
            (if text_eq c.verb (codes "standup") then begin_control_routine t c r up else last)
            (begin_control_routine-IsRecovered c r m ok) standup in
        let others =
          if text_eq c.verb (codes "feierabend")
          then begin_control_routine t c r m
          else if text_eq c.verb (codes "standup")
          then begin_control_routine t c r up
          else last in
        let neustart =
          Leaves-if s P (text_eq c.verb (codes "neustart")) (restart s o r m) others
            (restart-IsRecovered s o quiet r m positive ok) feierabend in
        Leaves-if s P (text_eq c.verb (codes "reset-brake"))
          (done_control s r (codes "reset") cleared)
          (if text_eq c.verb (codes "neustart") then restart s o r m else others)
          (told_control-IsRecovered s r (codes "reset") cleared (
            Keeps-IsRecovered s (clear_brake s m) _ (refl, λ c replays. replays)
              (clear_brake-IsRecovered s m positive ok)))
          neustart

    pub accept-IsRecovered :
        (c : Candidate) (caller : Text) (r : Fields) (m : Machine)
        → IsNumbered r
        → IsOrderly s m
        → Leaves s (IsRecovered s) (accept s o t c caller r m)
    unfolding accept
    accept-IsRecovered c caller r m n ok =
        Leaves-afterwards s (IsOrderly s) (IsRecovered s) (accept_control s r m) _
          (accept_control-IsOrderly s r n.0 m n.1 ok) (λ m' ok. ok.0)
          (λ accepted ok.
            Leaves-afterwards s (IsRecovered s) (IsRecovered s)
              (if is_running accepted && is_forced r then t.cancel_turn accepted else went accepted)
              _
              (Leaves-if s (IsRecovered s) (is_running accepted && is_forced r)
                (t.cancel_turn accepted) (went accepted) (turns.cancels accepted ok.0) ok.0)
              (λ m' ok. ok) (λ m' ok. obey-IsRecovered c caller r m' ok))
