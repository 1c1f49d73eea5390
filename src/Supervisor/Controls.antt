-- ===== src/Supervisor/Controls.antt =====
-- `control_authorized` and `process_controls` of lib/aib_supervisor.py: the files of the control
-- directory, the verdict on a request, and what an accepted request does.
use mathlib.Core.Bool.{true}
use ai_bobnet.Supervisor.Memory.{truthy}
use ai_bobnet.Control.Log.{missing, breaks, requested_record, found, Found}
use ai_bobnet.Supervisor.Machine.{Machine, Setting}
use ai_bobnet.Json.{
  end, as_obj, bool, str, obj, value_eq, get_or, get, pos, arr, is_str, int, among, field, Value,
  Fields,
}
use mathlib.Core.Option
use ai_bobnet.Base.{
  ◌&&◌, true, ◌||◌, starts_with, some, any, not, text_eq, false, if◌then◌else◌, Bool, Option, codes,
  Text, ℕ, List, [], ◌∷◌, none,
}

abbrev pub duty_verbs : List Text
duty_verbs = codes "neustart" ∷ codes "feierabend" ∷ codes "standup" ∷ []

abbrev pub operator_verbs : List Text
operator_verbs = codes "abschalten" ∷ codes "reset-brake" ∷ []

-- `agents.get(actor, {})` names a lead; a list or a dict is not hashable
unfoldable pub is_lead : Fields → Value → Option Bool
is_lead agents (arr _) = none
is_lead agents (obj _) = none
is_lead agents (str actor) = elim (as_obj (get actor agents)) [
  | none ↦ some false
  | some claimed ↦ some (is_str (get (codes "lead") claimed) (codes "true"))
]
is_lead agents _ = some false

-- `control_authorized`, with the registry's agents; none is a TypeError
unfoldable pub control_authorized : Fields → Text → Text → Fields → Option Bool
control_authorized agents caller verb request =
    if among verb duty_verbs
    then (if starts_with (codes "human:") caller || starts_with (codes "gateway:") caller
        then some true
        else Option.map (λ lead. starts_with (codes "role:") caller && lead)
            (is_lead agents (get_or (codes "actor") (str []) request)))
    else some (among verb operator_verbs && starts_with (codes "human:") caller)

-- What the control requests are judged by beside the supervisor's state.
pub record Authority : Type 0 where
  pub agents : Fields
  pub protected : Text
  pub identity : ℕ → Text

-- a file of the control directory whose name is a request's: its number, its verb, and the owner
-- where `stat` finds the file
pub record Candidate : Type 0 where
  pub sequence : ℕ
  pub verb : Text
  pub owner : Option ℕ

-- what is done with a candidate
pub data Verdict : Type 0 where
  skipped : Verdict
  refused : (request : Fields) → (reason : Text) → (caller : Text) → Verdict
  granted : (request : Fields) → (caller : Text) → Verdict
  crashed : Verdict

-- the request that a rejection names where there is none in the log
abbrev pub unaudited_request : Setting → Candidate → Text → Fields
unaudited_request s c caller = field (codes "seq") (int (pos c.sequence)) (
    field (codes "verb") (str c.verb)
      (field (codes "target") (str s.uid) (field (codes "caller") (str caller) end)))

-- the record in the log is this request
unfoldable pub is_audited : Setting → Candidate → Text → Fields → Bool
is_audited s c caller r =
    is_str (get (codes "target") r) s.uid
    && is_str (get (codes "verb") r) c.verb
    && is_str (get (codes "caller") r) caller

-- `request.get("force", False)`
abbrev pub is_forced : Fields → Bool
is_forced r = truthy (get_or (codes "force") (bool false) r)

-- a turn that runs is in the way
unfoldable pub is_busy : Text → Fields → Bool
is_busy verb r =
    among verb (codes "feierabend" ∷ codes "standup" ∷ [])
    || (among verb (codes "neustart" ∷ codes "abschalten" ∷ []) && not (is_forced r))

abbrev pub is_running : Machine → Bool
is_running m = elim m.attempt [ none ↦ false | some _ ↦ true ]

-- the verdict on a request that the caller may make
unfoldable pub judge_allowed : Authority → Candidate → Text → Fields → Machine → Verdict
judge_allowed a c caller r m =
    if text_eq c.verb (codes "abschalten")
      && (text_eq a.protected (codes "guardian") || text_eq a.protected (codes "gateway"))
    then refused r (codes "protected") caller
    else if is_running m && is_busy c.verb r
    then refused r (codes "busy") caller
    else granted r caller

unfoldable pub judge_authorized :
    Authority → Candidate → Text → Fields → Machine → Option Bool → Verdict
judge_authorized a c caller r m none = crashed
judge_authorized a c caller r m (some false) = refused r (codes "unauthorized") caller
judge_authorized a c caller r m (some true) = judge_allowed a c caller r m

unfoldable pub judge_audited : Authority → Candidate → Text → Fields → Machine → Verdict
judge_audited a c caller r m =
    if not (among c.verb duty_verbs || among c.verb operator_verbs)
    then refused r (codes "unknown_verb") caller
    else judge_authorized a c caller r m (control_authorized a.agents caller c.verb r)

unfoldable pub judge_found : Setting → Authority → Candidate → Text → Machine → Found → Verdict
judge_found s a c caller m breaks = crashed
judge_found s a c caller m missing =
    refused (unaudited_request s c caller) (codes "unaudited") caller
judge_found s a c caller m (found r) =
    if is_audited s c caller r
    then judge_audited a c caller r m
    else refused (unaudited_request s c caller) (codes "unaudited") caller

-- `sequence in self.consumed`
unfoldable pub is_consumed : ℕ → List Value → Bool
is_consumed n consumed = any (λ v. value_eq v (int (pos n))) consumed

unfoldable pub judge_owner : Setting → Authority → Candidate → Machine → Option ℕ → Verdict
judge_owner s a c m none = skipped
judge_owner s a c m (some owner) =
    judge_found s a c (a.identity owner) m (requested_record c.sequence m.control_log)

unfoldable pub judge : Setting → Authority → Candidate → Machine → Verdict
judge s a c m =
    if is_consumed c.sequence m.core.consumed then skipped else judge_owner s a c m c.owner
