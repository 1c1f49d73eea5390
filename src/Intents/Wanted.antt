-- ===== src/Intents/Wanted.antt =====
-- The task that the supervisor of lib/aib_supervisor.py wants of the intents which the client of
-- lib/task_intent.py has queued.
use ai_bobnet.Intents.Sound.{reports, continues, delegates, AllIntents, IsIntent}
use ai_bobnet.Json.{str, null, obj, Fields, Value, is_str, get}
use ai_bobnet.Intents.Client.{continue, progress, report, Verb, Intent, intent_record}
use ai_bobnet.Intents.Validate.{
  validate_value, validate_values, validate_record, validate_tail, validate_task,
}
use ai_bobnet.Base.{
  sym, ap, ◌∙◌, refl, text_eq_iff, arith, >>=-eq-ok, true, some, false, All, ok, codes, List, ◌≡◌,
  Text, text_eq, raise_if, [], ◌∷◌, none,
}
use mathlib.Core.Path.{subst}

-- `record["task_id"]`
abbrev pub task_named : Value → Value
task_named (obj r) = get (codes "task_id") r
task_named _ = null

-- a record that the client builds
abbrev pub IsQueued : Text → Value → Type 0
IsQueued attempt v = (i : Intent) × (v ≡ obj (intent_record attempt i))

task_some :
    (t : Text) (v : Value) {u : Unit {0}}
    → validate_task none v ≡ ok u
    → v ≡ str t
    → validate_task (some t) v ≡ ok tt
unfolding validate_task raise_if
task_some t (str s) h same =
    let equal : text_eq s t ≡ true = (text_eq_iff s t).1 (ground arith) in ground arith
task_some t _ h same = cc

tail_some :
    (t : Text) (r : Fields) {u : Unit {0}}
    → validate_tail none r ≡ ok u
    → get (codes "task_id") r ≡ str t
    → validate_tail (some t) r ≡ ok tt
unfolding validate_tail
tail_some t r h same =
    let (_, task, rest) = >>=-eq-ok (validate_task none (get (codes "task_id") r)) _ h in
    rw (task_some t (get (codes "task_id") r) task same) rest

record_some :
    (attempt t : Text) (r : Fields) {u : Unit {0}}
    → validate_record attempt none r ≡ ok u
    → get (codes "task_id") r ≡ str t
    → validate_record attempt (some t) r ≡ ok tt
unfolding validate_record
record_some attempt t r h same = ground (arith, tail_some t r)

-- Records that are valid for any task are valid for the one that they all name.
pub validate_values-some :
    (attempt t : Text) (vs : List Value)
    → validate_values attempt none vs ≡ ok tt
    → All (λ v. task_named v ≡ str t) vs
    → validate_values attempt (some t) vs ≡ ok tt
unfolding validate_values validate_value
validate_values-some attempt t [] h named = refl
validate_values-some attempt t (obj r ∷ vs) h named =
    let (_, first, rest) = >>=-eq-ok (validate_record attempt none r) _ h in
    rw (record_some attempt t r first named.0) (validate_values-some attempt t vs rest named.1)
validate_values-some attempt t (_ ∷ vs) h named = cc

intent-not-delegate :
    (attempt : Text) (i : Intent)
    → is_str (get (codes "verb") (intent_record attempt i)) (codes "delegate") ≡ false
unfolding intent_record get is_str text_eq
intent-not-delegate attempt i = go i.verb
  where
    go :
        (v : Verb)
        → is_str
            (get (codes "verb") (intent_record attempt (record i { verb = v })))
            (codes "delegate")
          ≡ false
    go progress = refl
    go continue = refl
    go (report state result reason) = refl

-- A record of the client that is valid for a task names it.
intent-names :
    (attempt t : Text) (i : Intent)
    → IsIntent attempt (some t) (intent_record attempt i)
    → get (codes "task_id") (intent_record attempt i) ≡ str t
intent-names attempt t i (delegates _ _ verb _ _ _ _ _) =
    let other = intent-not-delegate attempt i in cc
intent-names attempt t i (continues _ _ _ task _) = task.is_text ∙ ap str (task.is_wanted t refl)
intent-names attempt t i (reports _ _ _ _ _ _ _ _ task _) =
    task.is_text ∙ ap str (task.is_wanted t refl)

obj-injective : {r r' : Fields} → obj r ≡ obj r' → r ≡ r'
obj-injective h = ground arith

pub AllIntents-named :
    (attempt t : Text) (vs : List Value)
    → All (IsQueued attempt) vs
    → AllIntents attempt (some t) vs
    → All (λ v. task_named v ≡ str t) vs
AllIntents-named attempt t [] queued valid = tt
AllIntents-named attempt t (v ∷ vs) queued valid =
    (named v queued.0 valid.0, AllIntents-named attempt t vs queued.1 valid.1)
  where
    named :
        (v : Value)
        → IsQueued attempt v
        → ((r : Fields) × (v ≡ obj r) × IsIntent attempt (some t) r)
        → task_named v ≡ str t
    named v (i, v_is) (r, same, intent) =
        let equal : r ≡ intent_record attempt i = obj-injective (sym same ∙ v_is) in
        ap task_named v_is
        ∙ intent-names attempt t i (subst (IsIntent attempt (some t)) equal intent)
