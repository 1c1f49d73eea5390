-- ===== src/Attempts/Records.antt =====
-- `fold_records` of lib/attempts_fold.py: the attempts of a stream of decoded records, with the
-- display binding left out. The binding of an attempt changes no other field.
use ai_bobnet.Base.{
  ok, ◌++◌, some, none, value_error, raised, decimal, insert, err, is_digit, values, false, lookup,
  contains, ltb, ◌||◌, ◌&&◌, map, expect, ◌==◌, codes, if◌then◌else◌, raise_if, true, all, any, not,
  Option, Bool, List, Dict, Result, Text, [], ◌>>◌, ◌>>=◌, ◌∷◌, length, ◌+◌,
}
use ai_bobnet.Json.{
  nil, arr, dyadic, negsuc, among, null, float, end, pos, obj, as_obj, bool, int, get_or, is_str,
  as_str, str, get, Value, Fields,
}

pub data Class : Type 0 where
  succeeded provider_failure timeout io_refused aborted : Class

-- `succeeded` is "ok". The states of an attempt: `opened` is "open", and `exited` is the exit class as a state
pub data AttemptState : Type 0 where
  opened deny presumed_dead : AttemptState
  exited : Class → AttemptState

pub record Attempt : Type 0 where
  pub ident : Text
  pub agent : Value
  pub session : Value
  pub decided_at : Value
  pub is_allowed : Bool
  pub pid : Text
  pub state : AttemptState
  -- `none` stands for "null"
  pub exit_code : Option Text
  pub is_open : Bool
  pub stage : Value
  pub ended_at : Value

pub data Fault : Type 0 where
  no_attempt_id incomplete_record duplicate_decided invalid_scalar invalid_decision invalid_pid
        non_positive_pid unknown_attempt impossible_ended duplicate_ended invalid_exit_object
        invalid_exit_class invalid_exit_code missing_exit_code :
      Fault

abbrev pub Folded : Type 0 → Type 0
Folded A = Result Fault A

-- the local variables `attempts` and `excluded`
pub record Log : Type 0 where
  pub attempts : Dict Attempt
  pub excluded : List Text

-- `scalar`
unfoldable pub scalar : Value → Folded Text
scalar null = ok []
scalar (str s) = ok s
scalar (int (pos n)) = ok (decimal n)
scalar (int (negsuc n)) = ok (codes "-" ++ decimal (n + 1))
scalar _ = err (raised invalid_scalar)

abbrev pub digits : Text → Bool
digits s = not (length s == 0) && all is_digit s

-- `int(text)` of digits is positive
abbrev pub positive : Text → Bool
positive s = any (λ c. not (c == b'0')) s

-- the texts `attempt_id` may have
abbrev plain : Text → Bool
plain s = all (λ c. not (c == 10 || (c == 13 || (c == 9 || c == 0)))) s

-- a falsy value, which `not ident` finds
unfoldable pub is_falsy : Value → Bool
is_falsy null = true
is_falsy (bool b) = not b
is_falsy (int (pos n)) = n == 0
is_falsy (float (dyadic (pos n) k)) = n == 0
is_falsy (str []) = true
is_falsy (arr nil) = true
is_falsy (obj end) = true
is_falsy _ = false

-- the tests on the identifier and the payload
unfoldable pub identity : Value → Value → Folded (Text × Fields)
identity ident payload = do
  raise_if (is_falsy ident) no_attempt_id
  name ← expect (as_str ident) incomplete_record
  raise_if (not (plain name)) incomplete_record
  fields ← expect (as_obj payload) incomplete_record
  ok (name, fields)

-- `decision not in ('allow', 'deny')`, and whether it is "allow"
unfoldable pub decision_of : Value → Folded Bool
decision_of v =
    if is_str v (codes "allow")
    then ok true
    else if is_str v (codes "deny")
    then ok false
    else (do scalar v; err (raised invalid_decision))

-- CPython's `int` converts at most this many digits
unfoldable pub convertible : Text → Folded (Unit {0})
convertible s = if ltb 4300 (length s) then err value_error else ok tt

unfoldable pub decided : Log → Fields → Text → Fields → Folded Log
decided log r ident payload = do
  raise_if (contains ident log.attempts) duplicate_decided
  pid ← scalar (get (codes "pid") payload)
  allowed ← decision_of (get (codes "decision") payload)
  raise_if (not (digits pid)) invalid_pid
  convertible pid
  raise_if (not (positive pid)) non_positive_pid
  ok (record log {
    attempts =
        insert ident
          (record {
            ident = ident;
            agent = get (codes "agent_uid") r;
            session = get (codes "session_id") r;
            decided_at = get (codes "occurred_at") r;
            is_allowed = allowed;
            pid = pid;
            state = if allowed then opened else deny;
            exit_code = none;
            is_open = allowed;
            stage = null;
            ended_at = null;
          })
          log.attempts;
  })

abbrev exit_classes : List (Text × Class)
exit_classes =
    (codes "ok", succeeded)
    ∷ (codes "provider-failure", provider_failure)
    ∷ (codes "timeout", timeout)
    ∷ (codes "io-refused", io_refused)
    ∷ (codes "aborted", aborted)
    ∷ []

-- `exit_class not in (…)`: the tuple is searched by equality
unfoldable pub class_of : Value → Folded Class
class_of (str s) = expect (lookup s exit_classes) invalid_exit_class
class_of v = do scalar v; err (raised invalid_exit_class)

-- the classes that require a code
abbrev pub needs_code : Class → Bool
needs_code provider_failure = true
needs_code timeout = true
needs_code io_refused = true
needs_code _ = false

abbrev empty_text : Text → Bool
empty_text s = length s == 0

unfoldable pub ended : Log → Fields → Text → Fields → Folded Log
ended log r ident payload = do
  attempt ← expect (lookup ident log.attempts) unknown_attempt
  raise_if (not attempt.is_allowed) impossible_ended
  raise_if (not attempt.is_open) duplicate_ended
  info ← expect (as_obj (get_or (codes "exit") (obj end) payload)) invalid_exit_object
  code ← scalar (get (codes "code") info)
  class ← class_of (get (codes "class") info)
  raise_if (not (empty_text code) && not (digits code)) invalid_exit_code
  raise_if (needs_code class && empty_text code) missing_exit_code
  ok (record log {
    attempts =
        insert ident
          (record attempt {
            state = exited class;
            exit_code = if empty_text code then none else some code;
            is_open = false;
            stage = get (codes "stage") info;
            ended_at = get (codes "occurred_at") r;
          })
          log.attempts;
  })

-- A record of the stream: its object, and whether its bytes were undecodable.
pub record Entry : Type 0 where
  pub fields : Fields
  pub is_undecodable : Bool

abbrev pub excluded_ident : Value → List Text → List Text
excluded_ident (str s) excluded = s ∷ excluded
excluded_ident _ excluded = excluded

-- one turn of the loop; `legacy` is the older view, which reads undecodable records too
unfoldable pub fold_record : Bool → Log → Entry → Folded Log
fold_record legacy log entry =
    let kind = get (codes "event_type") entry.fields in
    let ident = get (codes "attempt_id") entry.fields in
    let payload = get_or (codes "payload") (obj end) entry.fields in
    if entry.is_undecodable && not legacy
    then ok (
        if is_str kind (codes "attempt.decided")
        then record log { excluded = excluded_ident ident log.excluded }
        else log)
    else if is_str kind (codes "attempt.decided")
    then (do (name, fields) ← identity ident payload; decided log entry.fields name fields)
    else if is_str kind (codes "attempt.ended")
    then (do
      (name, fields) ← identity ident payload
      if not legacy && among name log.excluded then ok log else ended log entry.fields name fields)
    else ok log

unfoldable pub fold_entries : Bool → Log → List Entry → Folded Log
fold_entries legacy log [] = ok log
fold_entries legacy log (entry ∷ rest) = do
  log' ← fold_record legacy log entry
  fold_entries legacy log' rest

-- The last loop, with the processes that run at that time: `os.kill(pid, 0)` does not raise.
unfoldable pub presume : (Text → Bool) → Attempt → Attempt
presume is_running a =
    if a.is_open && not (is_running a.pid) then record a { state = presumed_dead } else a

-- `fold_records`
unfoldable pub fold_records : (Text → Bool) → Bool → List Entry → Folded (List Attempt)
unfolding fold_entries presume
fold_records is_running legacy entries = do
  log ← fold_entries legacy (record { attempts = []; excluded = [] }) entries
  ok (map (presume is_running) (values log.attempts))
