-- ===== src/Cli/Run.antt =====
-- The writing commands of `main` of lib/task_cli.py, from the parsed arguments to the exit code.
use ai_bobnet.Ledger.Decide.{decide, World}
use mathlib.Core.Option.{none}
use ai_bobnet.Ledger.Registry.{validate_registry_scope}
use ai_bobnet.Ledger.Fold.{fold, Ledger}
use ai_bobnet.Attempts.Frames.{ScanError}
use ai_bobnet.Ledger.Requests.{reason_name, Decision}
use ai_bobnet.Cli.Payload.{payload_for, Files}
use ai_bobnet.Cli.Arguments.{
  validate_common, stream_corrupt, ledger, actor_type_name, given, command_event, Accepted,
  Arguments,
}
use ai_bobnet.Json.{negsuc, Value, pos, Fields, ℤ}
use ai_bobnet.Ledger.Types.{event_name, Checked}
use ai_bobnet.Ledger.Reading.{Rows}
use ai_bobnet.Cli.Replay.{causation_replay, Replay, Submission}
use ai_bobnet.Base.{
  type_error, value_error, raised, ◌||◌, err, not, ◌++◌, text_eq, ◌==◌, ◌&&◌, ok, some, List,
  length, codes, Result, if◌then◌else◌, Option, Bool, ℕ, Text, Dict, [], ◌>>◌, ◌>>=◌, ◌∷◌,
}

-- the pairs of the envelope, and the record that the shell library appends to the stream for them
abbrev pub Envelope : Type 0
Envelope = Dict Text

pub record Commit : Type 0 where
  pub event_id : Text
  pub rows : Rows

-- `aib_event_commit` of the shell library: the stream with the event, or the status it dies with.
pub data Append : Type 0 where
  appended : Commit → Append
  died : (status : ℕ) → Append

-- What the run takes from outside: the effective user and what it is known as, the body files, the
-- registry's file, Python's `str` of a decoded value, the world of `decide`, the lock, and the commit.
pub record System : Type 0 where
  pub is_root : Bool
  pub test_seam : Bool
  pub identity : Text
  -- the first line that AIB_IDENTITY_CMD prints, if it is set and ends well
  pub identity_command : Option Text
  pub files : Files
  pub registry : Fields
  pub text_of : Value → Text
  pub world : World
  pub lock_acquired : Bool
  pub append : Rows → Envelope → Text → Fields → Append

-- `task_caller`
unfoldable pub task_caller : System → Text
task_caller sys =
    if sys.is_root
    then codes "root:root"
    else if sys.test_seam && given (λ s. text_eq s (codes "root:root")) sys.identity_command
    then codes "root:root"
    else sys.identity

abbrev pub if_given : Option Text → Text
if_given none = []
if_given (some s) = s

-- the pairs that are not empty
unfoldable pub nonempty : Envelope → Envelope
nonempty [] = []
nonempty ((k, v) ∷ rest) =
    let others = nonempty rest in if length v == 0 then others else (k, v) ∷ others

-- the envelope of `commit`
unfoldable pub envelope_lines : Submission → Envelope
envelope_lines sub =
    let q = sub.request in
    nonempty (
      (codes "project_uid", sub.project_uid)
      ∷ (codes "actor_type", q.actor_type)
      ∷ (codes "actor_id", q.actor_id)
      ∷ (codes "agent_uid", if text_eq q.actor_type (codes "agent") then q.actor_id else [])
      ∷ (codes "team_uid", q.team_uid)
      ∷ (codes "run_id", q.run_id)
      ∷ (codes "task_id", if_given q.task_id)
      ∷ (codes "causation_id", q.causation_id)
      ∷ [])

-- `commit`
unfoldable pub commit : System → Rows → Submission → Text → Fields → Append
commit sys rows sub kind payload = sys.append rows (envelope_lines sub) kind payload

-- What a run ends with, and what it prints.
pub data Outcome : Type 0 where
  duplicate : (event_id : Text) → Outcome
  replayed_rejection : (reason : Text) → Outcome
  decided : (printed : Text) → Decision → Outcome
  commit_died : (status : ℕ) → Outcome
  unauthorized_caller lock_timeout : Outcome

-- an exception of lib/task_ledger.py
abbrev pub lift : {A : Type 0} → Checked A → Accepted A
lift (ok a) = ok a
lift (err (raised reason)) = err (raised (ledger reason))
lift (err type_error) = err type_error
lift (err value_error) = err value_error

abbrev pub lift_scan : {A : Type 0} → Result ScanError A → Accepted A
lift_scan (ok a) = ok a
lift_scan (err (raised reason)) = err (raised (stream_corrupt reason))
lift_scan (err type_error) = err type_error
lift_scan (err value_error) = err value_error

-- `task_id=…` or `event_id=…`
abbrev pub printed_id : Option Text → Text → Text
printed_id none event_id = codes "event_id=" ++ event_id
printed_id (some ident) event_id =
    if length ident == 0 then codes "event_id=" ++ event_id else codes "task_id=" ++ ident

abbrev pub settle_commit : Rows → Submission → Decision → Append → Outcome × Rows
settle_commit rows sub d (appended c) =
    (decided (printed_id sub.request.task_id c.event_id) d, c.rows)
settle_commit rows sub d (died status) = (commit_died status, rows)

abbrev pub replay_outcome : Replay → Outcome
replay_outcome r = if r.is_accepted then duplicate r.event_id else replayed_rejection r.reason

-- after the fold: the replay, or the decision and its commit
unfoldable pub answer :
    System
    → Rows
    → Submission
    → Option (List ℕ)
    → Ledger
    → Option Replay
    → Accepted (Outcome × Rows)
answer sys rows sub body current (some r) = ok (replay_outcome r, rows)
answer sys rows sub body current none = do
  d ← lift (decide sys.world sub.request current sys.registry body)
  ok (settle_commit rows sub d (commit sys rows sub (event_name d.kind) d.payload))

-- what is done under the stream's lock
unfoldable pub locked :
    System → Result ScanError Rows → Submission → Option (List ℕ) → Accepted (Outcome × Rows)
locked sys stream sub body = do
  lift (validate_registry_scope sys.registry sub.project_uid sub.request.team_uid)
  rows ← lift_scan stream
  current ← lift (fold rows.stream_status rows.highest rows.events rows.invalid_records)
  answer sys rows sub body current (causation_replay sys.text_of sub.request rows.events)

abbrev natural : ℤ → ℕ
natural (pos n) = n
natural (negsuc n) = 0

abbrev expected : Option ℤ → Option ℕ
expected none = none
expected (some n) = some (natural n)

-- the dictionary `request`; a number that is expected has passed the check that it is positive
unfoldable pub submission : Arguments → Text → Fields → Option Text → Submission
submission args caller payload ident = record {
  project_uid = args.project;
  request = record {
    event_type = command_event args.command;
    payload = payload;
    actor_type = actor_type_name args.actor_type;
    actor_id = args.actor_id;
    caller = caller;
    team_uid = args.team;
    run_id = args.run_id;
    task_id = ident;
    causation_id = args.causation_id;
    expected_task_seq = expected args.expect_seq;
  };
}

-- from the lock on
unfoldable pub run_request :
    System → Result ScanError Rows → Submission → Option (List ℕ) → Accepted (Outcome × Option Rows)
run_request sys stream sub body =
    if not sys.lock_acquired
    then ok (lock_timeout, none)
    else (locked sys stream sub body >>= λ done. ok (done.0, some done.1))

-- from the caller's check on
unfoldable pub run_caller :
    System → Result ScanError Rows → Arguments → Text → Accepted (Outcome × Option Rows)
unfolding submission
run_caller sys stream args caller =
    if not (text_eq caller (codes "root:root"))
    then ok (unauthorized_caller, none)
    else (payload_for sys.files args caller >>= λ p.
        run_request sys stream (submission args caller p.0 p.1) p.2)

-- The writing half of `main`, with the rows that the file holds and those that it holds afterwards
-- where the run gets as far as the lock.
unfoldable pub run_write :
    System → Result ScanError Rows → Arguments → Accepted (Outcome × Option Rows)
run_write sys stream args =
    if not (sys.is_root || sys.test_seam)
    then ok (unauthorized_caller, none)
    else (validate_common args >> run_caller sys stream args (task_caller sys))

-- the code of an outcome
unfoldable pub exit_code : Outcome → ℕ
exit_code (duplicate _) = 0
exit_code (replayed_rejection _) = 77
exit_code (decided _ d) =
    if d.is_accepted
    then 0
    else if text_eq (reason_name d.reason) (codes "concurrent_update")
    then 76
    else 77
exit_code (commit_died status) = status
exit_code unauthorized_caller = 77
exit_code lock_timeout = 75

-- `main`: a LedgerError is 64, another ValueError 65, and a TypeError ends the interpreter with 1
unfoldable pub main_code : Accepted (Outcome × Option Rows) → ℕ
main_code (ok (outcome, rows)) = exit_code outcome
main_code (err (raised _)) = 64
main_code (err value_error) = 65
main_code (err type_error) = 1
