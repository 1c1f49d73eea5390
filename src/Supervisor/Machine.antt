-- ===== src/Supervisor/Machine.antt =====
-- The state of the class Supervisor of lib/aib_supervisor.py, its journal and its small operations.
-- Times are whole numbers of the clock's unit.
use ai_bobnet.Control.Log.{Log, numbered, append_record}
use ai_bobnet.Json.{end, str, get, ℤ, field, Value, Fields}
use ai_bobnet.Supervisor.Memory.{Tallies, Core}
use ai_bobnet.Base.{
  some, none, text_eq, true, codes, if◌then◌else◌, ◌+◌, false, Option, List, ◌++◌, ℕ, Bool, Text,
  [], ◌∷◌,
}

-- The work of a turn: a message, with its task if it has one; the routine of a control request; the
-- handover after a lost session, with the routine to resume; the handover before a rotation, with
-- the work that waits.
pub data Work : Type 0 where
  message : (id : Text) → (task : Option Fields) → Work
  routine : (id : Text) → (action : Text) → (request : Fields) → Work
  handover : (id : Text) → (resume : Work) → Work
  rotation : (id : Text) → (queued : Work) → Work

unfoldable pub work_id : Work → Text
work_id (message id task) = id
work_id (routine id action request) = id
work_id (handover id resume) = id
work_id (rotation id queued) = id

-- `work.get("synthetic")`
unfoldable pub is_synthetic : Work → Bool
is_synthetic (message id task) = false
is_synthetic _ = true

-- the turn that runs
pub record Attempt : Type 0 where
  pub work : Work
  pub session_arg : Text
  pub attempt_id : Text

-- what is done outside the journal: the transcript, the lines of the standup log (before their
-- separators are replaced), the calls of the message command, and the replacement of the process
pub data Output : Type 0 where
  transcript : Text → Output
  standup : (status : Text) → (detail : Text) → Output
  command : List Text → Output
  reexec : Output

pub data Retry : Type 0 where
  at : ℕ → Retry
  never : Retry

pub record Machine : Type 0 where
  pub core : Core
  pub tallies : Tallies
  pub records : List Fields
  pub journal_seq : ℕ
  pub control_log : Log
  pub work : Option Work
  pub attempt : Option Attempt
  pub state : Text
  pub state_reason : Text
  pub retry_at : Retry
  pub infra_since : Option ℕ
  -- the empty text before the first
  pub last_heartbeat : Text
  pub outputs : List Output
  pub stop_requested : Bool
  pub exit_code : ℕ

-- The configuration, and what the clock, the generator of identifiers and Python's built-ins give
-- during one step.
pub record Setting : Type 0 where
  pub uid : Text
  pub active_cwd : Text
  pub burst : ℕ
  pub backoff_base : ℕ
  pub backoff_cap : ℕ
  pub blocked_after : ℕ
  pub now : ℕ
  pub utc : Text
  pub new_id : Text
  pub handover_id : Text
  pub pause : ℕ
  pub lower : Text → Text
  pub text_of : Value → Text
  pub coerced : Value → Option ℤ

-- how a step ends: normally, or by an exception, with the state that it leaves
pub data Ran : Type 0 where
  went : Machine → Ran
  broke : Machine → Ran

abbrev pub afterwards : Ran → (Machine → Ran) → Ran
afterwards (went m) k = k m
afterwards (broke m) k = broke m

-- `journal` where its write succeeds
unfoldable pub journal : Setting → Text → Fields → Machine → Machine
journal s event fields m = record m {
  journal_seq = m.journal_seq + 1;
  records = m.records ++ numbered (m.journal_seq + 1) s.utc event fields ∷ [];
}

-- `journal` with its write: where that fails, an exception leaves it, and the number is taken
unfoldable pub write_journal : Bool → Setting → Text → Fields → Machine → Ran
unfolding journal
write_journal succeeds s event fields m =
    if succeeds
    then went (journal s event fields m)
    else broke (record m { journal_seq = m.journal_seq + 1 })

-- `set_state`
abbrev pub set_state : Text → Text → Machine → Machine
set_state state reason m = record m { state = state; state_reason = reason }

abbrev pub output : Output → Machine → Machine
output o m = record m { outputs = m.outputs ++ o ∷ [] }

-- `heartbeat`
unfoldable pub heartbeat : Text → Text → Machine → Machine
heartbeat status detail m =
    if text_eq status m.last_heartbeat
    then m
    else record m { last_heartbeat = status; outputs = m.outputs ++ standup status detail ∷ [] }

abbrev pub message_command : List Text → Machine → Machine
message_command args m = output (command args) m

-- the fields of `control_event`
abbrev pub control_values : Setting → Fields → Fields → Fields
control_values s request extra =
    field (codes "req") (get (codes "seq") request)
      (field (codes "verb") (get (codes "verb") request) (field (codes "target") (str s.uid) extra))

-- `control_event`: the journal first, then the control log
unfoldable pub control_event : Setting → Text → Fields → Fields → Machine → Ran
control_event s event request extra m =
    let values = control_values s request extra in
    let m' = journal s event values m in
    elim (append_record s.coerced m'.control_log s.utc event values) [
      | none ↦ broke m'
      | some done ↦ went (record m' { control_log = done.0 })
    ]

-- the end of `reject_control` and `accept_control`
unfoldable pub consume_control : Setting → Fields → Machine → Machine
consume_control s request m =
    let m' =
      journal s (codes "ctl.consumed") (field (codes "req") (get (codes "seq") request) end) m in
    record m' { core = record m'.core { consumed = get (codes "seq") request ∷ m'.core.consumed } }

-- `reject_control`; the caller is never empty where the code calls it
unfoldable pub reject_control : Setting → Fields → Text → Text → Machine → Ran
reject_control s request reason caller m =
    afterwards
      (control_event s (codes "ctl.rejected") request
        (field (codes "caller") (str caller) (field (codes "reason") (str reason) end)) m)
      (λ m'. went (consume_control s request m'))

-- `accept_control`
unfoldable pub accept_control : Setting → Fields → Machine → Ran
accept_control s request m =
    afterwards
      (control_event s (codes "ctl.accepted") request
        (field (codes "result") (str (codes "accepted")) end) m)
      (λ m'. went (consume_control s request m'))

-- `done_control`
unfoldable pub done_control : Setting → Fields → Text → Machine → Ran
done_control s request result m =
    control_event s (codes "ctl.done") request (field (codes "result") (str result) end) m
