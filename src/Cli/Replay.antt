-- ===== src/Cli/Replay.antt =====
-- `causation_replay` of lib/task_cli.py: the outcome of a request that the stream has decided already.
use ai_bobnet.Ledger.Envelope.{is_rejected}
use mathlib.Core.Option.{none}
use ai_bobnet.Ledger.Requests.{Request}
use ai_bobnet.Json.{end, str, value_eq, null, get_or, is_str, get, obj, Fields, is_null, Value}
use ai_bobnet.Ledger.Types.{event_name}
use ai_bobnet.Base.{
  ◌||◌, not, none, codes, some, ℕ, ◌&&◌, false, List, if◌then◌else◌, true, Option, Text, Bool, [],
  ◌∷◌,
}

-- the tuple that it returns; `is_accepted` is "accepted" or "rejected"
pub record Replay : Type 0 where
  pub is_accepted : Bool
  pub event_id : Text
  pub reason : Text

-- A request with the project that it is for.
pub record Submission : Type 0 where
  pub project_uid : Text
  pub request : Request

-- `payload.get(key)` where the payload is an object
abbrev pub part_of : Text → Value → Value
part_of key (obj r) = get key r
part_of key _ = null

abbrev is_object : Value → Bool
is_object (obj _) = true
is_object _ = false

-- `record.get("task_id") == requested_task`
unfoldable pub task_matches : Option Text → Value → Bool
task_matches none v = is_null v
task_matches (some ident) v = is_str v ident

-- `prior_type`: what the request that the record answers asked for
abbrev prior_type : Value → Value → Value
prior_type kind payload =
    if is_str kind (codes "task.rejected") && is_object payload
    then part_of (codes "requested_type") payload
    else kind

unfoldable pub same_request : Request → Value → Value → Bool
same_request q kind payload =
    if is_rejected q.event_type && is_str kind (codes "task.rejected")
    then is_object payload
      && (value_eq (part_of (codes "requested_type") payload)
            (get (codes "requested_type") q.payload)
          && value_eq (part_of (codes "reason") payload) (get (codes "reason") q.payload))
    else is_str (prior_type kind payload) (event_name q.event_type)

abbrev pub of_causation : Text → Fields → Bool
of_causation causation r = is_str (get (codes "causation_id") r) causation

-- Python's `str` of a decoded value is a parameter.
module _ (text_of : Value → Text) where
  abbrev id_of : Fields → Text
  id_of r = text_of (get_or (codes "event_id") (str []) r)

  -- the answer of the first record of the causation
  unfoldable pub replay_of : Request → Fields → Replay
  replay_of q r =
      let kind = get (codes "event_type") r in
      let payload = get_or (codes "payload") (obj end) r in
      if not (same_request q kind payload) || not (task_matches q.task_id (get (codes "task_id") r))
      then record { is_accepted = false; event_id = id_of r; reason = codes "causation_conflict" }
      else if is_str kind (codes "task.rejected")
      then record {
        is_accepted = false;
        event_id = id_of r;
        reason =
            if is_object payload
            then text_of (part_of (codes "reason") payload)
            else codes "rejected";
      }
      else record { is_accepted = true; event_id = id_of r; reason = codes "accepted" }

  -- `causation_replay` over the records of the stream
  unfoldable pub causation_replay : Request → List (ℕ × Fields) → Option Replay
  causation_replay q [] = none
  causation_replay q ((seq, r) ∷ rows) =
      let later = causation_replay q rows in
      if of_causation q.causation_id r then some (replay_of q r) else later
