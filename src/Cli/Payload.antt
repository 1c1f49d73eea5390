-- ===== src/Cli/Payload.antt =====
-- `payload_for` and the loop of `read_body_file` of lib/task_cli.py.
use Prim.Native.Nat.{zero}
use ai_bobnet.Ledger.Decide.{is_reason_text}
use ai_bobnet.Ledger.Deadlines.{valid_deadline}
use ai_bobnet.Ledger.Display.{safe_display_text}
use mathlib.Core.Option.{none}
use ai_bobnet.Cli.Refs.{valid_ref}
use ai_bobnet.Ledger.Types.{
  task_overdue, task_reopened, task_cancelled, task_reported, task_reassigned, task_started,
  task_created, run_closed, run_requested, event_name,
}
use ai_bobnet.Cli.Arguments.{
  ActorType, invalid_rejection_reason, invalid_requested_type, reject, cancel, reason_too_long,
  invalid_deadline_argument, invalid_result_ref, report, invalid_context_refs, reopen, assign,
  invalid_body_ref, create, invalid_summary_ref, invalid_title_argument, intent_n_range,
  body_too_long, run_close, invalid_source_msg_id, invalid_ticket_ref, body_unreadable, run_create,
  validate_utf8_arguments, given, Command, Creation, Accepted, Arguments,
}
use ai_bobnet.Json.{
  among, arr, obj, int, negsuc, end, field, put, cons, str, pos, nil, null, Fields, Items, Value, ℤ,
}
use ai_bobnet.Base.{
  drop, false, true, ◌-◌, suc, min, any, starts_with, ◌==◌, raised, err, is_token, ◌||◌, decimal,
  length, ok, ltb, not, take, leb, some, raise_if, ◌++◌, expect, if◌then◌else◌, map, Bool, codes,
  Option, List, ℕ, Text, [], ◌>>◌, ◌>>=◌, ◌∷◌,
}

-- What the payload takes from outside: SHA-256 in hexadecimal, and the body file, none if it is refused or cannot be
-- opened or read: its content, and how many bytes more than one a read at each position gives at most.
pub record Files : Type 0 where
  pub digest : Text → Text
  pub body_file : Text → Option (List ℕ × (ℕ → ℕ))

-- the largest body
abbrev pub max_body : ℕ
max_body = 8192

-- `os.read(fd, size)` of a regular file: nothing at its end, and else one byte at least, `extra` more if it is asked
-- for them and they are there
abbrev pub read_some : ℕ → ℕ → List ℕ → List ℕ
read_some size extra rest = take (min size (suc extra)) rest

-- a chunk that was read: none is the end of the file
unfoldable pub take_chunk :
    (List ℕ → List ℕ → Option (Accepted (List ℕ)))
    → List ℕ
    → List ℕ
    → List ℕ
    → Option (Accepted (List ℕ))
take_chunk loop body rest [] = some (ok body)
take_chunk loop body rest (c ∷ chunk) = loop (body ++ c ∷ chunk) (drop (length (c ∷ chunk)) rest)

-- `while total <= 8192`, where the reads at each position give what `extra` says: the bytes so far, and the rest of the
-- file; none where the rounds are used up.
unfoldable pub read_chunks : ℕ → (ℕ → ℕ) → List ℕ → List ℕ → Option (Accepted (List ℕ))
read_chunks zero extra body rest = none
read_chunks (suc rounds) extra body rest = elim (leb (length body) max_body) [
  | false ↦ some (err (raised body_too_long))
  | true ↦
      take_chunk (read_chunks rounds extra) body rest
        (read_some (8193 - length body) (extra (length body)) rest)
]

-- each round but the last reads a byte, and all together at most 8193
abbrev pub body_rounds : ℕ
body_rounds = 8194

-- `read_body_file`
unfoldable pub read_body_file : Files → Text → Accepted (List ℕ)
read_body_file files path = do
  file ← expect (files.body_file path) body_unreadable
  outcome ← expect (read_chunks body_rounds file.1 [] file.0) body_unreadable
  outcome

-- `task_id` of lib/task_ledger.py
unfoldable pub derive_task_id : Files → Text → ℕ → Text
derive_task_id files causation_id intent_n =
    codes "t-" ++ take 12 (files.digest (causation_id ++ codes ":" ++ decimal intent_n))

abbrev pub optional : Option Text → Value
optional none = null
optional (some s) = str s

abbrev texts : List Text → Items
texts [] = nil
texts (s ∷ rest) = cons (str s) (texts rest)

-- a reference that is given and not valid
abbrev bad_ref : Option Text → Bool
bad_ref ref = given (λ s. not (valid_ref s)) ref

-- a reason that is given and not one short line
abbrev long_reason : Option Text → Bool
long_reason reason = given (λ s. ltb 512 (length s) || not (safe_display_text s)) reason

-- `intent_n < 1 or intent_n > 10`, else the number
unfoldable pub intent_number : ℤ → Accepted ℕ
intent_number (pos n) = if ltb n 1 || ltb 10 n then err (raised intent_n_range) else ok n
intent_number (negsuc n) = err (raised intent_n_range)

abbrev owner_of : Arguments → Text
owner_of args = elim args.actor_type [
  | ActorType.agent ↦ args.actor_id
  | _ ↦ codes "human:" ++ args.actor_id
]

-- the branch of `create`: the identifier, the body and the payload
unfoldable pub creation_payload :
    Files → Arguments → Creation → Accepted (Fields × Option Text × Option (List ℕ))
creation_payload files args c = do
  n ← intent_number c.intent_n
  raise_if (not (is_token c.source_msg_id)) invalid_source_msg_id
  raise_if (ltb 120 (length c.title) || length c.title == 0 || not (safe_display_text c.title))
      invalid_title_argument
  raise_if (not (starts_with (codes "msg:") c.body_ref) || not (valid_ref c.body_ref))
      invalid_body_ref
  raise_if (ltb 5 (length c.context_ref) || any (λ ref. not (valid_ref ref)) c.context_ref)
      invalid_context_refs
  body ← read_body_file files c.body_file
  raise_if (given (λ s. not (valid_deadline (str s))) c.deadline_at) invalid_deadline_argument
  ok (
    field (codes "parent") (str args.run_id) (
        field (codes "depth") (int c.depth) (
          field (codes "source_msg_id") (str c.source_msg_id) (
            field (codes "owner") (str (owner_of args)) (
              field (codes "assignee") (str c.assignee) (
                field (codes "title") (str c.title) (
                  field (codes "body_ref") (str c.body_ref) (
                    field (codes "deadline_at") (optional c.deadline_at) (
                      field (codes "budget")
                        (obj (
                          field (codes "max_turns") (int (pos 8))
                            (field (codes "max_attempts") (int (pos 3)) end)))
                        (field (codes "gate") (str c.gate)
                          (field (codes "context_refs") (arr (texts c.context_ref)) end)))))))))),
    some (derive_task_id files args.causation_id n),
    some body,
  )

abbrev requestable_names : List Text
requestable_names = map event_name (
    run_requested ∷ run_closed ∷ task_created ∷ task_started ∷ task_reassigned ∷ task_reported
    ∷ task_cancelled ∷ task_reopened ∷ task_overdue ∷ [])

-- the branches on the command
unfoldable pub command_payload :
    Files → Arguments → Command → Accepted (Fields × Option Text × Option (List ℕ))
command_payload files args (run_create ticket_ref) = do
  raise_if (bad_ref ticket_ref) invalid_ticket_ref
  ok (field (codes "ticket_ref") (optional ticket_ref) end, args.task_id, none)
command_payload files args (run_close outcome summary_ref) = do
  raise_if (bad_ref summary_ref) invalid_summary_ref
  ok (
    field (codes "outcome") (str outcome) (field (codes "summary_ref") (optional summary_ref) end),
    args.task_id,
    none,
  )
command_payload files args (create c) = creation_payload files args c
command_payload files args (assign assignee) =
    ok (field (codes "assignee") (str assignee) end, args.task_id, none)
command_payload files args (reopen assignee) =
    ok (field (codes "assignee") (str assignee) end, args.task_id, none)
command_payload files args (report state result_ref reason) = do
  raise_if (bad_ref result_ref) invalid_result_ref
  raise_if (long_reason reason) reason_too_long
  ok (
    field (codes "state") (str state) (
        field (codes "result_ref") (optional result_ref)
          (field (codes "reason") (optional reason) end)),
    args.task_id,
    none,
  )
command_payload files args (cancel reason) = do
  raise_if (long_reason reason) reason_too_long
  ok (field (codes "reason") (optional reason) end, args.task_id, none)
command_payload files args (reject requested_type reason) = do
  raise_if (not (among requested_type requestable_names)) invalid_requested_type
  raise_if (not (is_reason_text reason)) invalid_rejection_reason
  ok (
    field (codes "requested_type") (str requested_type) (field (codes "reason") (str reason) end),
    args.task_id,
    none,
  )
command_payload files args _ = ok (end, args.task_id, none)

abbrev put_given : Text → Option Text → Fields → Fields
put_given key none r = r
put_given key (some s) r = put key (str s) r

-- `payload_for`
unfoldable pub payload_for :
    Files → Arguments → Text → Accepted (Fields × Option Text × Option (List ℕ))
payload_for files args caller = do
  validate_utf8_arguments args.command
  (payload, ident, body) ← command_payload files args args.command
  ok (
    put_given (codes "requester") args.requester
        (put_given (codes "via") args.via (put (codes "caller") (str caller) payload)),
    ident,
    body,
  )
