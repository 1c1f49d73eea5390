-- ===== src/Cli/Arguments.antt =====
-- The arguments of lib/task_cli.py once argparse has read them, and their checks: `validate_common`
-- and `validate_utf8_arguments`.
use ai_bobnet.Ledger.Callers.{is_digits}
use mathlib.Core.Option.{none}
use ai_bobnet.Attempts.Frames.{ScanError}
use ai_bobnet.Ledger.Types.{
  task_rejected, task_overdue, task_reopened, task_cancelled, task_reported, task_reassigned,
  is_task_id, task_started, is_run_id, task_created, Reason, run_closed, run_requested, EventType,
}
use ai_bobnet.Json.{negsuc, pos, ℤ}
use ai_bobnet.Base.{
  length, map, some, leb, ltb, any, is_token, is_uid, ◌&&◌, ◌==◌, all, ok, true, not, ◌||◌,
  drop_prefix, false, alnum, codes, List, raise_if, Bool, ℕ, Result, Option, Text, [], ◌>>◌, ◌∷◌,
}

-- the choices of `--actor-type`
pub data ActorType : Type 0 where
  human agent service provider : ActorType

abbrev pub actor_type_name : ActorType → Text
actor_type_name human = codes "human"
actor_type_name agent = codes "agent"
actor_type_name service = codes "service"
actor_type_name provider = codes "provider"

-- the options of `create`
pub record Creation : Type 0 where
  pub intent_n : ℤ
  pub source_msg_id : Text
  pub assignee : Text
  pub title : Text
  pub body_ref : Text
  pub body_file : Text
  pub deadline_at : Option Text
  pub depth : ℤ
  pub gate : Text
  pub context_ref : List Text

-- The commands that write, each with its own options.
pub data Command : Type 0 where
  run_create : (ticket_ref : Option Text) → Command
  run_close : (outcome : Text) (summary_ref : Option Text) → Command
  create : Creation → Command
  start overdue : Command
  assign reopen : (assignee : Text) → Command
  report : (state : Text) (result_ref reason : Option Text) → Command
  cancel : (reason : Option Text) → Command
  reject : (requested_type reason : Text) → Command

-- COMMAND_EVENT
unfoldable pub command_event : Command → EventType
command_event (run_create _) = run_requested
command_event (run_close _ _) = run_closed
command_event (create _) = task_created
command_event start = task_started
command_event (assign _) = task_reassigned
command_event (report _ _ _) = task_reported
command_event (cancel _) = task_cancelled
command_event (reopen _) = task_reopened
command_event overdue = task_overdue
command_event (reject _ _) = task_rejected

-- The namespace; an option that the command does not have is `none`.
pub record Arguments : Type 0 where
  pub command : Command
  pub project : Text
  pub team : Text
  pub actor_type : ActorType
  pub actor_id : Text
  pub causation_id : Text
  pub run_id : Text
  pub via : Option Text
  pub requester : Option Text
  pub task_id : Option Text
  pub expect_seq : Option ℤ

-- The messages of the LedgerErrors that this file raises, and the reasons of task_ledger.py's.
pub data Refusal : Type 0 where
  invalid_scope invalid_run_id invalid_task_id invalid_causation_id invalid_actor_id
        actor_id_for_actor_type invalid_relay_reference invalid_requester expect_seq_not_positive
        expect_seq_of_engine invalid_ticket_ref invalid_summary_ref intent_n_range
        invalid_source_msg_id invalid_title_argument invalid_body_ref invalid_context_refs
        body_unreadable body_too_long invalid_deadline_argument invalid_result_ref reason_too_long
        invalid_requested_type invalid_rejection_reason :
      Refusal
  invalid_utf8 : (name : Text) → Refusal
  stream_corrupt : ScanError → Refusal
  ledger : Reason → Refusal

abbrev pub Accepted : Type 0 → Type 0
Accepted A = Result Refusal A

-- [a-z0-9_-]
abbrev is_account_char : ℕ → Bool
is_account_char c = alnum c || c == b'_' || c == b'-'

-- [a-z0-9][a-z0-9_-]*
unfoldable pub is_account : Text → Bool
is_account [] = false
is_account (c ∷ s) = alnum c && all is_account_char s

-- a prefix, and a text behind it that passes
abbrev pub prefixed : Text → (Text → Bool) → Text → Bool
prefixed prefix test s = elim (drop_prefix prefix s) [ none ↦ false | some rest ↦ test rest ]

-- the patterns of an actor's identifier
unfoldable pub actor_id_fits : ActorType → Text → Bool
unfolding is_account
actor_id_fits human s = is_account s || prefixed (codes "gateway:") is_account s
actor_id_fits agent s = is_uid s
actor_id_fits service s = prefixed (codes "supervisor:") is_uid s
actor_id_fits provider s = is_token s

abbrev via_fits : Text → Bool
via_fits s = prefixed (codes "intent:") is_token s || prefixed (codes "ctl:") is_digits s

abbrev requester_fits : Text → Bool
requester_fits s =
    prefixed (codes "human:") is_account s || prefixed (codes "gateway:") is_account s

-- a test on an argument that may be missing
abbrev pub given : (Text → Bool) → Option Text → Bool
given test none = false
given test (some s) = test s

abbrev one_line : Text → Bool
one_line s = not (any (λ c. c == 0 || (c == 13 || c == 10)) s)

abbrev below_one : ℤ → Bool
below_one (pos n) = ltb n 1
below_one (negsuc n) = true

abbrev is_engine : ActorType → Bool
is_engine service = true
is_engine provider = true
is_engine _ = false

unfoldable pub validate_expected : Option ℤ → ActorType → Accepted (Unit {0})
validate_expected none actor = ok tt
validate_expected (some n) actor = do
  raise_if (below_one n) expect_seq_not_positive
  raise_if (is_engine actor) expect_seq_of_engine

-- `validate_common`
unfoldable pub validate_common : Arguments → Accepted (Unit {0})
validate_common args = do
  raise_if (not (is_token args.project) || not (is_uid args.team)) invalid_scope
  raise_if (not (is_run_id args.run_id)) invalid_run_id
  raise_if (given (λ s. not (is_task_id s)) args.task_id) invalid_task_id
  raise_if (not (is_token args.causation_id)) invalid_causation_id
  raise_if (not (one_line args.actor_id) || length args.actor_id == 0) invalid_actor_id
  raise_if (not (actor_id_fits args.actor_type args.actor_id)) actor_id_for_actor_type
  raise_if (given (λ s. not (via_fits s)) args.via) invalid_relay_reference
  raise_if (given (λ s. not (requester_fits s)) args.requester) invalid_requester
  validate_expected args.expect_seq args.actor_type

-- `item.encode("utf-8")` refuses a lone surrogate.
unfoldable pub encodable : Text → Bool
encodable s = all (λ c. not (leb 0xd800 c && leb c 0xdfff)) s

-- The texts that are checked, in the order of the names.
unfoldable pub checked_texts : Command → List (Text × Option Text)
checked_texts (run_create ticket_ref) = (codes "ticket_ref", ticket_ref) ∷ []
checked_texts (run_close _ summary_ref) = (codes "summary_ref", summary_ref) ∷ []
checked_texts (create c) =
    (codes "title", some c.title)
    ∷ (codes "body_ref", some c.body_ref)
    ∷ map (λ ref. (codes "context_ref", some ref)) c.context_ref
checked_texts (report _ result_ref reason) =
    (codes "reason", reason) ∷ (codes "result_ref", result_ref) ∷ []
checked_texts (cancel reason) = (codes "reason", reason) ∷ []
checked_texts (reject _ reason) = (codes "reason", some reason) ∷ []
checked_texts _ = []

unfoldable pub validate_texts : List (Text × Option Text) → Accepted (Unit {0})
validate_texts [] = ok tt
validate_texts ((name, item) ∷ rest) = do
  raise_if (given (λ s. not (encodable s)) item) (invalid_utf8 name)
  validate_texts rest

-- `validate_utf8_arguments`
unfoldable pub validate_utf8_arguments : Command → Accepted (Unit {0})
unfolding validate_texts checked_texts
validate_utf8_arguments command = validate_texts (checked_texts command)
