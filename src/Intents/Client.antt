-- ===== src/Intents/Client.antt =====
-- `main` and `append_intent` of lib/task_intent.py: the worker's side of the queue.
use ai_bobnet.Ledger.Display.{safe_display_text}
use ai_bobnet.Ledger.Types.{is_task_id}
use mathlib.Core.Option.{none}
use ai_bobnet.Cli.Arguments.{given}
use ai_bobnet.Json.{end, obj, str, field, Fields}
use ai_bobnet.Intents.Validate.{
  too_many_intents, max_intents, file_too_long, max_file, unsafe_queue, validate_summary,
  line_too_long, max_line, is_ref, validate_intent_records, Checks,
}
use ai_bobnet.Base.{
  ◌++◌, ◌==◌, count_of, leb, ◌+◌, true, type_error, value_error, length, raised, is_token, ◌&&◌,
  err, ◌||◌, ltb, ok, some, if◌then◌else◌, raise_if, codes, not, ℕ, Option, List, Bool, Text, [],
  ◌>>◌, ◌∷◌,
}

-- The commands that queue an intent, as argparse has read them.
pub data Verb : Type 0 where
  report : (state : Text) (result reason : Option Text) → Verb
  progress continue : Verb

pub record Intent : Type 0 where
  pub verb : Verb
  pub task_id : Text
  pub summary : Text

-- What the client takes from outside: whether HOME is an absolute path, the attempt of the
-- environment, the line of a record (`json.dumps` and a line feed, in UTF-8), and whether the
-- directories and the file are safe and can be written.
pub record Home : Type 0 where
  pub is_available : Bool
  pub attempt : Text
  pub encoded : Fields → List ℕ
  pub is_safe : Bool

-- the first two keys of every record
abbrev keyed : Text → Text → Fields → Fields
keyed attempt verb rest =
    field (codes "attempt_id") (str attempt) (field (codes "verb") (str verb) rest)

abbrev given_field : Text → Option Text → Fields → Fields
given_field key none rest = rest
given_field key (some s) rest = field key (str s) rest

-- the dictionaries that `main` builds
unfoldable pub intent_record : Text → Intent → Fields
intent_record attempt i = elim i.verb [
  | progress ↦ keyed attempt (codes "report") (
      field (codes "task_id") (str i.task_id) (
        field (codes "state") (str (codes "progress"))
          (field (codes "summary") (str i.summary) end)))
  | continue ↦
      keyed attempt (codes "continue")
        (field (codes "task_id") (str i.task_id) (field (codes "summary") (str i.summary) end))
  | report state result reason ↦ keyed attempt (codes "report") (
      field (codes "task_id") (str i.task_id) (
        field (codes "state") (str state) (
          field (codes "summary") (str i.summary)
            (given_field (codes "result_ref") result (given_field (codes "reason") reason end)))))
]

-- the content of the queue's file after the append
unfoldable pub append_intent : Home → List ℕ → Fields → Checks (List ℕ)
append_intent home contents r = do
  let line = home.encoded r
  raise_if (ltb max_line (length line)) line_too_long
  raise_if (not home.is_safe) unsafe_queue
  raise_if (ltb max_file (length contents + length line)) file_too_long
  raise_if (leb max_intents (count_of (λ b. b == 10) contents)) too_many_intents
  ok (contents ++ line)

-- What the client ends with: the content of the file it leaves, or a code.
pub data Queued : Type 0 where
  queued : (contents : List ℕ) → Queued
  fails : (code : ℕ) → Queued

-- `except (OSError, UnicodeError, ValueError, …)`; a TypeError is not caught
abbrev pub settle_queue : Checks (List ℕ) → Queued
settle_queue (ok contents) = queued contents
settle_queue (err (raised _)) = fails 78
settle_queue (err value_error) = fails 78
settle_queue (err type_error) = fails 1

-- the checks of `--result` and `--reason`
unfoldable pub options_fit : Verb → Bool
options_fit (report state result reason) =
    not (given (λ s. not (is_ref s)) result)
    && not (given (λ s. ltb 512 (length s) || not (safe_display_text s)) reason)
options_fit _ = true

unfoldable pub queue_intent : Home → List ℕ → Intent → Checks (List ℕ)
queue_intent home contents i = do
  let r = intent_record home.attempt i
  validate_intent_records (obj r ∷ []) home.attempt (some i.task_id)
  append_intent home contents r

-- after the summary's check
unfoldable pub after_summary : Home → List ℕ → Intent → Checks (Unit {0}) → Queued
after_summary home contents i (ok _) =
    if not (options_fit i.verb) then fails 64 else settle_queue (queue_intent home contents i)
after_summary home contents i (err e) = fails 78

-- `main`, but for `list`
unfoldable pub main : Home → List ℕ → Intent → Queued
unfolding after_summary
main home contents i =
    if not home.is_available || not (is_token home.attempt)
    then fails 78
    else if not (is_task_id i.task_id)
    then fails 64
    else after_summary home contents i (validate_summary i.summary)
