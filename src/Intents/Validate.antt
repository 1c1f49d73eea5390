-- ===== src/Intents/Validate.antt =====
-- `validate_intent_records` of lib/task_intent.py, and the checks of texts and references.
use ai_bobnet.Ledger.Display.{safe_display_text}
use ai_bobnet.Ledger.Types.{is_task_id}
use ai_bobnet.Cli.Arguments.{given, encodable, prefixed}
use ai_bobnet.Json.{end, in_names, among, field, is_str, has, null, obj, str, get, Fields, Value}
use ai_bobnet.Base.{
  text_eq, type_error, is_token, ◌==◌, raised, false, ◌||◌, length, err, ◌&&◌, all, true, leb, not,
  ltb, ok, codes, Bool, raise_if, sum_of, if◌then◌else◌, Option, List, ℕ, Result, Text, [], ◌>>◌,
  ◌>>=◌, ◌∷◌,
}

-- The exceptions: a TypeError is `type_error`.
pub data Flaw : Type 0 where
  intent_count bad_attempt foreign_attempt delegate_schema continue_schema report_schema
        report_state result_ref_flaw intent_verb task_id_flaw task_mismatch line_too_long
        file_too_long too_many_intents summary_flaw unsafe_queue :
      Flaw
  -- `invalid {name}`
  unsafe_text : (name : Text) → Flaw
  -- `value.encode("utf-8")` of a lone surrogate
  not_encodable : Flaw

abbrev pub Checks : Type 0 → Type 0
Checks A = Result Flaw A

-- the bytes of a code point in UTF-8
abbrev pub utf8_width : ℕ → ℕ
utf8_width c = if ltb c 0x80 then 1 else if ltb c 0x800 then 2 else if ltb c 0x10000 then 3 else 4

-- `len(s.encode("utf-8"))`
abbrev pub utf8_length : Text → ℕ
utf8_length s = sum_of utf8_width s

-- MAX_LINE, MAX_FILE, MAX_INTENTS
abbrev pub max_line : ℕ
max_line = 8192

abbrev pub max_file : ℕ
max_file = 65536

abbrev pub max_intents : ℕ
max_intents = 10

-- `_validate_summary`
unfoldable pub validate_summary : Text → Checks (Unit {0})
validate_summary s = do
  raise_if (not (encodable s)) not_encodable
  raise_if (ltb 2048 (utf8_length s) || not (safe_display_text s)) summary_flaw

-- `_safe_text`
unfoldable pub safe_text : Value → Text → ℕ → Checks (Unit {0})
safe_text (str s) name limit = do
  raise_if (not (encodable s)) not_encodable
  raise_if (ltb limit (utf8_length s) || not (safe_display_text s)) (unsafe_text name)
safe_text _ name limit = err type_error

-- [!-~]
abbrev is_visible : ℕ → Bool
is_visible c = leb b'!' c && leb c b'~'

abbrev is_visible_ref : Text → Bool
is_visible_ref s = leb 1 (length s) && leb (length s) 255 && all is_visible s

-- REF_RE
unfoldable pub is_ref : Text → Bool
is_ref s =
    prefixed (codes "msg:") is_visible_ref s
    || prefixed (codes "git:") is_visible_ref s
    || prefixed (codes "file:") is_visible_ref s

-- `set(record) <= names`, and `set(record) >= names`
unfoldable pub keys_within : List Text → Fields → Bool
keys_within names end = true
keys_within names (field k v r) = among k names && keys_within names r

abbrev pub has_keys : List Text → Fields → Bool
has_keys names r = all (λ k. has k r) names

abbrev pub report_keys : List Text
report_keys =
    codes "attempt_id"
    ∷ codes "verb"
    ∷ codes "task_id"
    ∷ codes "state"
    ∷ codes "summary"
    ∷ codes "result_ref"
    ∷ codes "reason"
    ∷ []

abbrev pub continue_keys : List Text
continue_keys = codes "attempt_id" ∷ codes "verb" ∷ codes "task_id" ∷ codes "summary" ∷ []

abbrev pub delegate_keys : List Text
delegate_keys =
    codes "attempt_id"
    ∷ codes "verb"
    ∷ codes "run_id"
    ∷ codes "to"
    ∷ codes "title"
    ∷ codes "body"
    ∷ codes "source_msg_id"
    ∷ []

abbrev same_keys : List Text → Fields → Bool
same_keys names r = keys_within names r && has_keys names r

abbrev pub report_states : List Text
report_states = codes "progress" ∷ codes "done" ∷ codes "failed" ∷ codes "blocked" ∷ []

unfoldable pub safe_texts : Fields → List Text → Checks (Unit {0})
safe_texts r [] = ok tt
safe_texts r (name ∷ names) = do safe_text (get name r) name max_line; safe_texts r names

unfoldable pub validate_delegate : Fields → Checks (Unit {0})
validate_delegate r = do
  raise_if (not (same_keys delegate_keys r)) delegate_schema
  safe_texts r
      (codes "run_id" ∷ codes "to" ∷ codes "title" ∷ codes "body" ∷ codes "source_msg_id" ∷ [])

-- `isinstance(result_ref, str) and REF_RE.fullmatch(result_ref)`
unfoldable pub ref_fits : Value → Bool
unfolding is_ref
ref_fits null = true
ref_fits (str s) = is_ref s
ref_fits _ = false

unfoldable pub reason_text : Value → Checks (Unit {0})
reason_text null = ok tt
reason_text v = safe_text v (codes "reason") 512

unfoldable pub validate_report : Fields → Checks (Unit {0})
validate_report r = do
  raise_if (not (has_keys continue_keys r) || not (keys_within report_keys r)) report_schema
  known ← in_names (get (codes "state") r) report_states
  raise_if (not known) report_state
  raise_if (not (ref_fits (get (codes "result_ref") r))) result_ref_flaw
  reason_text (get (codes "reason") r)

-- a text that is a task's identifier, and the one that is wanted, if one is
unfoldable pub validate_task : Option Text → Value → Checks (Unit {0})
validate_task wanted (str s) = do
  raise_if (not (is_task_id s)) task_id_flaw
  raise_if (given (λ t. not (text_eq s t)) wanted) task_mismatch
validate_task wanted _ = err (raised task_id_flaw)

-- what follows a verb that is about a task
unfoldable pub validate_tail : Option Text → Fields → Checks (Unit {0})
validate_tail wanted r = do
  validate_task wanted (get (codes "task_id") r)
  safe_text (get (codes "summary") r) (codes "summary") 2048

-- one turn of the loop
unfoldable pub validate_record : Text → Option Text → Fields → Checks (Unit {0})
validate_record attempt wanted r =
    if not (is_str (get (codes "attempt_id") r) attempt)
    then err (raised foreign_attempt)
    else if is_str (get (codes "verb") r) (codes "delegate")
    then validate_delegate r
    else if is_str (get (codes "verb") r) (codes "continue")
    then (raise_if (not (same_keys continue_keys r)) continue_schema >> validate_tail wanted r)
    else if is_str (get (codes "verb") r) (codes "report")
    then (validate_report r >> validate_tail wanted r)
    else err (raised intent_verb)

-- a value that is no object fails the first test
unfoldable pub validate_value : Text → Option Text → Value → Checks (Unit {0})
unfolding validate_record
validate_value attempt wanted (obj r) = validate_record attempt wanted r
validate_value attempt wanted _ = err (raised foreign_attempt)

unfoldable pub validate_values : Text → Option Text → List Value → Checks (Unit {0})
validate_values attempt wanted [] = ok tt
validate_values attempt wanted (v ∷ rest) = do
  validate_value attempt wanted v
  validate_values attempt wanted rest

-- `validate_intent_records`
unfoldable pub validate_intent_records : List Value → Text → Option Text → Checks (List Value)
unfolding validate_values
validate_intent_records records attempt wanted = do
  raise_if (length records == 0 || ltb max_intents (length records)) intent_count
  raise_if (not (is_token attempt)) bad_attempt
  validate_values attempt wanted records
  ok records
