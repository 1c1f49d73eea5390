-- ===== src/Intents/Witness.antt =====
-- The theorems about the intents at a concrete queue.
use ai_bobnet.Intents.Wanted.{task_named}
use ai_bobnet.Intents.Queue.{count-append, empty, run, Queueing-accepted, lines_of}
use ai_bobnet.Ledger.Display.{blocked_point, safe_display_text}
use ai_bobnet.Cli.Arguments.{encodable}
use ai_bobnet.Ledger.Types.{is_task_id}
use ai_bobnet.Intents.Sound.{validate_intent_records-AllIntents, AllIntents}
use ai_bobnet.Json.{end, field, str, Fields, is_str, obj, Value, in_names, has, get}
use ai_bobnet.Intents.Client.{
  fails, queued, progress, Queued, Intent, Home, options_fit, queue_intent, append_intent, main,
  intent_record,
}
use ai_bobnet.Intents.Validate.{
  max_file, Checks, max_intents, validate_summary, is_ref, ref_fits, keys_within, reason_text,
  safe_texts, safe_text, validate_delegate, validate_task, validate_tail, validate_report,
  validate_record, validate_value, validate_values, validate_intent_records,
}
use ai_bobnet.Base.{
  All, ◌||◌, ◌↔◌, ◌==◌, some, arith, if◌then◌else◌, refl, ok, Option, ◌++◌, none, length, Text,
  codes, ◌⊎◌, ℕ, ◌≤◌, true, ◌≡◌, List, drop_prefix, alnum, slug, is_token, text_eq, raise_if, [],
  ◌∷◌,
}

-- The JSON text of a record of ASCII texts: `"`, `\` and line feeds are escaped.
abbrev escaped : Text → List ℕ
escaped [] = []
escaped (c ∷ s) =
    let rest = escaped s in
    if c == 10
    then b'\\' ∷ b'n' ∷ rest
    else if c == b'"' || c == b'\\'
    then b'\\' ∷ c ∷ rest
    else c ∷ rest

abbrev quoted : Text → List ℕ
quoted s = b'"' ∷ (escaped s ++ b'"' ∷ [])

abbrev printed_value : Value → List ℕ
printed_value (str s) = quoted s
printed_value _ = codes "null"

abbrev printed_fields : Fields → List ℕ
printed_fields end = []
printed_fields (field k v end) = quoted k ++ b':' ∷ printed_value v
printed_fields (field k v r) = quoted k ++ b':' ∷ (printed_value v ++ b',' ∷ printed_fields r)

abbrev printed : Fields → List ℕ
printed r = b'{' ∷ (printed_fields r ++ b'}' ∷ 10 ∷ [])

escaped-lines : (s : Text) → lines_of (escaped s) ≡ 0
escaped-lines [] = refl
escaped-lines (c ∷ s) = ground (arith, escaped-lines s)

quoted-lines : (s : Text) → lines_of (quoted s) ≡ 0
quoted-lines s = omega (arith, count-append (escaped s) (b'"' ∷ []), escaped-lines s)

printed_value-lines : (v : Value) → lines_of (printed_value v) ≡ 0
printed_value-lines (str s) = quoted-lines s
printed_value-lines _ = refl

printed_fields-lines : (r : Fields) → lines_of (printed_fields r) ≡ 0
printed_fields-lines end = refl
printed_fields-lines (field k v end) =
    omega (
      arith,
      count-append (quoted k) (b':' ∷ printed_value v),
      quoted-lines k,
      printed_value-lines v,
    )
printed_fields-lines (field k v (field j w r)) = omega (
  arith,
  count-append (quoted k) (b':' ∷ (printed_value v ++ b',' ∷ printed_fields (field j w r))),
  count-append (printed_value v) (b',' ∷ printed_fields (field j w r)),
  quoted-lines k,
  printed_value-lines v,
  printed_fields-lines (field j w r),
)

printed-OneLine : (r : Fields) → lines_of (printed r) ≡ 1
printed-OneLine r =
    omega (arith, count-append (printed_fields r) (b'}' ∷ 10 ∷ []), printed_fields-lines r)

abbrev home : Home
home = record {
  is_available = true;
  attempt = codes "acme-att-1";
  encoded = printed;
  is_safe = true;
}

abbrev intent : Intent
intent = record { verb = progress; task_id = codes "t-aaaaaaaaaaaa"; summary = codes "half way" }

abbrev intents : List Value
intents = obj (intent_record home.attempt intent) ∷ []

-- the validation with all that it calls, to run it
unfoldable checked : List Value → Text → Option Text → Checks (List Value)
unfolding validate_intent_records validate_values validate_value validate_record validate_report
    validate_tail validate_task validate_delegate safe_text safe_texts reason_text keys_within
    ref_fits is_ref intent_record get has is_str in_names raise_if text_eq is_token slug alnum
    is_task_id drop_prefix encodable safe_display_text blocked_point
checked = validate_intent_records

validate_intent_records-AllIntents_example :
    (intents ≡ intents)
    × (1 ≤ length intents)
    × (length intents ≤ max_intents)
    × (is_token (codes "acme-att-1") ≡ true)
    × AllIntents (codes "acme-att-1") none intents
unfolding checked
validate_intent_records-AllIntents_example =
    validate_intent_records-AllIntents intents (codes "acme-att-1") none refl

abbrev contents_in : Queued → List ℕ
contents_in (queued contents) = contents
contents_in (fails code) = []

Queueing-accepted_example :
    ((intents ≡ [])
      ⊎ ((validate_intent_records intents home.attempt (some (codes "t-aaaaaaaaaaaa")) ≡ ok intents)
          ↔ All (λ v. task_named v ≡ str (codes "t-aaaaaaaaaaaa")) intents))
    × (length (contents_in (main home [] intent)) ≤ max_file)
    × (lines_of (contents_in (main home [] intent)) ≡ length intents)
unfolding checked main append_intent queue_intent options_fit validate_summary
Queueing-accepted_example =
    Queueing-accepted home printed-OneLine intents (contents_in (main home [] intent))
      (run intent empty refl) (codes "t-aaaaaaaaaaaa")
