-- ===== src/Intents/Sound.antt =====
-- What a file of intents that `validate_intent_records` of lib/task_intent.py accepts is like.
use mathlib.Core.Option.{none, some-injective}
use mathlib.Core.Path.{subst}
use ai_bobnet.Cli.Arguments.{encodable}
use ai_bobnet.Ledger.Types.{is_task_id}
use ai_bobnet.Ledger.Display.{safe_display_text}
use ai_bobnet.Json.{end, field, has, obj, among, null, get, str, is_str, Fields, Value, in_names}
use ai_bobnet.Intents.Validate.{
  report_keys, delegate_keys, intent_verb, continue_schema, has_keys, continue_keys, keys_within,
  foreign_attempt, max_intents, validate_intent_records, validate_value, validate_values,
  validate_record, validate_report, validate_delegate, ref_fits, report_states, utf8_length, Flaw,
  max_line, reason_text, safe_texts, validate_tail, validate_task, safe_text,
}
use ai_bobnet.Base.{
  text_eq, Bool-cases, and_true, all, ◌&&◌, ok-injective, raise_if, sym, is_token, raised, err,
  length, All, if◌then◌else◌, ◌>>◌, [], ◌∙◌, ◌≤◌, refl, inr, text_eq_iff, false, inl, arith, some,
  not, ◌⊎◌, >>=-eq-ok, not-false, raise_if-eq-ok, true, guard-eq-ok, codes, Bool, ok, List, ◌≡◌, ℕ,
  Option, Text, ◌∷◌,
}

-- A text that a display line can hold, of at most so many bytes.
pub record IsLine (v : Value) (limit : ℕ) : Type 0 where
  pub text : Text
  pub is_text : v ≡ str text
  pub is_safe : safe_display_text text ≡ true
  pub is_encodable : encodable text ≡ true
  pub is_short : utf8_length text ≤ limit

-- A task's identifier, the wanted one if there is one.
pub record IsTask (v : Value) (wanted : Option Text) : Type 0 where
  pub ident : Text
  pub is_text : v ≡ str ident
  pub is_ident : is_task_id ident ≡ true
  pub is_wanted : (t : Text) → wanted ≡ some t → ident ≡ t

-- The keys of a record: all that are needed, and none but those that are allowed.
pub record HasKeys (needed allowed : List Text) (r : Fields) : Type 0 where
  pub all_needed : All (λ k. has k r ≡ true) needed
  pub all_allowed : (k : Text) → has k r ≡ true → among k allowed ≡ true

keys_within-among :
    (allowed : List Text) (r : Fields) (k : Text)
    → keys_within allowed r ≡ true
    → has k r ≡ true
    → among k allowed ≡ true
unfolding keys_within has
keys_within-among allowed end k h there = cc
keys_within-among allowed (field j v r) k h there =
    let (first, others) = and_true (among j allowed) (keys_within allowed r) h in
    elim (Bool-cases (text_eq j k)) [
      | inl same ↦ subst (λ x. among x allowed ≡ true) ((text_eq_iff j k).0 same) first
      | inr other ↦ keys_within-among allowed r k others (ground arith)
    ]

all-All : (p : Text → Bool) (names : List Text) → all p names ≡ true → All (λ k. p k ≡ true) names
all-All p [] h = tt
all-All p (k ∷ names) h =
    let (first, others) = and_true (p k) (all p names) h in (first, all-All p names others)

checked_keys :
    (needed allowed : List Text) (r : Fields)
    → has_keys needed r ≡ true
    → keys_within allowed r ≡ true
    → HasKeys needed allowed r
checked_keys needed allowed r have within = record {
  all_needed = all-All (λ k. has k r) needed have;
  all_allowed = λ k there. keys_within-among allowed r k within there;
}

-- A record of one of the three verbs, of the attempt. A delegation has exactly its seven keys, a continuation exactly
-- its four, a report at least those four and at most its seven.
pub data IsIntent (attempt : Text) (wanted : Option Text) (r : Fields) : Type 0 where
  delegates :
      HasKeys delegate_keys delegate_keys r
      → is_str (get (codes "attempt_id") r) attempt ≡ true
      → is_str (get (codes "verb") r) (codes "delegate") ≡ true
      → IsLine (get (codes "run_id") r) max_line
      → IsLine (get (codes "to") r) max_line
      → IsLine (get (codes "title") r) max_line
      → IsLine (get (codes "body") r) max_line
      → IsLine (get (codes "source_msg_id") r) max_line
      → IsIntent attempt wanted r
  continues :
      HasKeys continue_keys continue_keys r
      → is_str (get (codes "attempt_id") r) attempt ≡ true
      → is_str (get (codes "verb") r) (codes "continue") ≡ true
      → IsTask (get (codes "task_id") r) wanted
      → IsLine (get (codes "summary") r) 2048
      → IsIntent attempt wanted r
  reports :
      HasKeys continue_keys report_keys r
      → is_str (get (codes "attempt_id") r) attempt ≡ true
      → is_str (get (codes "verb") r) (codes "report") ≡ true
      → (state : Text) → get (codes "state") r ≡ str state
      → among state report_states ≡ true
      → ref_fits (get (codes "result_ref") r) ≡ true
      → (get (codes "reason") r ≡ null) ⊎ IsLine (get (codes "reason") r) 512
      → IsTask (get (codes "task_id") r) wanted
      → IsLine (get (codes "summary") r) 2048
      → IsIntent attempt wanted r

safe_text-IsLine :
    (v : Value) (name : Text) (limit : ℕ) {u : Unit {0}}
    → safe_text v name limit ≡ ok u
    → IsLine v limit
unfolding safe_text
safe_text-IsLine (str s) name limit h =
    let (coded, h₁) = guard-eq-ok _ _ _ h in
    let bad = raise_if-eq-ok _ _ h₁ in
    record {
      text = s;
      is_text = refl;
      is_safe = ground (arith, bad);
      is_encodable = not-false _ coded;
      is_short = ground (arith, bad);
    }
safe_text-IsLine _ name limit h = cc

validate_task-IsTask :
    (wanted : Option Text) (v : Value) {u : Unit {0}}
    → validate_task wanted v ≡ ok u
    → IsTask v wanted
unfolding validate_task
validate_task-IsTask none (str s) h =
    let (bad, h₁) = guard-eq-ok _ _ _ h in
    record { ident = s; is_text = refl; is_ident = not-false _ bad; is_wanted = λ t p. cc }
validate_task-IsTask (some t) (str s) h =
    let (bad, h₁) = guard-eq-ok _ _ _ h in
    let other = raise_if-eq-ok _ _ h₁ in
    let same = (text_eq_iff s t).0 (not-false _ other) in
    record {
      ident = s;
      is_text = refl;
      is_ident = not-false _ bad;
      is_wanted = λ t' p. same ∙ some-injective t t' p;
    }
validate_task-IsTask wanted _ h = cc

validate_tail-eq-ok :
    (wanted : Option Text) (r : Fields) {u : Unit {0}}
    → validate_tail wanted r ≡ ok u
    → IsTask (get (codes "task_id") r) wanted × IsLine (get (codes "summary") r) 2048
unfolding validate_tail
validate_tail-eq-ok wanted r h =
    let (_, task, rest) = >>=-eq-ok (validate_task wanted (get (codes "task_id") r)) _ h in
    (validate_task-IsTask wanted _ task, safe_text-IsLine _ (codes "summary") 2048 rest)

safe_texts-eq-ok :
    (r : Fields) (name : Text) (names : List Text) {u : Unit {0}}
    → safe_texts r (name ∷ names) ≡ ok u
    → IsLine (get name r) max_line × (safe_texts r names ≡ ok u)
unfolding safe_texts
safe_texts-eq-ok r name names h =
    let (_, line, rest) = >>=-eq-ok (safe_text (get name r) name max_line) _ h in
    (safe_text-IsLine _ name max_line line, rest)

reason_text-eq-ok : (v : Value) {u : Unit {0}} → reason_text v ≡ ok u → (v ≡ null) ⊎ IsLine v 512
unfolding reason_text
reason_text-eq-ok null h = inl refl
reason_text-eq-ok (str s) h = inr (safe_text-IsLine (str s) (codes "reason") 512 h)
reason_text-eq-ok _ h = inr (safe_text-IsLine _ (codes "reason") 512 h)

in_names-eq-ok :
    (v : Value) (names : List Text) {b : Bool}
    → in_names {R = Flaw} v names ≡ ok b
    → not b ≡ false
    → (s : Text) × (v ≡ str s) × (among s names ≡ true)
unfolding in_names
in_names-eq-ok (str s) names h b = (s, refl, ground arith)
in_names-eq-ok _ names h b = cc

module _ (attempt : Text) (wanted : Option Text) (r : Fields) {u : Unit {0}}
    (own : is_str (get (codes "attempt_id") r) attempt ≡ true) where
  validate_delegate-IsIntent :
      is_str (get (codes "verb") r) (codes "delegate") ≡ true
      → validate_delegate r ≡ ok u
      → IsIntent attempt wanted r
  unfolding validate_delegate
  validate_delegate-IsIntent verb h =
      let (keys, h₁) = guard-eq-ok _ _ _ h in
      let (within, have) = and_true _ _ (not-false _ keys) in
      let (run, h₂) = safe_texts-eq-ok r (codes "run_id") _ h₁ in
      let (to, h₃) = safe_texts-eq-ok r (codes "to") _ h₂ in
      let (title, h₄) = safe_texts-eq-ok r (codes "title") _ h₃ in
      let (body, h₅) = safe_texts-eq-ok r (codes "body") _ h₄ in
      let (source, _) = safe_texts-eq-ok r (codes "source_msg_id") [] h₅ in
      delegates (checked_keys delegate_keys delegate_keys r have within) own verb run to title body
        source

  validate_continue-IsIntent :
      not (keys_within continue_keys r && has_keys continue_keys r) ≡ false
      → is_str (get (codes "verb") r) (codes "continue") ≡ true
      → validate_tail wanted r ≡ ok u
      → IsIntent attempt wanted r
  validate_continue-IsIntent keys verb h =
      let (within, have) = and_true _ _ (not-false _ keys) in
      let (task, summary) = validate_tail-eq-ok wanted r h in
      continues (checked_keys continue_keys continue_keys r have within) own verb task summary

  validate_report-IsIntent :
      is_str (get (codes "verb") r) (codes "report") ≡ true
      → (validate_report r >> validate_tail wanted r) ≡ ok u
      → IsIntent attempt wanted r
  unfolding validate_report
  validate_report-IsIntent verb h =
      let (_, reported, tail) = >>=-eq-ok (validate_report r) _ h in
      let (keys, h₁) = guard-eq-ok _ _ _ reported in
      let (known, looked, h₂) = >>=-eq-ok (in_names (get (codes "state") r) report_states) _ h₁ in
      let (listed, h₃) = guard-eq-ok _ _ _ h₂ in
      let (ref, h₄) = guard-eq-ok _ _ _ h₃ in
      let (state, state_is, in_states) = in_names-eq-ok _ report_states looked listed in
      let (task, summary) = validate_tail-eq-ok wanted r tail in
      reports
        (checked_keys continue_keys report_keys r (ground (arith, keys)) (ground (arith, keys))) own
        verb state state_is in_states (not-false _ ref) (reason_text-eq-ok _ h₄) task summary

validate_record-IsIntent :
    (attempt : Text) (wanted : Option Text) (r : Fields) {u : Unit {0}}
    → validate_record attempt wanted r ≡ ok u
    → IsIntent attempt wanted r
unfolding validate_record
validate_record-IsIntent attempt wanted r {u} h =
    go (is_str (get (codes "attempt_id") r) attempt)
      (is_str (get (codes "verb") r) (codes "delegate"))
      (is_str (get (codes "verb") r) (codes "continue"))
      (is_str (get (codes "verb") r) (codes "report")) refl refl refl refl h
  where
    go :
        (own delegate continue report : Bool)
        → is_str (get (codes "attempt_id") r) attempt ≡ own
        → is_str (get (codes "verb") r) (codes "delegate") ≡ delegate
        → is_str (get (codes "verb") r) (codes "continue") ≡ continue
        → is_str (get (codes "verb") r) (codes "report") ≡ report
        → (if not own
            then err (raised foreign_attempt)
            else if delegate
            then validate_delegate r
            else if continue
            then (raise_if
                  (not (keys_within continue_keys r && has_keys continue_keys r))
                  continue_schema
                >> validate_tail wanted r)
            else if report
            then (validate_report r >> validate_tail wanted r)
            else err (raised intent_verb))
          ≡ ok u
        → IsIntent attempt wanted r
    go true true c p own d _ _ k = validate_delegate-IsIntent attempt wanted r own d k
    go true false true p own _ c _ k =
        let (keys, tail) = guard-eq-ok _ _ _ k in
        validate_continue-IsIntent attempt wanted r own keys c tail
    go true false false true own _ _ p k = validate_report-IsIntent attempt wanted r own p k
    go true false false false own _ _ _ k = cc
    go false d c p own _ _ _ k = cc

-- The objects among the values are intents, and there is nothing else.
abbrev pub AllIntents : Text → Option Text → List Value → Type 0
AllIntents attempt wanted vs = All (λ v. (r : Fields) × (v ≡ obj r) × IsIntent attempt wanted r) vs

validate_values-AllIntents :
    (attempt : Text) (wanted : Option Text) (vs : List Value) {u : Unit {0}}
    → validate_values attempt wanted vs ≡ ok u
    → AllIntents attempt wanted vs
unfolding validate_values validate_value
validate_values-AllIntents attempt wanted [] h = tt
validate_values-AllIntents attempt wanted (obj r ∷ vs) h =
    let (_, first, rest) = >>=-eq-ok (validate_record attempt wanted r) _ h in
    (
      (r, refl, validate_record-IsIntent attempt wanted r first),
      validate_values-AllIntents attempt wanted vs rest,
    )
validate_values-AllIntents attempt wanted (_ ∷ vs) h = cc

-- What a validation that returns has checked: it returns the records that it was given, of which there
-- are one to ten, under an attempt that is a token; and each is an object with the attempt's identifier that is a
-- delegation, a continuation or a report, with all the keys that the verb needs and none that it does not allow, and
-- with short safe texts. A continuation or a report names a task, the wanted one if there is one.
pub validate_intent_records-AllIntents :
    (vs : List Value) (attempt : Text) (wanted : Option Text) {out : List Value}
    → validate_intent_records vs attempt wanted ≡ ok out
    → (out ≡ vs)
      × (1 ≤ length vs)
      × (length vs ≤ max_intents)
      × (is_token attempt ≡ true)
      × AllIntents attempt wanted vs
unfolding validate_intent_records
validate_intent_records-AllIntents vs attempt wanted h =
    let (count, h₁) = guard-eq-ok _ _ _ h in
    let (token, h₂) = guard-eq-ok _ _ _ h₁ in
    let (_, checked, same) = >>=-eq-ok (validate_values attempt wanted vs) _ h₂ in
    (
      sym (ok-injective same),
      ground (arith, count),
      ground (arith, count),
      not-false _ token,
      validate_values-AllIntents attempt wanted vs checked,
    )
