-- ===== src/Intents/Queue.antt =====
-- The queue of an attempt over the runs of the client: what lib/task_intent.py writes, it accepts.
use ai_bobnet.Intents.Wanted.{validate_values-some, AllIntents-named, task_named, IsQueued}
use ai_bobnet.Intents.Sound.{validate_intent_records-AllIntents}
use ai_bobnet.Json.{get, str, obj, Value, Fields}
use ai_bobnet.Intents.Validate.{
  validate_value, validate_summary, Checks, validate_values, max_line, max_intents, max_file,
  validate_intent_records, validate_record, validate_task, validate_tail,
}
use ai_bobnet.Intents.Client.{
  settle_queue, queue_intent, after_summary, intent_record, queued, Intent, Home, main,
  append_intent,
}
use ai_bobnet.Base.{
  ◌↔◌, All, value_error, type_error, raised, err, inr, true, codes, refl, is_token, inl, ◌⊎◌,
  >>=-eq-ok, raise_if, length-append, ok-injective, sym, guard-eq-ok, ◌<◌, ◌≤◌, none, length, arith,
  ok, ◌+◌, ◌==◌, some, ◌++◌, ◌≡◌, count_of, ℕ, Text, List, [], ◌∷◌,
}

-- the lines of the file
abbrev pub lines_of : List ℕ → ℕ
lines_of contents = count_of (λ b. b == 10) contents

-- The encoder writes one line: `json.dumps` escapes the line feeds of texts, and one is added.
abbrev pub OneLine : Home → Type 0
OneLine home = (r : Fields) → lines_of (home.encoded r) ≡ 1

-- The records and the content of the file after some runs of the client.
pub data Queueing (home : Home) : List Value → List ℕ → Type 0 where
  empty : Queueing home [] []
  run :
      {vs : List Value} {contents contents' : List ℕ} (i : Intent)
      → Queueing home vs contents
      → main home contents i ≡ queued contents'
      → Queueing home (vs ++ obj (intent_record home.attempt i) ∷ []) contents'

pub count-append : (s t : List ℕ) → lines_of (s ++ t) ≡ lines_of s + lines_of t
count-append [] t = omega arith
count-append (c ∷ s) t = omega (arith, count-append s t)

-- What an append that returns has checked.
append_intent-eq-ok :
    (home : Home) (contents : List ℕ) (r : Fields) {out : List ℕ}
    → append_intent home contents r ≡ ok out
    → (out ≡ contents ++ home.encoded r)
      × (length out ≤ max_file)
      × (lines_of contents < max_intents)
      × (length (home.encoded r) ≤ max_line)
unfolding append_intent
append_intent-eq-ok home contents r {out} h =
    let (long, h₁) = guard-eq-ok _ _ _ h in
    let (_, h₂) = guard-eq-ok _ _ _ h₁ in
    let (fits, h₃) = guard-eq-ok _ _ _ h₂ in
    let (full, h₄) = guard-eq-ok _ _ _ h₃ in
    let same = sym (ok-injective h₄) in
    (
      same,
      rw same (ground (arith, fits, length-append contents (home.encoded r))),
      ground (arith, full),
      ground (arith, long),
    )

settle_queue-queued :
    (m : Checks (List ℕ)) {out : List ℕ} → settle_queue m ≡ queued out → m ≡ ok out
settle_queue-queued (ok contents) h = ground arith
settle_queue-queued (err (raised e)) h = cc
settle_queue-queued (err type_error) h = cc
settle_queue-queued (err value_error) h = cc

after_summary-queued :
    (home : Home) (contents : List ℕ) (i : Intent) (m : Checks (Unit {0})) {out : List ℕ}
    → after_summary home contents i m ≡ queued out
    → settle_queue (queue_intent home contents i) ≡ queued out
unfolding after_summary
after_summary-queued home contents i (ok u) h = ground arith
after_summary-queued home contents i (err e) h = cc

-- A run that queues has validated its record and appended its line.
main-queued :
    (home : Home) (contents : List ℕ) (i : Intent) {out : List ℕ}
    → main home contents i ≡ queued out
    → queue_intent home contents i ≡ ok out
unfolding main
main-queued home contents i h =
    settle_queue-queued _
      (after_summary-queued home contents i (validate_summary i.summary) (ground arith))

queue_intent-eq-ok :
    (home : Home) (contents : List ℕ) (i : Intent) {out : List ℕ}
    → queue_intent home contents i ≡ ok out
    → (vs : List Value) × (validate_intent_records
          (obj (intent_record home.attempt i) ∷ [])
          home.attempt
          (some i.task_id)
        ≡ ok vs)
      × (append_intent home contents (intent_record home.attempt i) ≡ ok out)
unfolding queue_intent
queue_intent-eq-ok home contents i h =
    >>=-eq-ok
      (validate_intent_records (obj (intent_record home.attempt i) ∷ []) home.attempt
        (some i.task_id))
      _ h

-- A record that is validated for one task is valid for any.
task_any :
    (t : Text) (v : Value) {u : Unit {0}}
    → validate_task (some t) v ≡ ok u
    → validate_task none v ≡ ok tt
unfolding validate_task raise_if
task_any t (str s) h = ground arith
task_any t _ h = cc

tail_any :
    (t : Text) (r : Fields) {u : Unit {0}}
    → validate_tail (some t) r ≡ ok u
    → validate_tail none r ≡ ok tt
unfolding validate_tail
tail_any t r h =
    let (_, task, rest) = >>=-eq-ok (validate_task (some t) (get (codes "task_id") r)) _ h in
    rw (task_any t (get (codes "task_id") r) task) rest

record_any :
    (attempt t : Text) (r : Fields) {u : Unit {0}}
    → validate_record attempt (some t) r ≡ ok u
    → validate_record attempt none r ≡ ok tt
unfolding validate_record
record_any attempt t r h = ground (arith, tail_any t r)

validate_values-append :
    (attempt : Text) (vs : List Value) (v : Value)
    → validate_values attempt none vs ≡ ok tt
    → validate_value attempt none v ≡ ok tt
    → validate_values attempt none (vs ++ v ∷ []) ≡ ok tt
unfolding validate_values
validate_values-append attempt [] v h k = rw k refl
validate_values-append attempt (w ∷ vs) v h k =
    let (_, first, rest) = >>=-eq-ok (validate_value attempt none w) _ h in
    rw first (validate_values-append attempt vs v rest k)

single_valid :
    (attempt t : Text) (r : Fields) {out : List Value}
    → validate_intent_records (obj r ∷ []) attempt (some t) ≡ ok out
    → validate_value attempt none (obj r) ≡ ok tt
unfolding validate_intent_records validate_values validate_value
single_valid attempt t r h =
    let (_, h₁) = guard-eq-ok _ _ _ h in
    let (_, h₂) = guard-eq-ok _ _ _ h₁ in
    let (_, checked, _) = >>=-eq-ok (validate_values attempt (some t) (obj r ∷ [])) _ h₂ in
    let (_, first, _) = >>=-eq-ok (validate_record attempt (some t) r) _ checked in
    record_any attempt t r first

-- what a queue has: a line for each record, a bounded size, and records that are valid
pub record IsQueue (home : Home) (vs : List Value) (contents : List ℕ) : Type 0 where
  pub counted : lines_of contents ≡ length vs
  pub few : length vs ≤ max_intents
  pub small : length contents ≤ max_file
  pub valid : validate_values home.attempt none vs ≡ ok tt
  pub token : (vs ≡ []) ⊎ (is_token home.attempt ≡ true)
  pub built : All (IsQueued home.attempt) vs

All-append :
    (P : Value → Type 0) (vs : List Value) (v : Value) → All P vs → P v → All P (vs ++ v ∷ [])
All-append P [] v all one = (one, tt)
All-append P (w ∷ vs) v all one = (all.0, All-append P vs v all.1 one)

Queueing-IsQueue :
    (home : Home)
    → OneLine home
    → (vs : List Value) (contents : List ℕ) → Queueing home vs contents
    → IsQueue home vs contents
unfolding validate_values
Queueing-IsQueue home one vs contents empty = record {
  counted = refl;
  few = omega arith;
  small = omega arith;
  valid = refl;
  token = inl refl;
  built = tt;
}
Queueing-IsQueue home one vs contents (run {vs = old} {contents = before} i q step) =
    let v = Queueing-IsQueue home one old before q in
    let r = intent_record home.attempt i in
    let (checked, valid, written) =
      queue_intent-eq-ok home before i (main-queued home before i step) in
    let (same, small, room, _) = append_intent-eq-ok home before r written in
    let (_, _, _, token, _) =
      validate_intent_records-AllIntents (obj r ∷ []) home.attempt (some i.task_id) valid in
    record {
      counted = rw same (
          omega (
            arith,
            count-append before (home.encoded r),
            one r,
            v.counted,
            length-append old (obj r ∷ []),
          ));
      few = omega (arith, length-append old (obj r ∷ []), v.counted, room);
      small = small;
      valid =
          validate_values-append home.attempt old (obj r) v.valid
            (single_valid home.attempt i.task_id r valid);
      token = inr token;
      built = All-append (IsQueued home.attempt) old (obj r) v.built (i, refl);
    }

-- Whatever runs of the client have queued, if its encoder writes one line for each record: where there are
-- records, the supervisor's validation for a task accepts them all together exactly when each of them names this
-- task; the client queues an intent for any task. The file has at most 65536 bytes and as many lines as records.
pub Queueing-accepted :
    (home : Home)
    → OneLine home
    → (vs : List Value) (contents : List ℕ) → Queueing home vs contents
    → (t : Text)
    → ((vs ≡ [])
        ⊎ ((validate_intent_records vs home.attempt (some t) ≡ ok vs)
            ↔ All (λ v. task_named v ≡ str t) vs))
      × (length contents ≤ max_file)
      × (lines_of contents ≡ length vs)
unfolding validate_intent_records raise_if
Queueing-accepted home one vs contents q t =
    let v = Queueing-IsQueue home one vs contents q in
    (go vs v.few v.valid v.token v.built, v.small, v.counted)
  where
    go :
        (vs : List Value)
        → length vs ≤ max_intents
        → validate_values home.attempt none vs ≡ ok tt
        → (vs ≡ []) ⊎ (is_token home.attempt ≡ true)
        → All (IsQueued home.attempt) vs
        → (vs ≡ [])
          ⊎ ((validate_intent_records vs home.attempt (some t) ≡ ok vs)
              ↔ All (λ v. task_named v ≡ str t) vs)
    go [] few valid token built = inl refl
    go (w ∷ ws) few valid (inl none_yet) built = cc
    go (w ∷ ws) few valid (inr token) built = inr (
      (λ accepted.
          let (_, _, _, _, intents) =
            validate_intent_records-AllIntents (w ∷ ws) home.attempt (some t) accepted in
          AllIntents-named home.attempt t (w ∷ ws) built intents),
      (λ named.
          let for_task = validate_values-some home.attempt t (w ∷ ws) valid named in
          ground (arith, few, for_task, token)),
    )
