-- ===== src/Cli/Once.antt =====
-- Each causation is decided once: `causation_replay` and `commit` of lib/task_cli.py together.
use ai_bobnet.Ledger.Types.{event_name}
use ai_bobnet.Cli.Payload.{optional}
use ai_bobnet.Cli.Arguments.{given}
use ai_bobnet.Ledger.Requests.{Decision, Request}
use ai_bobnet.Json.{is_str, end, obj, get_or, str, get, Fields, Value}
use ai_bobnet.Ledger.Reading.{Rows}
use ai_bobnet.Cli.Run.{if_given, appended, Commit, Envelope, System, nonempty, envelope_lines}
use ai_bobnet.Cli.Replay.{replay_of, of_causation, Submission, causation_replay}
use ai_bobnet.Base.{
  sym, text_eq_iff, inr, inl, Bool-cases, ap, if◌then◌else◌, any, refl, Option, ◌∙◌, text_eq_refl,
  some, true, arith, codes, false, ◌+◌, none, ◌++◌, ◌≡◌, ◌==◌, count_of, length, List, ◌≤◌, ℕ, Bool,
  Text, text_eq, lookup, [], ◌∷◌,
}

-- What the header of `aib_event_commit` says of the record that is appended: it is the last one, it has
-- the kind and the payload that were passed, and the envelope's fields, null where one is missing.
pub record IsAppend (before : Rows) (envelope : Envelope) (kind : Text) (payload : Fields)
    (after : Rows) : Type 0 where
  pub seq : ℕ
  pub fields : Fields
  pub events_are : after.events ≡ before.events ++ (seq, fields) ∷ []
  pub kind_is : get (codes "event_type") fields ≡ str kind
  pub payload_is : get_or (codes "payload") (obj end) fields ≡ obj payload
  pub task_is : get (codes "task_id") fields ≡ optional (lookup (codes "task_id") envelope)
  pub causation_is :
      get (codes "causation_id") fields ≡ optional (lookup (codes "causation_id") envelope)

-- the system's commits are such
abbrev pub Appends : System → Type 0
Appends sys =
    (rows : Rows) (envelope : Envelope) (kind : Text) (payload : Fields) (c : Commit)
    → sys.append rows envelope kind payload ≡ appended c
    → IsAppend rows envelope kind payload c.rows

-- the records of a causation
abbrev pub decisions : Text → Rows → ℕ
decisions causation rows = count_of (λ row. of_causation causation row.1) rows.events

-- No causation has two records.
abbrev pub DecidedOnce : Rows → Type 0
DecidedOnce rows = (causation : Text) → decisions causation rows ≤ 1

module _ (text_of : Value → Text) (q : Request) where
  -- No replay: no record has the causation.
  no_replay :
      (events : List (ℕ × Fields))
      → causation_replay text_of q events ≡ none
      → count_of (λ row. of_causation q.causation_id row.1) events ≡ 0
  unfolding causation_replay
  no_replay [] h = refl
  no_replay ((seq, r) ∷ events) h = ground (arith, no_replay events)

  -- Then the replay finds the next record of the causation.
  pub replay-append :
      (events : List (ℕ × Fields)) (seq : ℕ) (r : Fields)
      → causation_replay text_of q events ≡ none
      → of_causation q.causation_id r ≡ true
      → causation_replay text_of q (events ++ (seq, r) ∷ []) ≡ some (replay_of text_of q r)
  unfolding causation_replay
  replay-append [] seq r h same = ground arith
  replay-append ((n, s) ∷ events) seq r h same = ground (arith, replay-append events seq r)

count-append {ℓ} :
    {A : Type ℓ} (p : A → Bool) (xs ys : List A)
    → count_of p (xs ++ ys) ≡ count_of p xs + count_of p ys
count-append p [] ys = omega arith
count-append p (x ∷ xs) ys = omega (arith, count-append p xs ys)

-- A pair with another key is of no matter, and one with the key is found unless its text is empty.
lookup-nonempty_other :
    (k j v : Text) (rest : Envelope)
    → text_eq j k ≡ false
    → lookup k (nonempty ((j, v) ∷ rest)) ≡ lookup k (nonempty rest)
unfolding nonempty lookup
lookup-nonempty_other k j v rest h = ground arith

lookup-nonempty_here :
    (k v : Text) (rest : Envelope)
    → (length v == 0) ≡ false
    → lookup k (nonempty ((k, v) ∷ rest)) ≡ some v
unfolding nonempty lookup
lookup-nonempty_here k v rest h = ground (arith, text_eq_refl k)

-- Pairs with other keys are of no matter.
lookup-nonempty_skip :
    (k : Text) (skipped rest : Envelope)
    → any (λ pair. text_eq pair.0 k) skipped ≡ false
    → lookup k (nonempty (skipped ++ rest)) ≡ lookup k (nonempty rest)
lookup-nonempty_skip k [] rest h = refl
lookup-nonempty_skip k ((j, v) ∷ skipped) rest h =
    ground
      (arith, lookup-nonempty_other k j v (skipped ++ rest), lookup-nonempty_skip k skipped rest)

-- the pairs before the task's
abbrev first_pairs : Submission → Envelope
first_pairs sub =
    (codes "project_uid", sub.project_uid)
    ∷ (codes "actor_type", sub.request.actor_type)
    ∷ (codes "actor_id", sub.request.actor_id)
    ∷ (
      codes "agent_uid",
      if text_eq sub.request.actor_type (codes "agent") then sub.request.actor_id else [],
    )
    ∷ (codes "team_uid", sub.request.team_uid)
    ∷ (codes "run_id", sub.request.run_id)
    ∷ []

last_pairs :
    (k : Text) (sub : Submission)
    → any (λ pair. text_eq pair.0 k) (first_pairs sub) ≡ false
    → lookup k (envelope_lines sub)
      ≡ lookup k (
          nonempty (
            (codes "task_id", if_given sub.request.task_id)
            ∷ (codes "causation_id", sub.request.causation_id)
            ∷ []))
unfolding envelope_lines
last_pairs k sub h = lookup-nonempty_skip k (first_pairs sub) _ h

-- The envelope of a request has its causation and its task, where they are not empty texts.
envelope-causation :
    (sub : Submission)
    → (length sub.request.causation_id == 0) ≡ false
    → lookup (codes "causation_id") (envelope_lines sub) ≡ some sub.request.causation_id
unfolding text_eq
envelope-causation sub h =
    last_pairs (codes "causation_id") sub refl
    ∙ lookup-nonempty_other _ _ _ _ refl
    ∙ lookup-nonempty_here _ _ _ h

pub envelope-task :
    (sub : Submission)
    → given (λ s. length s == 0) sub.request.task_id ≡ false
    → lookup (codes "task_id") (envelope_lines sub) ≡ sub.request.task_id
unfolding text_eq nonempty lookup
envelope-task sub h = last_pairs (codes "task_id") sub refl ∙ go sub.request.task_id h
  where
    go :
        (ident : Option Text)
        → given (λ s. length s == 0) ident ≡ false
        → lookup (codes "task_id") (
            nonempty (
              (codes "task_id", if_given ident)
              ∷ (codes "causation_id", sub.request.causation_id)
              ∷ []))
          ≡ ident
    go none p = ground arith
    go (some ident) p = ground arith

-- What a record that is committed for a submission has.
module _ (sys : System) (appends : Appends sys) (rows : Rows) (sub : Submission) (d : Decision)
    (c : Commit) (names_causation : (length sub.request.causation_id == 0) ≡ false)
    (written : sys.append rows (envelope_lines sub) (event_name d.kind) d.payload
      ≡ appended c) where
  pub committed : IsAppend rows (envelope_lines sub) (event_name d.kind) d.payload c.rows
  committed = appends rows (envelope_lines sub) (event_name d.kind) d.payload c written

  pub committed-causation :
      (causation : Text)
      → of_causation causation committed.fields ≡ text_eq sub.request.causation_id causation
  unfolding is_str
  committed-causation causation =
      rw (committed.causation_is ∙ ap optional (envelope-causation sub names_causation)) refl

  committed-decisions :
      (causation : Text)
      → decisions causation c.rows
        ≡ decisions causation rows + (if text_eq sub.request.causation_id causation then 1 else 0)
  committed-decisions causation = rw (committed.events_are) (
      rw (← committed-causation causation) (
        omega (
          arith,
          count-append (λ (row : ℕ × Fields). of_causation causation row.1) rows.events
              ((committed.seq, committed.fields) ∷ []),
        )))

  -- Where no record had the causation, the new one is its only one; other causations keep theirs.
  pub committed-DecidedOnce :
      causation_replay sys.text_of sub.request rows.events ≡ none
      → DecidedOnce rows
      → DecidedOnce c.rows
  committed-DecidedOnce fresh once causation =
      elim (Bool-cases (text_eq sub.request.causation_id causation)) [
        | inl same ↦
            let none_yet = no_replay sys.text_of sub.request rows.events fresh in
            let q = (text_eq_iff sub.request.causation_id causation).0 same in
            ground (
              arith,
              committed-decisions causation,
              ap (λ (t : Text). decisions t rows) (sym q),
              none_yet,
            )
        | inr other ↦ ground (arith, committed-decisions causation, once causation)
      ]
