-- ===== src/Cli/Witness.antt =====
-- The theorems about the command line at a concrete stream and request.
use Prim.Native.Nat.{zero, suc}
use ai_bobnet.Ledger.Decide.{decide_run_request}
use ai_bobnet.Ledger.Requests.{Decision}
use ai_bobnet.Ledger.Types.{accepted, run_requested}
use ai_bobnet.Cli.Payload.{optional, read_body_file, Files}
use ai_bobnet.Cli.Body.{read_body_file-bounded}
use ai_bobnet.Attempts.Frames.{ScanError}
use ai_bobnet.Cli.Again.{locked-DecidedOnce}
use ai_bobnet.Cli.Arguments.{Accepted}
use ai_bobnet.Cli.Once.{DecidedOnce, Appends}
use ai_bobnet.Ledger.Reading.{Rows}
use ai_bobnet.Cli.Replay.{Submission, task_matches, same_request, replay_of, causation_replay}
use ai_bobnet.Ledger.Registry.{validate_registry_scope}
use ai_bobnet.Cli.Run.{
  decided, lock_timeout, appended, Append, Commit, Envelope, Outcome, System, nonempty,
  envelope_lines, commit, answer, locked,
}
use ai_bobnet.Ledger.Fixture.{judged, executed}
use ai_bobnet.Json.{null, end, obj, str, pos, int, field, Fields, value_eq, has, get}
use ai_bobnet.Base.{
  ok, lookup, refl, decimal, List, ◌+◌, ◌++◌, arith, Option, ◌≡◌, some, err, none, false, Text, ok,
  Result, codes, true, ℕ, text_eq, [], ◌∷◌,
}

abbrev registry : Fields
registry = field (codes "schema_version") (int (pos 5)) (
    field (codes "projects") (obj (field (codes "acme") (obj end) end)) (
      field (codes "teams")
        (obj (
          field (codes "acme-engine") (obj (field (codes "project") (str (codes "acme")) end)) end))
        (field (codes "agents")
          (obj (
            field (codes "acme-lead")
              (obj (
                field (codes "team_uid") (str (codes "acme-engine"))
                  (field (codes "lead") (str (codes "true")) end)))
              end))
          end)))

-- the record that is appended, with the next number
abbrev new_fields : ℕ → Envelope → Text → Fields → Fields
new_fields seq envelope kind payload =
    field (codes "event_id") (str (codes "acme-tasks-" ++ decimal seq)) (
      field (codes "event_type") (str kind) (
        field (codes "payload") (obj payload) (
          field (codes "task_id") (optional (lookup (codes "task_id") envelope)) (
            field (codes "causation_id") (optional (lookup (codes "causation_id") envelope)) (
              field (codes "run_id") (optional (lookup (codes "run_id") envelope)) (
                field (codes "correlation_id") (optional (lookup (codes "run_id") envelope)) (
                  field (codes "team_uid") (optional (lookup (codes "team_uid") envelope)) (
                    field (codes "project_uid") (optional (lookup (codes "project_uid") envelope)) (
                      field (codes "actor_type") (optional (lookup (codes "actor_type") envelope)) (
                        field (codes "actor_id") (optional (lookup (codes "actor_id") envelope))
                          end))))))))))

abbrev append_to : Rows → Envelope → Text → Fields → Append
append_to rows envelope kind payload = appended (record {
  event_id = codes "acme-tasks-" ++ decimal (rows.highest + 1);
  rows = record rows {
    highest = rows.highest + 1;
    events =
        rows.events ++ (rows.highest + 1, new_fields (rows.highest + 1) envelope kind payload) ∷ [];
  };
})

abbrev system : System
system = record {
  is_root = true;
  test_seam = false;
  identity = codes "root:root";
  identity_command = none;
  files = record { digest = λ s. codes "aaaaaaaaaaaaaaaa"; body_file = λ path. some ([], λ n. 0) };
  registry = registry;
  text_of = λ v. codes "value";
  world = record {
    unicode_digit = λ c. none;
    store_body = λ ident body. true;
    deadline_after = λ n. codes "2026-10-28T00:00:00Z";
  };
  lock_acquired = true;
  append = append_to;
}

system-Appends : Appends system
unfolding get has text_eq
system-Appends rows envelope kind payload c h =
    let after = appended_rows h in
    rw (← after) (record {
      seq = rows.highest + 1;
      fields = new_fields (rows.highest + 1) envelope kind payload;
      events_are = refl;
      kind_is = refl;
      payload_is = refl;
      task_is = refl;
      causation_is = refl;
    })
  where
    appended_rows : {c c' : Commit} → Append.appended c ≡ appended c' → c ≡ c'
    appended_rows p = ground arith

abbrev no_rows : Rows
no_rows = record { stream_status = codes "ok"; highest = 0; events = []; invalid_records = [] }

abbrev run_request : Submission
run_request = record {
  project_uid = codes "acme";
  request = record {
    event_type = run_requested;
    payload = field (codes "ticket_ref") null (
        field (codes "caller") (str (codes "root:root")) (
          field (codes "via") (str (codes "ctl:1"))
            (field (codes "requester") (str (codes "human:operator")) end)));
    actor_type = codes "human";
    actor_id = codes "operator";
    caller = codes "root:root";
    team_uid = codes "acme-engine";
    run_id = codes "r-aaaaaaaaaaaa";
    task_id = none;
    causation_id = codes "cli-1";
    expected_task_seq = none;
  };
}

-- `locked` with all that it calls, to run it.
unfoldable done_locked :
    System → Result ScanError Rows → Submission → Option (List ℕ) → Accepted (Outcome × Rows)
unfolding executed judged locked answer commit envelope_lines nonempty validate_registry_scope
    causation_replay replay_of same_request task_matches value_eq decide_run_request
done_locked = locked

abbrev result : Accepted (Outcome × Rows) → Outcome × Rows
result (ok done) = done
result (err _) = (lock_timeout, no_rows)

abbrev answered : Outcome × Rows
answered = result (locked system (ok no_rows) run_request none)

abbrev decision_in : Outcome → Decision
decision_in (decided printed d) = d
decision_in _ = record {
  kind = run_requested;
  payload = end;
  is_accepted = false;
  reason = accepted;
}

locked-DecidedOnce_example : DecidedOnce answered.1
unfolding done_locked
locked-DecidedOnce_example =
    locked-DecidedOnce system no_rows run_request none system-Appends refl
      (λ causation. omega arith) answered refl

-- a file of three bytes that come in two reads
abbrev short_reads : ℕ → ℕ
short_reads zero = 1
short_reads (suc n) = 0

abbrev two_reads : Files
two_reads = record { digest = λ s. []; body_file = λ path. some (1 ∷ 2 ∷ 3 ∷ [], short_reads) }

read_body_file-bounded_example : read_body_file two_reads (codes "body.md") ≡ ok (1 ∷ 2 ∷ 3 ∷ [])
read_body_file-bounded_example =
    read_body_file-bounded two_reads (codes "body.md") (1 ∷ 2 ∷ 3 ∷ []) short_reads refl
