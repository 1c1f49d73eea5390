-- ===== src/Cli/Locked.antt =====
-- What the locked part of `main` of lib/task_cli.py has done when it returns.
use ai_bobnet.Ledger.Decide.{decide}
use ai_bobnet.Ledger.Registry.{validate_registry_scope}
use ai_bobnet.Ledger.Requests.{Decision}
use ai_bobnet.Ledger.Fold.{fold, Ledger}
use ai_bobnet.Cli.Replay.{causation_replay, Replay, Submission}
use ai_bobnet.Attempts.Frames.{ScanError}
use ai_bobnet.Ledger.Reading.{Rows}
use ai_bobnet.Base.{
  refl, ok-injective, none, some, value_error, type_error, >>=-eq-ok, raised, err, ℕ, arith, List,
  ok, Option, ◌≡◌, Result,
}
use ai_bobnet.Ledger.Types.{event_name, Checked}
use ai_bobnet.Cli.Run.{
  commit_died, printed_id, died, decided, settle_commit, appended, envelope_lines, Commit,
  replay_outcome, Append, Outcome, lift_scan, lift, System, locked, commit, answer,
}

-- The three ways: a replay, a decision that is committed, and a commit that died.
pub data Answered (sys : System) (rows : Rows) (sub : Submission) (body : Option (List ℕ))
    (current : Ledger) (out : Outcome) (after : Rows) : Type 0 where
  replays :
      (r : Replay)
      → causation_replay sys.text_of sub.request rows.events ≡ some r
      → out ≡ replay_outcome r
      → after ≡ rows
      → Answered sys rows sub body current out after
  commits :
      (d : Decision) (c : Commit)
      → causation_replay sys.text_of sub.request rows.events ≡ none
      → decide sys.world sub.request current sys.registry body ≡ ok d
      → sys.append rows (envelope_lines sub) (event_name d.kind) d.payload ≡ appended c
      → out ≡ decided (printed_id sub.request.task_id c.event_id) d
      → after ≡ c.rows
      → Answered sys rows sub body current out after
  dies :
      (status : ℕ)
      → out ≡ commit_died status
      → after ≡ rows
      → Answered sys rows sub body current out after

lift-eq-ok : {A : Type 0} (m : Checked A) {a : A} → lift m ≡ ok a → m ≡ ok a
lift-eq-ok (ok a) h = ground arith
lift-eq-ok (err (raised reason)) h = cc
lift-eq-ok (err type_error) h = cc
lift-eq-ok (err value_error) h = cc

lift_scan-eq-ok : {A : Type 0} (m : Result ScanError A) {a : A} → lift_scan m ≡ ok a → m ≡ ok a
lift_scan-eq-ok (ok a) h = ground arith
lift_scan-eq-ok (err (raised reason)) h = cc
lift_scan-eq-ok (err type_error) h = cc
lift_scan-eq-ok (err value_error) h = cc

module _ (sys : System) (rows : Rows) (sub : Submission) (body : Option (List ℕ))
    (current : Ledger) where
  settle_commit-Answered :
      (d : Decision) (r : Append) {done : Outcome × Rows}
      → causation_replay sys.text_of sub.request rows.events ≡ none
      → decide sys.world sub.request current sys.registry body ≡ ok d
      → sys.append rows (envelope_lines sub) (event_name d.kind) d.payload ≡ r
      → settle_commit rows sub d r ≡ done
      → Answered sys rows sub body current done.0 done.1
  settle_commit-Answered d (appended c) fresh made written h =
      rw (← h) (commits d c fresh made written refl refl)
  settle_commit-Answered d (died status) fresh made written h = rw (← h) (dies status refl refl)

  answer-Answered :
      (replay : Option Replay) {done : Outcome × Rows}
      → causation_replay sys.text_of sub.request rows.events ≡ replay
      → answer sys rows sub body current replay ≡ ok done
      → Answered sys rows sub body current done.0 done.1
  unfolding answer commit
  answer-Answered (some r) {done} same h = rw (← ok-injective h) (replays r same refl refl)
  answer-Answered none {done} same h =
      let (d, made, p) =
        >>=-eq-ok (lift (decide sys.world sub.request current sys.registry body)) _ h in
      settle_commit-Answered d _ same (lift-eq-ok _ made) refl (ok-injective p)

-- All that has gone well before.
pub record IsLocked (sys : System) (stream : Result ScanError Rows) (sub : Submission)
    (body : Option (List ℕ)) (out : Outcome) (after : Rows) : Type 0 where
  pub rows : Rows
  pub current : Ledger
  pub stream_is : stream ≡ ok rows
  pub scope_is : validate_registry_scope sys.registry sub.project_uid sub.request.team_uid ≡ ok tt
  pub folded : fold rows.stream_status rows.highest rows.events rows.invalid_records ≡ ok current
  pub answered : Answered sys rows sub body current out after

pub locked-IsLocked :
    (sys : System) (stream : Result ScanError Rows) (sub : Submission) (body : Option (List ℕ))
    {done : Outcome × Rows}
    → locked sys stream sub body ≡ ok done
    → IsLocked sys stream sub body done.0 done.1
unfolding locked
locked-IsLocked sys stream sub body h =
    let (_, scope_is, p) =
      >>=-eq-ok (lift (validate_registry_scope sys.registry sub.project_uid sub.request.team_uid)) _
        h in
    let (rows, stream_is, q) = >>=-eq-ok (lift_scan stream) _ p in
    let (current, folded, r) =
      >>=-eq-ok (lift (fold rows.stream_status rows.highest rows.events rows.invalid_records)) _
        q in
    record {
      rows = rows;
      current = current;
      stream_is = lift_scan-eq-ok _ stream_is;
      scope_is = lift-eq-ok _ scope_is;
      folded = lift-eq-ok _ folded;
      answered = answer-Answered sys rows sub body current _ refl r;
    }
