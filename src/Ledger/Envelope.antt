-- ===== src/Ledger/Envelope.antt =====
-- The envelope checks at the head of the loop of `fold` in lib/task_ledger.py.
use ai_bobnet.Base.{
  ℕ, Text, codes, text_eq, starts_with, is_token, is_uid, decimal, Bool, true, false, not, ◌&&◌,
  ◌||◌, Option, none, some, ◌++◌, if◌then◌else◌, ok, err, raise_if, expect, ◌>>=◌, ◌>>◌,
}
use ai_bobnet.Json.{Value, Fields, str, get, is_str, is_null, as_str, as_obj}
use ai_bobnet.Ledger.Types.{
  EventType, task_rejected, event_type, is_task_kind, is_run_id, is_task_id, Event, Checked,
  invalid_shape, invalid_envelope_identity,
}

abbrev pub is_rejected : EventType → Bool
is_rejected task_rejected = true
is_rejected _ = false

abbrev is_task_ident : Value → Bool
is_task_ident (str s) = is_task_id s
is_task_ident _ = false

-- the two tests on `task_id`, by kind
unfoldable pub task_id_fits : EventType → Value → Bool
task_id_fits kind ident =
    if is_task_kind kind && not (is_rejected kind)
    then is_task_ident ident
    else not (is_rejected kind) || (is_null ident || is_task_ident ident)

-- the kind and the payload of a record of the right shape
unfoldable pub shape : Fields → Checked (EventType × Fields)
shape r = do
  name ← expect (as_str (get (codes "event_type") r)) invalid_shape
  kind ← expect (event_type name) invalid_shape
  payload ← expect (as_obj (get (codes "payload") r)) invalid_shape
  ok (kind, payload)

-- the project of a record whose event id names it and its sequence number
unfoldable pub project_of : ℕ → Fields → Checked Text
project_of seq r = do
  project ← expect (as_str (get (codes "project_uid") r)) invalid_envelope_identity
  raise_if (not (is_token project)) invalid_envelope_identity
  raise_if (not (is_str (get (codes "event_id") r) (project ++ codes "-tasks-" ++ decimal seq)))
      invalid_envelope_identity
  ok project

-- the tests that follow once the stream's project is fixed
unfoldable pub route : Text → Text → ℕ → EventType → Fields → Fields → Checked Event
route stream project seq kind payload r = do
  run_id ← expect (as_str (get (codes "run_id") r)) invalid_envelope_identity
  raise_if (not (text_eq project stream)) invalid_envelope_identity
  raise_if (not (is_null (get (codes "attempt_id") r))) invalid_envelope_identity
  raise_if (not (is_str (get (codes "correlation_id") r) run_id)) invalid_envelope_identity
  raise_if (not (is_run_id run_id)) invalid_envelope_identity
  causation ← expect (as_str (get (codes "causation_id") r)) invalid_envelope_identity
  raise_if (not (is_token causation)) invalid_envelope_identity
  team ← expect (as_str (get (codes "team_uid") r)) invalid_envelope_identity
  raise_if (not (starts_with (project ++ codes "-") team)) invalid_envelope_identity
  raise_if (not (is_uid team)) invalid_envelope_identity
  raise_if (not (task_id_fits kind (get (codes "task_id") r))) invalid_envelope_identity
  ok (record {
    seq = seq;
    kind = kind;
    project = project;
    run_id = run_id;
    task_id = get (codes "task_id") r;
    team_uid = team;
    fields = r;
    payload = payload;
  })

abbrev or_project : Option Text → Text → Text
or_project none project = project
or_project (some stream) project = stream

-- The checks in turn: the stream's project from here on, and the event or what is wrong. A record
-- of the wrong shape, or of no project, does not fix the stream's project.
unfoldable pub envelope_in :
    Option Text → ℕ → Fields → EventType → Fields → Checked Text → Option Text × Checked Event
envelope_in stream seq r kind payload (err e) = (stream, err e)
envelope_in stream seq r kind payload (ok project) =
    let current = or_project stream project in
    (some current, route current project seq kind payload r)

unfoldable pub envelope_of :
    Option Text → ℕ → Fields → Checked (EventType × Fields) → Option Text × Checked Event
envelope_of stream seq r (err e) = (stream, err e)
envelope_of stream seq r (ok (kind, payload)) =
    envelope_in stream seq r kind payload (project_of seq r)

unfoldable pub envelope : Option Text → ℕ → Fields → Option Text × Checked Event
unfolding envelope_in envelope_of
envelope stream seq r = envelope_of stream seq r (shape r)
