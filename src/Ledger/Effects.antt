-- ===== src/Ledger/Effects.antt =====
-- What one turn of the fold's loop does, in three cases, and the facts that the envelope leaves.
use ai_bobnet.Ledger.Tasks.{actor_id, actor_type}
use ai_bobnet.Ledger.Callers.{caller_matches}
use ai_bobnet.Base.{
  not-false, value_error, type_error, sym, raised, ap, refl, if◌then◌else◌, ◌∙◌, ◌++◌, starts_with,
  err, is_uid, arith, ok-injective, true, codes, ok, false, some, ◌≡◌, Text, Bool, Option, ℕ,
  expect-eq-ok, guard-eq-ok,
}
use ai_bobnet.Json.{str, get, Value, as_str, Fields}
use ai_bobnet.Ledger.Types.{
  run_requested, caller_actor_mismatch, task_rejected, is_run_id, Checked, EventType, Reason, Event,
  State,
}
use ai_bobnet.Ledger.Envelope.{shape, project_of, envelope_of, envelope_in, route, envelope}
use ai_bobnet.Ledger.Fold.{fold_checked, fold_event, dispatch, settle, apply_kind, reject, invalid}

-- An event that has come out of the record's envelope.
pub record IsRouted (seq : ℕ) (r : Fields) (e : Event) : Type 0 where
  pub seq_is : e.seq ≡ seq
  pub fields_are : e.fields ≡ r
  pub run_is : get (codes "run_id") r ≡ str e.run_id
  pub task_is : get (codes "task_id") r ≡ e.task_id
  pub run_id_fits : is_run_id e.run_id ≡ true
  pub team_fits : is_uid e.team_uid ≡ true
  pub team_in_project : starts_with (e.project ++ codes "-") e.team_uid ≡ true

abbrev pub with_stream : Option Text → State → State
with_stream stream s = record s { stream_project = stream }

-- The record is refused and noted as invalid, or it is a rejection, or its handler has run.
pub data Effect (s : State) (seq : ℕ) (r : Fields) (s' : State) : Type 0 where
  refused :
      (stream : Option Text) (reason : Reason)
      → invalid seq reason (with_stream stream s) ≡ s'
      → Effect s seq r s'
  recorded :
      (stream : Option Text) (e : Event)
      → IsRouted seq r e
      → reject (with_stream stream s) e ≡ s'
      → Effect s seq r s'
  applied :
      (stream : Option Text) (e : Event)
      → IsRouted seq r e
      → caller_matches (actor_type e) (actor_id e) e.payload ≡ true
      → apply_kind e.kind (with_stream stream s) e ≡ ok s'
      → Effect s seq r s'

as_str-eq-some : (v : Value) {t : Text} → as_str v ≡ some t → v ≡ str t
unfolding as_str
as_str-eq-some (str s) h = ground arith
as_str-eq-some _ h = cc

route-IsRouted :
    (stream project : Text) (seq : ℕ) (kind : EventType) (payload r : Fields) {e : Event}
    → route stream project seq kind payload r ≡ ok e
    → IsRouted seq r e
unfolding route
route-IsRouted stream project seq kind payload r h₀ =
    let (run_id, p, h₁) = expect-eq-ok _ _ _ h₀ in
    let (_, h₂) = guard-eq-ok _ _ _ h₁ in
    let (_, h₃) = guard-eq-ok _ _ _ h₂ in
    let (_, h₄) = guard-eq-ok _ _ _ h₃ in
    let (run_fits, h₅) = guard-eq-ok _ _ _ h₄ in
    let (_, _, h₆) = expect-eq-ok _ _ _ h₅ in
    let (_, h₇) = guard-eq-ok _ _ _ h₆ in
    let (_, _, h₈) = expect-eq-ok _ _ _ h₇ in
    let (starts, h₉) = guard-eq-ok _ _ _ h₈ in
    let (uid_fits, h₁₀) = guard-eq-ok _ _ _ h₉ in
    let (_, h₁₁) = guard-eq-ok _ _ _ h₁₀ in
    rw (← ok-injective h₁₁) (record {
      seq_is = refl;
      fields_are = refl;
      run_is = as_str-eq-some _ p;
      task_is = refl;
      run_id_fits = not-false _ run_fits;
      team_fits = not-false _ uid_fits;
      team_in_project = not-false _ starts;
    })

-- The two ways in which the envelope ends.
envelope-IsRouted :
    (stream : Option Text) (seq : ℕ) (r : Fields) {e : Event}
    → (envelope stream seq r).1 ≡ ok e
    → IsRouted seq r e
unfolding envelope
envelope-IsRouted stream seq r h = shape_cases (shape r) h
  where
    project_cases :
        (kind : EventType) (payload : Fields) (project : Checked Text) {e : Event}
        → (envelope_in stream seq r kind payload project).1 ≡ ok e
        → IsRouted seq r e
    project_cases kind payload (err x) q = cc
    project_cases kind payload (ok project) q = route-IsRouted _ project seq kind payload r q

    shape_cases :
        (found : Checked (EventType × Fields)) {e : Event}
        → (envelope_of stream seq r found).1 ≡ ok e
        → IsRouted seq r e
    shape_cases (err x) q = cc
    shape_cases (ok (kind, payload)) q = project_cases kind payload (project_of seq r) q

module _ (stream : Option Text) (s : State) (seq : ℕ) (r : Fields) (e : Event) {s' : State} where
  settle-Effect :
      IsRouted seq r e
      → caller_matches (actor_type e) (actor_id e) e.payload ≡ true
      → (result : Checked State) → apply_kind e.kind (with_stream stream s) e ≡ result
      → settle (with_stream stream s) e.seq result ≡ ok s'
      → Effect s seq r s'
  unfolding settle
  settle-Effect routed match (ok s₁) ran h = applied stream e routed match (ran ∙ h)
  settle-Effect routed match (err (raised reason)) ran h =
      refused stream reason (rw (← routed.seq_is) (ok-injective h))
  settle-Effect routed match (err type_error) ran h = cc
  settle-Effect routed match (err value_error) ran h = cc

  call-Effect :
      IsRouted seq r e
      → (kind : EventType) → kind ≡ e.kind
      → (match : Bool) → caller_matches (actor_type e) (actor_id e) e.payload ≡ match
      → (if match
          then settle (with_stream stream s) e.seq (apply_kind kind (with_stream stream s) e)
          else ok (invalid e.seq caller_actor_mismatch (with_stream stream s)))
        ≡ ok s'
      → Effect s seq r s'
  call-Effect routed kind same true match h =
      settle-Effect routed match (apply_kind kind (with_stream stream s) e)
        (ap (λ k. apply_kind k (with_stream stream s) e) (sym same)) h
  call-Effect routed kind same false match h =
      refused stream caller_actor_mismatch (rw (← routed.seq_is) (ok-injective h))

  dispatch-Effect :
      IsRouted seq r e
      → (kind : EventType) → kind ≡ e.kind
      → dispatch kind (with_stream stream s) e ≡ ok s'
      → Effect s seq r s'
  unfolding dispatch
  dispatch-Effect routed task_rejected same h = recorded stream e routed (ok-injective h)
  dispatch-Effect routed run_requested same h = call-Effect routed run_requested same _ refl h
  dispatch-Effect routed kind same h = call-Effect routed kind same _ refl h

-- One turn of the loop, where it ends without an exception, has one of the three effects.
pub fold_event-Effect :
    (s : State) (seq : ℕ) (r : Fields) {s' : State} → fold_event s seq r ≡ ok s' → Effect s seq r s'
unfolding fold_event
fold_event-Effect s seq r {s'} h = go (envelope s.stream_project seq r) refl h
  where
    go :
        (found : Option Text × Checked Event)
        → envelope s.stream_project seq r ≡ found
        → fold_checked s seq found ≡ ok s'
        → Effect s seq r s'
    go (stream, ok e) q h' =
        dispatch-Effect stream s seq r e
          (envelope-IsRouted s.stream_project seq r
            (ap (λ (p : Option Text × Checked Event). p.1) q))
          e.kind refl h'
    go (stream, err (raised reason)) q h' = refused stream reason (unfold settle in ok-injective h')
    go (stream, err type_error) q h' = unfold settle in cc h'
    go (stream, err value_error) q h' = unfold settle in cc h'
