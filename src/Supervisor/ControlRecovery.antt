-- ===== src/Supervisor/ControlRecovery.antt =====
-- Control requests in lib/aib_supervisor.py keep the recovery.
use ai_bobnet.Control.Lookup.{record_of-seq}
use mathlib.Core.Bool.{false, true}
use ai_bobnet.Supervisor.Sound.{consumed-IsSound}
use ai_bobnet.Supervisor.JournalSteps.{accepted_step, rejected_step, consumed_step}
use ai_bobnet.Supervisor.Quiet.{
  Keeps-IsRecovered, journal-IsRecovered, Leaves-afterwards, advance, IsIgnored,
}
use ai_bobnet.Supervisor.Recovered.{Leaves, IsRecovered}
use ai_bobnet.Supervisor.Machine.{
  went, broke, control_values, Machine, Setting, accept_control, reject_control, consume_control,
  journal, control_event,
}
use ai_bobnet.Json.{has, pos, ℤ, Fields, Value, get}
use ai_bobnet.Supervisor.Memory.{as_int}
use mathlib.Core.Option.{some-injective}
use ai_bobnet.Control.Log.{
  ended, torn, torn_blank, write_line, record_of, Ending, spoil_last, find_request, is_request,
  highest, undecodable, not_object, found, entry, Line, append_record, Log,
}
use ai_bobnet.Base.{
  ap, ap, List, arith, refl, ◌+◌, if◌then◌else◌, Bool, some, codes, ◌≡◌, ◌++◌, Text, Option, All, ℕ,
  text_eq, [], ◌∷◌, none,
}

-- an entry of the control log has an int for its number, as `append_record` writes it
abbrev pub HasNumber : Line → Type 0
HasNumber (entry r) = (k : ℤ) × (as_int (get (codes "seq") r) ≡ some k)
HasNumber not_object = Unit
HasNumber undecodable = Unit

All-append :
    (log : List Line) (line : Line)
    → All HasNumber log
    → HasNumber line
    → All HasNumber (log ++ line ∷ [])
All-append [] line all one = (one, tt)
All-append (first ∷ log) line all one = (all.0, All-append log line all.1 one)

found-injective : {r r' : Fields} → found r ≡ found r' → r ≡ r'
found-injective same = ground arith

pub find_request-HasNumber :
    (n : ℕ) (log : List Line) {r : Fields}
    → All HasNumber log
    → find_request n log ≡ found r
    → (k : ℤ) × (as_int (get (codes "seq") r) ≡ some k)
unfolding find_request
find_request-HasNumber n [] all h = cc
find_request-HasNumber n (entry r' ∷ log) {r} all h =
    go (is_request n r') (find_request-HasNumber n log all.1) h
  where
    go :
        (b : Bool)
        → (find_request n log ≡ found r → (k : ℤ) × (as_int (get (codes "seq") r) ≡ some k))
        → (if b then found r' else find_request n log) ≡ found r
        → (k : ℤ) × (as_int (get (codes "seq") r) ≡ some k)
    go true later same = rw (← found-injective same) all.0
    go false later same = later same
find_request-HasNumber n (not_object ∷ log) all h = cc
find_request-HasNumber n (undecodable ∷ log) all h = cc

spoil_last-HasNumber : (lines : List Line) → All HasNumber lines → All HasNumber (spoil_last lines)
unfolding spoil_last
spoil_last-HasNumber [] all = (tt, tt)
spoil_last-HasNumber (line ∷ []) all = (tt, tt)
spoil_last-HasNumber (line ∷ next ∷ lines) all = (all.0, spoil_last-HasNumber (next ∷ lines) all.1)

write_line-HasNumber :
    (log : Log) (r : Fields)
    → HasNumber (entry r)
    → All HasNumber log.lines
    → All HasNumber (write_line log r).lines
unfolding write_line
write_line-HasNumber log r one all = go log.ending
  where
    go :
        (e : Ending)
        → All HasNumber (elim e [
          | ended ↦ log.lines ++ entry r ∷ []
          | torn ↦ spoil_last log.lines
          | torn_blank ↦ log.lines ++ undecodable ∷ []
        ])
    go ended = All-append log.lines (entry r) all one
    go torn = spoil_last-HasNumber log.lines all
    go torn_blank = All-append log.lines undecodable all tt

append_record-HasNumber :
    (coerced : Value → Option ℤ) (log : Log) (ts event : Text) (fields : Fields)
    {done : Log × Fields}
    → append_record coerced log ts event fields ≡ some done
    → has (codes "seq") fields ≡ false
    → All HasNumber log.lines
    → All HasNumber done.0.lines
unfolding append_record as_int
append_record-HasNumber coerced log ts event fields {done} h no_seq all =
    go (highest coerced 0 log.lines) h
  where
    written : ℕ → Fields
    written n = record_of (n + 1) ts event fields

    number : (n : ℕ) → as_int (get (codes "seq") (written n)) ≡ some (pos (n + 1))
    number n = ap as_int (record_of-seq (n + 1) ts event fields no_seq)

    go :
        (o : Option ℕ)
        → ◌≡◌ {A = Option (Log × Fields)}
            (elim o [ none ↦ none | some n ↦ some (write_line log (written n), written n) ])
            (some done)
        → All HasNumber done.0.lines
    go none q = cc
    go (some n) q =
        rw (← some-injective (write_line log (written n), written n) done q)
          (write_line-HasNumber log (written n) (pos (n + 1), number n) all)

module _ (s : Setting) where
  -- recovered, with a numbered control log
  abbrev pub IsOrderly : Machine → Type 0
  IsOrderly m = IsRecovered s m × All HasNumber m.control_log.lines

  control_event-IsOrderly :
      (event : Text) (request extra : Fields)
      → IsIgnored s event
      → has (codes "seq") extra ≡ false
      → (m : Machine) → IsOrderly m
      → Leaves s IsOrderly (control_event s event request extra m)
  unfolding control_event journal has text_eq
  control_event-IsOrderly event request extra ignored no_seq m ok =
      go (append_record s.coerced m.control_log s.utc event values) refl
    where
      values : Fields
      values = control_values s request extra

      told_ok : IsRecovered s (journal s event values m)
      told_ok =
          journal-IsRecovered s event values m m.core m.core ok.0.replays
            (ignored (m.journal_seq + 1) values m.core) refl ok.0.sound

      go :
          (done : Option (Log × Fields))
          → append_record s.coerced m.control_log s.utc event values ≡ done
          → Leaves s IsOrderly (elim done [
            | none ↦ broke (journal s event values m)
            | some done ↦ went (record (journal s event values m) { control_log = done.0 })
          ])
      go none p = (told_ok, ok.1)
      go (some done) p = (
        Keeps-IsRecovered s (journal s event values m) _ (refl, λ c replays. replays) told_ok,
        append_record-HasNumber s.coerced m.control_log s.utc event values p no_seq ok.1,
      )

  consume_control-IsOrderly :
      (r : Fields) (k : ℤ) (m : Machine)
      → as_int (get (codes "seq") r) ≡ some k
      → IsOrderly m
      → IsOrderly (consume_control s r m)
  unfolding consume_control journal
  consume_control-IsOrderly r k m numbered_r ok = (
    record {
      replays =
          advance s (codes "ctl.consumed") _ m ok.0.replays
            (consumed_step s (m.journal_seq + 1) (get (codes "seq") r) k m.core numbered_r);
      sound = consumed-IsSound s m.core ok.0.sound (get (codes "seq") r);
    },
    ok.1,
  )

  pub reject_control-IsOrderly :
      (r : Fields) (reason caller : Text) (k : ℤ) (m : Machine)
      → as_int (get (codes "seq") r) ≡ some k
      → IsOrderly m
      → Leaves s IsOrderly (reject_control s r reason caller m)
  unfolding reject_control has text_eq
  reject_control-IsOrderly r reason caller k m numbered_r ok =
      Leaves-afterwards s IsOrderly IsOrderly _ _
        (control_event-IsOrderly (codes "ctl.rejected") r _ (rejected_step s) refl m ok)
        (λ m' ok. ok) (λ m' ok. consume_control-IsOrderly r k m' numbered_r ok)

  pub accept_control-IsOrderly :
      (r : Fields) (k : ℤ) (m : Machine)
      → as_int (get (codes "seq") r) ≡ some k
      → IsOrderly m
      → Leaves s IsOrderly (accept_control s r m)
  unfolding accept_control has text_eq
  accept_control-IsOrderly r k m numbered_r ok =
      Leaves-afterwards s IsOrderly IsOrderly _ _
        (control_event-IsOrderly (codes "ctl.accepted") r _ (accepted_step s) refl m ok)
        (λ m' ok. ok) (λ m' ok. consume_control-IsOrderly r k m' numbered_r ok)
