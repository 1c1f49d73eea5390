-- ===== src/Attempts/Witness.antt =====
-- The theorems about the attempt stream at concrete bytes and records.
use ai_bobnet.Attempts.Coherence.{fold_entries-AllCoherent, AllCoherent}
use ai_bobnet.Json.{null, has, pos, end, int, obj, str, field, Fields, is_str, as_obj, as_str, get}
use ai_bobnet.Attempts.Records.{
  timeout, exited, Attempt, Entry, Folded, Log, is_falsy, convertible, class_of, decision_of,
  scalar, ended, decided, fold_record, fold_entries,
}
use ai_bobnet.Base.{
  true, some, ok, err, false, List, Text, expect, raise_if, contains, insert, lookup, codes, refl,
  ◌≡◌, ◌++◌, length, text_eq, starts_with, decimal, [], ◌∷◌, ◌+◌,
}
use ai_bobnet.Attempts.Records.{identity}
use ai_bobnet.Attempts.Frames.{
  Outside, Bytes, scan, scan_lines, scan_frame, accept, check_ident, finish, split_lines,
  parse_frame, number_field, span_digits, number, last_part,
}
use ai_bobnet.Attempts.Settled.{fold_entries_settled}
use ai_bobnet.Attempts.Numbering.{Numbered, scan_ok-Numbered}

-- one checksum and one identifier for every body
abbrev constant : Outside
constant = record { cksum = λ bytes. 7; frame_event_id = λ bytes. codes "acme-1" }

abbrev one_frame : Bytes
one_frame = codes "1 7 2 {}" ++ 10 ∷ []

scan_ok-Numbered_example :
    Numbered 1 (scan constant one_frame).records
    × ((scan constant one_frame).highest ≡ length (scan constant one_frame).records)
    × ((scan constant one_frame).next ≡ length (scan constant one_frame).records + 1)
unfolding scan scan_lines scan_frame accept check_ident finish split_lines parse_frame number_field
    span_digits number last_part text_eq starts_with decimal
scan_ok-Numbered_example = scan_ok-Numbered constant one_frame refl

abbrev attempt_record : Text → Text → Fields → Entry
attempt_record ident kind payload = record {
  fields =
      field (codes "event_type") (str kind)
        (field (codes "attempt_id") (str ident) (field (codes "payload") (obj payload) end));
  is_undecodable = false;
}

-- an attempt that was allowed and timed out
abbrev timed_out : List Entry
timed_out =
    attempt_record (codes "a-1") (codes "attempt.decided")
      (field (codes "decision") (str (codes "allow")) (field (codes "pid") (int (pos 4321)) end))
    ∷ attempt_record (codes "a-1") (codes "attempt.ended") (
        field (codes "exit")
          (obj (
            field (codes "class") (str (codes "timeout"))
              (field (codes "code") (int (pos 124)) end)))
          end)
    ∷ []

abbrev empty_log : Log
empty_log = record { attempts = []; excluded = [] }

abbrev log_of : Folded Log → Log
log_of (ok log) = log
log_of (err e) = empty_log

empty-AllCoherent : AllCoherent empty_log
unfolding lookup
empty-AllCoherent = record { coherent = λ k a h. absurd (cc h); key = λ k a h. absurd (cc h) }

fold_entries-AllCoherent_example : AllCoherent (log_of (fold_entries false empty_log timed_out))
unfolding fold_entries fold_record identity decided ended scalar decision_of class_of convertible
    is_falsy get as_str as_obj is_str text_eq lookup insert contains raise_if expect decimal has
fold_entries-AllCoherent_example =
    fold_entries-AllCoherent false empty_log timed_out empty-AllCoherent refl

abbrev second : List Entry
second =
    attempt_record (codes "a-2") (codes "attempt.decided")
      (field (codes "decision") (str (codes "deny")) (field (codes "pid") (int (pos 4322)) end))
    ∷ []

abbrev first_log : Log
first_log = log_of (fold_entries false empty_log timed_out)

abbrev first_attempt : Attempt
first_attempt = record {
  ident = codes "a-1";
  agent = null;
  session = null;
  decided_at = null;
  is_allowed = true;
  pid = codes "4321";
  state = exited timeout;
  exit_code = some (codes "124");
  is_open = false;
  stage = null;
  ended_at = null;
}

fold_entries_settled_example :
    lookup (codes "a-1") (log_of (fold_entries false first_log second)).attempts
    ≡ some first_attempt
unfolding fold_entries fold_record identity decided ended scalar decision_of class_of convertible
    is_falsy get as_str as_obj is_str text_eq lookup insert contains raise_if expect decimal has
fold_entries_settled_example =
    fold_entries_settled false first_log second (codes "a-1") first_attempt refl refl refl
