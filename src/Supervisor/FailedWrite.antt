-- ===== src/Supervisor/FailedWrite.antt =====
-- What a failed write of the journal leaves, in `journal` and `_load_records` of lib/aib_supervisor.py.
use ai_bobnet.Control.Identity.{strip}
use ai_bobnet.Control.Log.{numbered}
use ai_bobnet.Supervisor.Durable.{
  read_lines-append, cut-append, ends_line-append, ends_line, is_plain, IsDurable, AppendsLine,
}
use ai_bobnet.Json.{obj, pos, Value, int, Fields, value_eq, get, as_obj}
use ai_bobnet.Supervisor.Machine.{Setting, broke, went, Machine, Ran, write_journal}
use ai_bobnet.Supervisor.JournalFile.{
  cut, corrupt, settle_lines, decode_lines, load_parts, load_records, read_line, append_line,
  is_numbered,
}
use mathlib.Core.Path.{subst}
use ai_bobnet.Base.{
  ◌==◌, true, suc, arith, some, false, length, ◌+◌, refl, ap, Text, codes, ◌≡◌, Option, ◌++◌, ℕ,
  List, text_eq, [], ◌∷◌,
}

abbrev pub left_by : Ran → Machine
left_by (went m) = m
left_by (broke m) = m

append_nil : (s : List ℕ) → s ++ [] ≡ s
append_nil [] = refl
append_nil (c ∷ s) = ap (λ r. c ∷ r) (append_nil s)

is_numbered-gap :
    (n : ℕ) (records : List Fields) (r : Fields)
    → value_eq (get (codes "seq") r) (int (pos (n + length records))) ≡ false
    → is_numbered n (records ++ r ∷ []) ≡ false
unfolding is_numbered
is_numbered-gap n [] r next =
    let same : n + 0 ≡ n = omega arith in
    let here : value_eq (get (codes "seq") r) (int (pos n)) ≡ false = cc in ground arith
is_numbered-gap n (q ∷ records) r next =
    let same : n + suc (length records) ≡ n + 1 + length records = omega arith in
    let there : value_eq (get (codes "seq") r) (int (pos (n + 1 + length records))) ≡ false = cc in
    let later = is_numbered-gap (n + 1) records r there in ground arith

module _ (text_lines : List ℕ → Option (List Text)) (loads : Text → Option Value) where
  -- Let the journal's file hold a supervisor's records, let `journal` then raise because its write fails, and let the
  -- next write print its record on a line. Then a start finds the journal corrupt and leaves the file as it is: the
  -- number of the record that was not written is missing. Where a printable line more is one more to decode, and the
  -- printed record is read back as itself.
  pub write_journal-corrupt :
      (s : Setting) (event event' : Text) (fields fields' : Fields) (m : Machine) (bytes : List ℕ)
      (line : Text)
      → AppendsLine text_lines loads
      → IsDurable text_lines loads m.records bytes
      → m.journal_seq ≡ length m.records
      → loads line
        ≡ some (
            obj (
              numbered
                ((left_by (write_journal false s event fields m)).journal_seq + 1)
                s.utc
                event'
                fields'))
      → is_plain line ≡ true
      → (length (strip line) == 0) ≡ false
      → load_records text_lines loads (append_line bytes line) ≡ (corrupt, append_line bytes line)
  unfolding write_journal append_line read_line as_obj get text_eq value_eq load_records load_parts
      decode_lines settle_lines
  write_journal-corrupt s event event' fields fields' m bytes line appends ok seq prints plain
        shown =
      rw
        (
          cut_whole,
          appends bytes line ok.lines ok.ends plain ok.decoded,
          read_lines-append text_lines loads ok.lines line m.records r ok.are_read shown read_r,
          is_numbered-gap 1 m.records r number_r,
        )
        refl
    where
      r : Fields
      r = numbered (m.journal_seq + 1 + 1) s.utc event' fields'

      whole_line : ends_line (append_line bytes line) ≡ true
      whole_line = ends_line-append (bytes ++ line)

      cut_whole : cut (append_line bytes line) ≡ (append_line bytes line, [])
      cut_whole =
          subst (λ b. cut b ≡ (append_line bytes line, [])) (append_nil (append_line bytes line))
            (cut-append (append_line bytes line) [] whole_line refl)

      read_r : read_line text_lines loads line ≡ some r
      read_r = cc

      number_r : value_eq (get (codes "seq") r) (int (pos (1 + length m.records))) ≡ false
      number_r = rw seq (ground arith)
