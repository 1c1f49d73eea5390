-- ===== src/Supervisor/JournalWitness.antt =====
-- The theorem about the journal's file at a concrete journal.
use ai_bobnet.Supervisor.FailedWrite.{write_journal-corrupt}
use ai_bobnet.Supervisor.Witness.{setting, lost_once}
use ai_bobnet.Control.Log.{numbered}
use ai_bobnet.Json.{end, obj, Value, Fields}
use ai_bobnet.Supervisor.Machine.{write_journal, Machine, journal}
use ai_bobnet.Control.Identity.{strip}
use ai_bobnet.Supervisor.Durable.{load_records-journal, AppendsLine, ends_line, is_plain}
use ai_bobnet.Supervisor.JournalFile.{
  corrupt, is_numbered, loaded, load_records, read_lines, append_line,
}
use mathlib.Core.Option.{some-injective}
use ai_bobnet.Base.{
  inr, inl, ◌∙◌, Bool-cases, Option, codes, ap, length, text_eq, none, some, arith, refl, false,
  ◌++◌, true, ◌≡◌, ◌==◌, if◌then◌else◌, Text, List, ℕ, [], ◌∷◌, none,
}

-- the lines of text that ends with a line feed
abbrev first_of : ℕ → List Text → List Text
first_of c [] = (c ∷ []) ∷ []
first_of c (part ∷ parts) = (c ∷ part) ∷ parts

abbrev next_lines : ℕ → List Text → List Text
next_lines c rest = if c == 10 then [] ∷ rest else first_of c rest

next_lines-append :
    (c : ℕ) (rest : List Text) (line : Text)
    → (length rest == 0) ≡ false
    → next_lines c (rest ++ line ∷ []) ≡ next_lines c rest ++ line ∷ []
next_lines-append c [] line some_rest = cc
next_lines-append c (part ∷ parts) line some_rest = elim (Bool-cases (c == 10)) [
  | inl feed ↦ rw feed refl
  | inr other ↦ rw other refl
]

length-next_lines : (c : ℕ) (rest : List Text) → (length (next_lines c rest) == 0) ≡ false
length-next_lines c [] = elim (Bool-cases (c == 10)) [
  | inl feed ↦ rw feed refl
  | inr other ↦ rw other refl
]
length-next_lines c (part ∷ parts) = elim (Bool-cases (c == 10)) [
  | inl feed ↦ rw feed (ground arith)
  | inr other ↦ rw other (ground arith)
]

abbrev plain_lines : List ℕ → List Text
plain_lines [] = []
plain_lines (c ∷ s) = next_lines c (plain_lines s)

one_line : (line : Text) → is_plain line ≡ true → plain_lines (line ++ 10 ∷ []) ≡ line ∷ []
one_line [] plain = refl
one_line (c ∷ line) plain =
    let first : (c == 10) ≡ false = ground arith in
    let rest : is_plain line ≡ true = ground arith in rw (one_line line rest, first) refl

plain_lines-append :
    (bytes : List ℕ) (line : Text)
    → ends_line bytes ≡ true
    → is_plain line ≡ true
    → plain_lines (append_line bytes line) ≡ plain_lines bytes ++ line ∷ []
unfolding append_line
plain_lines-append [] line ends plain = one_line line plain
plain_lines-append (c ∷ []) line ends plain = rw (one_line line plain, ends) refl
plain_lines-append (c ∷ d ∷ s) line ends plain =
    ap (next_lines c) (plain_lines-append (d ∷ s) line ends plain)
    ∙ next_lines-append c (plain_lines (d ∷ s)) line (length-next_lines d (plain_lines s))

-- the record, as it is printed
abbrev recorded : Fields
recorded = numbered 1 setting.utc (codes "duty.off") end

abbrev printed : Text
printed = codes "{\"seq\":1,\"ts\":\"2026-10-28T00:00:00Z\",\"event\":\"duty.off\"}"

-- `json.loads`, of that line
abbrev loads : Text → Option Value
loads line = if text_eq line printed then some (obj recorded) else none

abbrev empty : Machine
empty = record lost_once { records = []; journal_seq = 0 }

plain_lines-AppendsLine : AppendsLine (λ bytes. some (plain_lines bytes)) loads
plain_lines-AppendsLine bytes line lines ends plain h = ap some (
    plain_lines-append bytes line ends plain
    ∙ ap (λ rest. rest ++ line ∷ []) (some-injective (plain_lines bytes) lines h))

load_records-journal_example :
    load_records
      (λ bytes. some (plain_lines bytes))
      loads
      (append_line [] printed ++ codes "{\"seq")
    ≡ (loaded (recorded ∷ []) 5, append_line [] printed)
unfolding text_eq strip journal read_lines is_numbered
load_records-journal_example =
    load_records-journal (λ bytes. some (plain_lines bytes)) loads setting (codes "duty.off") end
      empty [] (codes "{\"seq") printed plain_lines-AppendsLine
      (record { ends = refl; lines = []; decoded = refl; are_read = refl; numbers = refl }) refl
      refl refl refl refl

-- the record behind one that was not written
abbrev second : Fields
second = numbered 2 setting.utc (codes "duty.on") end

abbrev printed_second : Text
printed_second = codes "{\"seq\":2,\"ts\":\"2026-10-28T00:00:00Z\",\"event\":\"duty.on\"}"

abbrev loads_second : Text → Option Value
loads_second line = if text_eq line printed_second then some (obj second) else none

write_journal-corrupt_example :
    load_records (λ bytes. some (plain_lines bytes)) loads_second (append_line [] printed_second)
    ≡ (corrupt, append_line [] printed_second)
unfolding text_eq strip write_journal read_lines is_numbered
write_journal-corrupt_example =
    write_journal-corrupt (λ bytes. some (plain_lines bytes)) loads_second setting
      (codes "duty.off") (codes "duty.on") end end empty [] printed_second plain_lines-AppendsLine
      (record { ends = refl; lines = []; decoded = refl; are_read = refl; numbers = refl }) refl
      refl refl refl
