-- ===== src/Control/Log.antt =====
-- The control log of lib/aib_control.py: `append_record`, `requested_record`, `terminal_record`.
use mathlib.Core.Option.{none}
use ai_bobnet.Json.{
  end, put, str, bool, get, has, negsuc, int, value_eq, is_str, field, pos, ℤ, Value, Fields,
}
use ai_bobnet.Base.{
  ◌++◌, ◌||◌, ◌+◌, ◌&&◌, none, codes, max, some, if◌then◌else◌, Bool, Text, Option, ℕ, List, [],
  ◌∷◌,
}

-- a line of the log that is not blank
pub data Line : Type 0 where
  entry : Fields → Line
  not_object undecodable : Line

-- How the file ends: in a line feed, or empty, or in white space that JSON skips; in a line that is not blank and
-- has no line feed; or in a blank line without one whose white space JSON does not skip.
pub data Ending : Type 0 where
  ended torn torn_blank : Ending

-- the file: its lines that are not blank, and its end
pub record Log : Type 0 where
  pub lines : List Line
  pub ending : Ending

-- `int(value)`: of an integer itself; of a Boolean 0 or 1; of any other value as the parameter says
unfoldable pub int_of : (Value → Option ℤ) → Value → Option ℤ
int_of coerced (int n) = some n
int_of coerced (bool b) = some (pos (if b then 1 else 0))
int_of coerced v = coerced v

abbrev pub natural : ℤ → ℕ
natural (pos n) = n
natural (negsuc n) = 0

-- `max(sequence, int(record["seq"]))`
abbrev pub raise_to : ℕ → Option ℤ → Option ℕ
raise_to sequence none = none
raise_to sequence (some n) = some (max sequence (natural n))

-- the number after one more record
unfoldable pub next_highest : (Value → Option ℤ) → ℕ → Fields → Option ℕ
unfolding int_of
next_highest coerced sequence r =
    if has (codes "seq") r then raise_to sequence (int_of coerced (get (codes "seq") r)) else none

-- the greatest number, at least `sequence`; none where a line raises
unfoldable pub highest : (Value → Option ℤ) → ℕ → List Line → Option ℕ
highest coerced sequence [] = some sequence
highest coerced sequence (entry r ∷ lines) = elim (next_highest coerced sequence r) [
  | none ↦ none
  | some n ↦ highest coerced n lines
]
highest coerced sequence (not_object ∷ lines) = none
highest coerced sequence (undecodable ∷ lines) = none

-- the record that the supervisor's `journal` writes, whose fields have none of these keys
abbrev pub numbered : ℕ → Text → Text → Fields → Fields
numbered sequence ts event fields =
    field (codes "seq") (int (pos sequence))
      (field (codes "ts") (str ts) (field (codes "event") (str event) fields))

-- `{**base, **fields}`: a later value of a key takes the place of the earlier one
unfoldable pub overlaid : Fields → Fields → Fields
overlaid base end = base
overlaid base (field k v fields) = overlaid (put k v base) fields

-- `{"seq": …, "ts": …, "event": …, **fields}`
abbrev pub record_of : ℕ → Text → Text → Fields → Fields
record_of sequence ts event fields = overlaid (numbered sequence ts event end) fields

-- what is written goes on in a last line without a line feed, which holds two objects then
unfoldable pub spoil_last : List Line → List Line
spoil_last [] = undecodable ∷ []
spoil_last (line ∷ []) = undecodable ∷ []
spoil_last (line ∷ next ∷ lines) = line ∷ spoil_last (next ∷ lines)

-- one line is written behind what the file holds
unfoldable pub write_line : Log → Fields → Log
write_line log r = record {
  lines = elim log.ending [
    | ended ↦ log.lines ++ entry r ∷ []
    | torn ↦ spoil_last log.lines
    | torn_blank ↦ log.lines ++ undecodable ∷ []
  ];
  ending = ended;
}

-- `append_record`: the log afterwards and the record; none where a line that is there raises
unfoldable pub append_record :
    (Value → Option ℤ) → Log → Text → Text → Fields → Option (Log × Fields)
append_record coerced log ts event fields = elim (highest coerced 0 log.lines) [
  | none ↦ none
  | some n ↦ let r = record_of (n + 1) ts event fields in some (write_line log r, r)
]

-- a record, none, or an exception that is not caught (a line that is not an object has no `get`)
pub data Found : Type 0 where
  found : Fields → Found
  missing : Found
  breaks : Found

unfoldable pub is_request : ℕ → Fields → Bool
is_request sequence r =
    is_str (get (codes "event") r) (codes "ctl.requested")
    && value_eq (get (codes "seq") r) (int (pos sequence))

unfoldable pub find_request : ℕ → List Line → Found
find_request sequence [] = missing
find_request sequence (entry r ∷ lines) =
    let rest = find_request sequence lines in if is_request sequence r then found r else rest
find_request sequence (not_object ∷ lines) = breaks
find_request sequence (undecodable ∷ lines) = missing

-- `requested_record`
abbrev pub requested_record : ℕ → Log → Found
requested_record sequence log = find_request sequence log.lines

unfoldable pub is_terminal_of : ℕ → Fields → Bool
is_terminal_of sequence r =
    value_eq (get (codes "req") r) (int (pos sequence))
    && (is_str (get (codes "event") r) (codes "ctl.done")
        || is_str (get (codes "event") r) (codes "ctl.rejected"))

-- the last such record, after the one so far
unfoldable pub find_terminal : ℕ → Found → List Line → Found
find_terminal sequence last [] = last
find_terminal sequence last (entry r ∷ lines) =
    find_terminal sequence (if is_terminal_of sequence r then found r else last) lines
find_terminal sequence last (not_object ∷ lines) = breaks
find_terminal sequence last (undecodable ∷ lines) = missing

-- `terminal_record`
abbrev pub terminal_record : ℕ → Log → Found
terminal_record sequence log = find_terminal sequence missing log.lines
