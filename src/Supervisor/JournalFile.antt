-- ===== src/Supervisor/JournalFile.antt =====
-- `_load_records` of lib/aib_supervisor.py on the bytes of the journal, and the line that `journal`
-- appends to them. The decoding of UTF-8 with `splitlines`, and of JSON, are parameters.
use ai_bobnet.Control.Identity.{strip}
use ai_bobnet.Json.{pos, int, get, value_eq, as_obj, Value, Fields}
use ai_bobnet.Base.{
  ◌+◌, ◌&&◌, codes, true, not, length, Bool, some, ◌||◌, ◌++◌, ◌==◌, Text, Option, if◌then◌else◌, ℕ,
  List, [], ◌∷◌, none,
}

-- the bytes up to the last line feed, and the rest: all of the first where the file ends with one
unfoldable pub cut : List ℕ → List ℕ × List ℕ
cut [] = ([], [])
cut (c ∷ s) =
    let (complete, torn) = cut s in
    if c == 10 || not (length complete == 0) then (c ∷ complete, torn) else (complete, c ∷ torn)

-- a journal that is corrupt, or its records and the length of the torn line that is dropped
pub data Loaded : Type 0 where
  corrupt : Loaded
  loaded : (records : List Fields) → (dropped_bytes : ℕ) → Loaded

-- the numbers are n, n + 1, …
unfoldable pub is_numbered : ℕ → List Fields → Bool
is_numbered n [] = true
is_numbered n (r ∷ records) =
    value_eq (get (codes "seq") r) (int (pos n)) && is_numbered (n + 1) records

-- a record more, if there is one
abbrev pub with_record : Option Fields → Option (List Fields) → Option (List Fields)
with_record none rest = none
with_record (some r) none = none
with_record (some r) (some records) = some (r ∷ records)

module _ (text_lines : List ℕ → Option (List Text)) (loads : Text → Option Value) where
  -- the record of a line: none for one that is no JSON object
  unfoldable pub read_line : Text → Option Fields
  read_line line = elim (loads line) [ none ↦ none | some v ↦ as_obj v ]

  -- the lines that are not blank
  unfoldable pub read_lines : List Text → Option (List Fields)
  read_lines [] = some []
  read_lines (line ∷ lines) =
      let rest = read_lines lines in
      if length (strip line) == 0 then rest else with_record (read_line line) rest

  unfoldable pub settle_lines : ℕ → Option (List Fields) → Loaded
  settle_lines dropped_bytes none = corrupt
  settle_lines dropped_bytes (some records) =
      if is_numbered 1 records then loaded records dropped_bytes else corrupt

  unfoldable pub decode_lines : ℕ → Option (List Text) → Loaded
  decode_lines dropped_bytes none = corrupt
  decode_lines dropped_bytes (some lines) = settle_lines dropped_bytes (read_lines lines)

  -- a file that is corrupt is left alone, of another the torn line is cut off
  abbrev pub truncated : List ℕ → List ℕ → Loaded → Loaded × List ℕ
  truncated bytes complete corrupt = (corrupt, bytes)
  truncated bytes complete (loaded records n) = (loaded records n, complete)

  unfoldable pub load_parts : List ℕ → List ℕ × List ℕ → Loaded × List ℕ
  load_parts bytes (complete, torn) =
      truncated bytes complete (decode_lines (length torn) (text_lines complete))

  -- `_load_records`, and the bytes that are left in the file
  unfoldable pub load_records : List ℕ → Loaded × List ℕ
  load_records bytes = load_parts bytes (cut bytes)

-- the file after `journal`, which prints the record on one line
unfoldable pub append_line : List ℕ → Text → List ℕ
append_line bytes line = bytes ++ line ++ 10 ∷ []
