-- ===== src/Attempts/Frames.antt =====
-- `scan` of lib/attempts_fold.py over the bytes of a stream that is there and can be read.
-- A frame is a line `seq crc length body`.
use ai_bobnet.Base.{
  ltb, leb, ◌&&◌, decimal, false, starts_with, text_eq, ◌++◌, some, not, ◌==◌, is_digit, Bool, map,
  none, select, List, if◌then◌else◌, codes, Option, ℕ, Text, [], ◌∷◌, length, ◌+◌, ◌*◌, ◌-◌,
}

-- a list of bytes
abbrev pub Bytes : Type 0
Bytes = Text

-- Code outside the repository's Python: the CRC of POSIX `cksum` (zlib and the length suffix), and
-- the `event_id` of a body, which the JSON decoder or the shell's accessor reads.
pub record Outside : Type 0 where
  pub cksum : Bytes → ℕ
  pub frame_event_id : Bytes → Text

pub data Status : Type 0 where
  ok degraded corrupt : Status

pub data ScanError : Type 0 where
  unparsable : ℕ → ScanError
  conversion_limit : ScanError
  not_an_object len_mismatch crc_mismatch : Text → ScanError
  non_monotonic : Text → Text → ScanError
  event_id_mismatch : Text → Text → ScanError

-- the variables of the loop and of `out`
pub record Scan : Type 0 where
  pub status : Status
  pub highest : ℕ
  pub highest_text : Text
  pub previous : ℕ
  pub offset : ℕ
  pub records : List (Text × Bytes)

-- what `scan` returns: `reason` and `next` as the source sets them at the end
pub record Scanned : Type 0 where
  pub status : Status
  pub reason : Option ScanError
  pub highest : ℕ
  pub highest_text : Text
  pub next : ℕ
  pub torn : Bool
  pub truncate_at : ℕ
  pub records : List (Text × Bytes)

abbrev pub start : Scan
start = record {
  status = Status.ok;
  highest = 0;
  highest_text = codes "0";
  previous = 0;
  offset = 0;
  records = [];
}

-- the digits at the head, and what follows them
unfoldable pub span_digits : Bytes → Bytes × Bytes
span_digits [] = ([], [])
span_digits (c ∷ s) = let (d, r) = span_digits s in if is_digit c then (c ∷ d, r) else ([], c ∷ s)

-- `([0-9]+) ` at the head
unfoldable pub number_field : Bytes → Option (Bytes × Bytes)
unfolding span_digits
number_field s =
    let (digits, rest) = span_digits s in
    elim digits [
      | [] ↦ none
      | c ∷ d ↦ elim rest [ [] ↦ none | x ∷ r ↦ if x == b' ' then some (c ∷ d, r) else none ]
    ]

pub record Frame : Type 0 where
  pub seq_text : Text
  pub crc_text : Text
  pub length_text : Text
  pub body : Bytes

-- `_FRAME.fullmatch(line)`; the line has no line feed
unfoldable pub parse_frame : Bytes → Option Frame
unfolding number_field
parse_frame line = elim (number_field line) [
  | none ↦ none
  | some (s, r₁) ↦ elim (number_field r₁) [
    | none ↦ none
    | some (c, r₂) ↦ elim (number_field r₂) [
      | none ↦ none
      | some (n, body) ↦ some (record { seq_text = s; crc_text = c; length_text = n; body = body })
    ]
  ]
]

-- CPython's `int` raises a ValueError beyond this many digits.
abbrev pub max_digits : ℕ
max_digits = 4300

-- `int(digits)`
unfoldable pub number : ℕ → Text → ℕ
number n [] = n
number n (c ∷ s) = number (n * 10 + (c - b'0')) s

-- `ident.rsplit('-', 1)[-1]`
unfoldable pub last_part : Text → Text → Text
last_part acc [] = acc
last_part acc (c ∷ s) = last_part (if c == b'-' then [] else acc ++ c ∷ []) s

-- The outcome of a line: `stop` is the exception, with `out` as it was then.
pub data Step : Type 0 where
  next : Scan → Step
  stop : Scan → ScanError → Step

module _ (outside : Outside) where
  -- after the updates of `out`: the check of the event's identifier
  unfoldable pub check_ident : Scan → Frame → Bytes → Step
  check_ident s f line =
      let ident = outside.frame_event_id f.body in
      if not (text_eq (last_part [] ident) f.seq_text)
      then stop s (event_id_mismatch f.seq_text ident)
      else next (record s {
        offset = s.offset + (length line + 1);
        records = s.records ++ (f.seq_text, f.body) ∷ [];
      })

  -- the checks on one frame, in order
  unfoldable pub accept : Scan → Frame → Bytes → Step
  accept s f line =
      let seq = number 0 f.seq_text in
      if ltb max_digits (length f.seq_text)
      then stop s conversion_limit
      else if not (starts_with (codes "{") f.body)
      then stop s (not_an_object f.seq_text)
      else if ltb max_digits (length f.length_text)
      then stop s conversion_limit
      else if not (length f.body == number 0 f.length_text)
      then stop s (len_mismatch f.seq_text)
      else if not (text_eq (decimal (outside.cksum f.body)) f.crc_text)
      then stop s (crc_mismatch f.seq_text)
      else if not (s.previous == 0) && leb seq s.previous
      then stop s (non_monotonic f.seq_text s.highest_text)
      else check_ident
          (record s {
            status = if seq == s.previous + 1 then s.status else degraded;
            previous = seq;
            highest = seq;
            highest_text = f.seq_text;
          })
          f line

  unfoldable pub scan_frame : Scan → Option Frame → Bytes → Step
  scan_frame s none line = stop s (unparsable s.offset)
  scan_frame s (some f) line = accept s f line

  -- the lines that end in a line feed, each without it and without its NULs
  unfoldable pub scan_lines : Scan → List Bytes → Step
  scan_lines s [] = next s
  scan_lines s (line ∷ rest) = elim (scan_frame s (parse_frame line) line) [
    | next s' ↦ scan_lines s' rest
    | stop s' e ↦ stop s' e
  ]

-- the file as its terminated lines and the rest
unfoldable pub split_lines : Bytes → Bytes → List Bytes × Bytes
split_lines line [] = ([], line)
split_lines line (c ∷ s) =
    let (lines, rest) = split_lines (if c == 10 then [] else line ++ c ∷ []) s in
    if c == 10 then (line ∷ lines, rest) else (lines, rest)

-- `.replace(b'\0', b'')`
abbrev pub without_nul : Bytes → Bytes
without_nul s = select (λ c. not (c == 0)) s

-- `out` at the end: after an exception `next` is as it was first
unfoldable pub finish : Bytes → Step → Scanned
finish tail (next s) = record {
  status = s.status;
  reason = none;
  highest = s.highest;
  highest_text = s.highest_text;
  next = s.highest + 1;
  torn = not (length tail == 0);
  truncate_at = if length tail == 0 then 0 else s.offset;
  records = s.records;
}
finish tail (stop s e) = record {
  status = corrupt;
  reason = some e;
  highest = s.highest;
  highest_text = s.highest_text;
  next = 1;
  torn = false;
  truncate_at = 0;
  records = s.records;
}

-- `scan`
unfoldable pub scan : Outside → Bytes → Scanned
unfolding finish split_lines
scan outside contents =
    let (lines, tail) = split_lines [] contents in
    finish (without_nul tail) (scan_lines outside start (map without_nul lines))
