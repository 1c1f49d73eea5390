-- ===== src/Ledger/Reading.antt =====
-- `read_events` of lib/task_ledger.py, from what `scan` returns of the file.
use ai_bobnet.Ledger.Types.{invalid_shape, invalid_json, invalid_utf8, Invalid}
use ai_bobnet.Attempts.Frames.{
  Bytes, corrupt, degraded, unparsable, number, ScanError, Scanned, Status,
}
use ai_bobnet.Json.{obj, Fields, Value}
use ai_bobnet.Base.{ok, raised, some, err, Result, codes, List, Option, ℕ, Text, [], ◌∷◌}
use mathlib.Core.Option.{none}

-- `json.loads(raw.decode("utf-8"), object_pairs_hook=unique_pairs)`: a UnicodeError, another
-- ValueError (a key that occurs twice among them), or the value
pub data Decoded : Type 0 where
  bad_utf8 bad_json : Decoded
  decoded : Value → Decoded

-- What `read_events` returns; of the metadata, what `fold` uses.
pub record Rows : Type 0 where
  pub stream_status : Text
  pub highest : ℕ
  pub events : List (ℕ × Fields)
  pub invalid_records : List Invalid

abbrev status_text : Status → Text
status_text Status.ok = codes "ok"
status_text degraded = codes "degraded"
status_text corrupt = codes "corrupt"

-- one record: an event, or what is wrong with it
unfoldable pub read_record : ℕ → Decoded → Rows → Rows
read_record seq bad_utf8 rows = record rows {
  invalid_records = record { seq = seq; reason = invalid_utf8 } ∷ rows.invalid_records;
}
read_record seq bad_json rows = record rows {
  invalid_records = record { seq = seq; reason = invalid_json } ∷ rows.invalid_records;
}
read_record seq (decoded (obj r)) rows = record rows { events = (seq, r) ∷ rows.events }
read_record seq (decoded _) rows = record rows {
  invalid_records = record { seq = seq; reason = invalid_shape } ∷ rows.invalid_records;
}

-- the loop, with the metadata of the scan
unfoldable pub read_records : (Bytes → Decoded) → Scanned → List (Text × Bytes) → Rows
read_records decode meta [] = record {
  stream_status = status_text meta.status;
  highest = meta.highest;
  events = [];
  invalid_records = [];
}
read_records decode meta ((seq_text, raw) ∷ rest) =
    read_record (number 0 seq_text) (decode raw) (read_records decode meta rest)

-- `except` is the LedgerError of a corrupt stream.
abbrev corruption : Option ScanError → ScanError
corruption none = unparsable 0
corruption (some e) = e

-- `read_events`
unfoldable pub read_events : (Bytes → Decoded) → Scanned → Result ScanError Rows
unfolding read_records read_record
read_events decode meta = elim meta.status [
  | Status.corrupt ↦ err (raised (corruption meta.reason))
  | _ ↦ ok (read_records decode meta meta.records)
]
