-- ===== src/Broker/Response.antt =====
-- `parse` of lib/aib_broker_response.py: the relayed chunks and the launcher's exit status.
use Prim.Native.Nat.{zero}
use ai_bobnet.Base.{
  partition, drop, take, ◌++◌, is_token, ltb, text_eq, ◌||◌, true, suc, drop_prefix, min, not,
  insert, ◌==◌, some, lookup, none, ◌&&◌, if◌then◌else◌, false, ℕ, codes, Bool, Dict, Option, Text,
  [], ◌∷◌, length, ◌+◌,
}

abbrev pub Bytes : Type 0
Bytes = Text

-- What the code asks of Python and of the system: `bytes.decode("utf-8")`, `int` of a chunk's size
-- (a number below zero fails the length check, so it is `none` too), `str.isdigit`, `int` of a text
-- (`none` where it raises), and whether `persist_attempt` could write.
pub record Outside : Type 0 where
  pub decode : Bytes → Option Text
  pub parse_int : Bytes → Option ℕ
  pub is_digits : Text → Bool
  pub int_of : Text → Option ℕ
  pub meta_path_set : Bool
  pub write_meta : Text → Bool

-- the variables of the loop, and the bytes written to the standard output
pub record Reading : Type 0 where
  pub fields : Dict Text
  pub saw_terminal : Bool
  pub output : Bytes

-- How the loop ends: at the end of the stream; by a `return 69`, with the bytes that were written before; or the
-- model's rounds are used up.
pub data Outcome : Type 0 where
  finished : Reading → Outcome
  refused : Bytes → Outcome
  out_of_rounds : Outcome

-- `stream.readline()`: the line without its line feed, whether it had one, and the rest
unfoldable pub read_line : Bytes → Bytes × Bool × Bytes
read_line [] = ([], false, [])
read_line (c ∷ s) =
    let (line, ended, rest) = read_line s in
    if c == 10 then ([], true, s) else (c ∷ line, ended, rest)

abbrev pub chunk_prefix : Bytes
chunk_prefix = codes "chunk_bytes="

-- the empty line after a chunk's size is one line feed
abbrev pub blank : Bytes × Bool × Bytes → Bool
blank (line, ended, rest) = ended && (length line == 0)

abbrev pub rest_of : Bytes × Bool × Bytes → Bytes
rest_of (line, ended, rest) = rest

-- one field line
unfoldable pub field_line : Text → Reading → Reading
unfolding partition
field_line line st =
    let (key, found, value) = partition b'=' line in
    if found
    then record st {
      fields = insert key value st.fields;
      saw_terminal = st.saw_terminal || text_eq key (codes "end");
    }
    else st

-- A chunk of a size that is known: the blank line, the bytes, and the loop on what follows.
unfoldable pub relay_chunk : (Reading → Bytes → Outcome) → Reading → Bytes → Option ℕ → Outcome
relay_chunk loop st rest none = refused st.output
relay_chunk loop st rest (some size) =
    let after = read_line rest in
    if not (blank after) || ltb (length (rest_of after)) size
    then refused st.output
    else loop (record st { output = st.output ++ take size (rest_of after) })
        (drop size (rest_of after))

-- A line of a field, once it is decoded.
unfoldable pub relay_field : (Reading → Bytes → Outcome) → Reading → Bytes → Option Text → Outcome
relay_field loop st rest none = refused st.output
relay_field loop st rest (some line) = loop (field_line line st) rest

-- The branches on a line: the text of a chunk's size, or any other line.
unfoldable pub relay_line :
    Outside → (Reading → Bytes → Outcome) → Reading → Bytes → Bytes → Option Bytes → Outcome
relay_line outside loop st line rest (some size_text) =
    relay_chunk loop st rest (outside.parse_int size_text)
relay_line outside loop st line rest none = relay_field loop st rest (outside.decode line)

module _ (outside : Outside) where
  -- The loop. Every round reads a byte at least.
  unfoldable pub read : ℕ → Reading → Bytes → Outcome
  read zero st bytes = out_of_rounds
  read (suc fuel) st [] = finished st
  read (suc fuel) st (b ∷ bytes) =
      let raw = read_line (b ∷ bytes) in
      relay_line outside (read fuel) st raw.0 raw.2 (drop_prefix chunk_prefix raw.0)

  -- `persist_attempt`
  unfoldable pub persist_attempt : Text → Bool
  persist_attempt value =
      if not outside.meta_path_set then true else is_token value && outside.write_meta value

  abbrev field_of : Text → Reading → Text
  field_of key st = elim (lookup key st.fields) [ none ↦ [] | some v ↦ v ]

  -- SIGNALS
  abbrev signals : Dict ℕ
  signals = (codes "HUP", 129) ∷ (codes "INT", 130) ∷ (codes "KILL", 137) ∷ (codes "TERM", 143) ∷ []

  -- `min(base + int(code), 255)`; `none` is the ValueError of `int`
  abbrev capped : ℕ → Text → Option ℕ
  capped base n = elim (outside.int_of n) [ none ↦ none | some k ↦ some (min (base + k) 255) ]

  -- the status of a named signal, or of `SIGNAL-<n>`
  unfoldable pub signal_status : Text → Option ℕ
  signal_status name = elim (lookup name signals) [
    | some number ↦ some number
    | none ↦ elim (drop_prefix (codes "SIGNAL-") name) [
      | none ↦ some 69
      | some n ↦ if outside.is_digits n then capped 128 n else some 69
    ]
  ]

  -- the lines after the loop
  unfoldable pub status : Reading → Option ℕ
  status st =
      if not st.saw_terminal
      then some 69
      else if text_eq (field_of (codes "reason") st) (codes "over_capacity")
      then some 75
      else if not (text_eq (field_of (codes "end") st) (codes "ok"))
      then some 69
      else if not (persist_attempt (field_of (codes "attempt_id") st))
      then some 69
      else if text_eq (field_of (codes "exit_class") st) (codes "ok")
      then some 0
      else if not (length (field_of (codes "exit_code") st) == 0)
          && outside.is_digits (field_of (codes "exit_code") st)
      then capped 0 (field_of (codes "exit_code") st)
      else signal_status (field_of (codes "signal") st)

  abbrev pub start : Reading
  start = record { fields = []; saw_terminal = false; output = [] }

  -- what the process returns, none for the ValueError, and what it has written
  unfoldable pub settle_response : Outcome → Option (Option ℕ × Bytes)
  settle_response (finished st) = some (status st, st.output)
  settle_response (refused output) = some (some 69, output)
  settle_response out_of_rounds = none

  -- `parse`: an empty file is 69; none would be a loop that has used up its rounds
  unfoldable pub parse : Bytes → Option (Option ℕ × Bytes)
  parse bytes =
      if length bytes == 0
      then some (some 69, [])
      else settle_response (read (suc (length bytes)) start bytes)
