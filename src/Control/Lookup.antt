-- ===== src/Control/Lookup.antt =====
-- What `append_record` of lib/aib_control.py writes, `requested_record` finds.
use mathlib.Core.Option.{none}
use ai_bobnet.Control.Log.{
  Line, ended, record_of, find_request, write_line, overlaid, numbered, found, append_record,
  raise_to, requested_record, is_request, undecodable, not_object, entry, Log, highest,
  next_highest, int_of,
}
use ai_bobnet.Json.{
  get-put, put, end, field, is_str, has, not_a_number, null, obj, arr, str, infinite, negsuc, get,
  bool, pos, dyadic, Fields, int, float, ℤ, Value, value_eq,
}
use mathlib.Core.Option.{some-injective}
use ai_bobnet.Base.{
  ◌∙◌, if◌then◌else◌, Bool, List, ◌+◌, text_eq, inr, inl, refl, ◌++◌, false, Text, ◌<◌, Bool-cases,
  codes, arith, ◌≤◌, some, true, ◌≡◌, ℕ, Option, [], ◌∷◌,
}

-- `int` of a float that equals a whole number is that number.
abbrev pub Truncates : (Value → Option ℤ) → Type 0
Truncates coerced =
    (m : ℤ) (k n : ℕ)
    → value_eq (float (dyadic m k)) (int (pos n)) ≡ true
    → coerced (float (dyadic m k)) ≡ some (pos n)

-- a key that the later fields do not have
get-overlaid :
    (k : Text) (base fields : Fields)
    → has k fields ≡ false
    → get k (overlaid base fields) ≡ get k base
unfolding overlaid has
get-overlaid k base end h = refl
get-overlaid k base (field j v fields) h =
    get-overlaid k (put j v base) fields (ground arith)
    ∙ (get-put j k v base ∙ other (text_eq j k) (ground arith))
  where
    other : (b : Bool) → b ≡ false → (if b then v else get k base) ≡ get k base
    other b h = rw h refl

pub record_of-seq :
    (n : ℕ) (ts event : Text) (fields : Fields)
    → has (codes "seq") fields ≡ false
    → get (codes "seq") (record_of n ts event fields) ≡ int (pos n)
unfolding get text_eq
record_of-seq n ts event fields no_seq =
    get-overlaid (codes "seq") (numbered n ts event end) fields no_seq

record_of-event :
    (n : ℕ) (ts event : Text) (fields : Fields)
    → has (codes "event") fields ≡ false
    → get (codes "event") (record_of n ts event fields) ≡ str event
unfolding get text_eq
record_of-event n ts event fields no_event =
    get-overlaid (codes "event") (numbered n ts event end) fields no_event

pub write_line-lines :
    (log : Log) (r : Fields)
    → log.ending ≡ ended
    → (write_line log r).lines ≡ log.lines ++ entry r ∷ []
unfolding write_line
write_line-lines log r h = rw h refl

write_line-ending : (log : Log) (r : Fields) → (write_line log r).ending ≡ ended
unfolding write_line
write_line-ending log r = refl

request_is_request :
    (n : ℕ) (r : Fields)
    → get (codes "seq") r ≡ int (pos n)
    → get (codes "event") r ≡ str (codes "ctl.requested")
    → is_request n r ≡ true
unfolding is_request is_str value_eq text_eq
request_is_request n r number event = rw (number, event) (ground arith)

module _ (coerced : Value → Option ℤ) where
  equal_to_number :
      Truncates coerced
      → (v : Value) (n : ℕ) → value_eq v (int (pos n)) ≡ true
      → int_of coerced v ≡ some (pos n)
  unfolding value_eq int_of
  equal_to_number truncates null n same = cc
  equal_to_number truncates (bool b) n same = ground arith
  equal_to_number truncates (int (pos m)) n same = ground arith
  equal_to_number truncates (int (negsuc m)) n same = cc
  equal_to_number truncates (float (dyadic m k)) n same = truncates m k n same
  equal_to_number truncates (float (infinite b)) n same = cc
  equal_to_number truncates (float not_a_number) n same = cc
  equal_to_number truncates (str s) n same = cc
  equal_to_number truncates (arr xs) n same = cc
  equal_to_number truncates (obj r) n same = cc

  raise_to-ge :
      (s : ℕ) (o : Option ℤ) {n : ℕ}
      → raise_to s o ≡ some n
      → (s ≤ n) × ((k : ℕ) → o ≡ some (pos k) → k ≤ n)
  raise_to-ge s none h = cc
  raise_to-ge s (some (pos m)) h = (ground arith, λ k same. ground arith)
  raise_to-ge s (some (negsuc m)) h = (ground arith, λ k same. cc)

  next_highest-ge :
      (s : ℕ) (r : Fields) {n : ℕ}
      → next_highest coerced s r ≡ some n
      → (s ≤ n) × ((k : ℕ) → int_of coerced (get (codes "seq") r) ≡ some (pos k) → k ≤ n)
  unfolding next_highest
  next_highest-ge s r {n} h = elim (Bool-cases (has (codes "seq") r)) [
    | inl present ↦ raise_to-ge s (int_of coerced (get (codes "seq") r)) cc
    | inr absent ↦ cc
  ]

  highest_entry :
      (s : ℕ) (r : Fields) (log : List Line) {n : ℕ}
      → highest coerced s (entry r ∷ log) ≡ some n
      → (m : ℕ) × (next_highest coerced s r ≡ some m) × (highest coerced m log ≡ some n)
  unfolding highest
  highest_entry s r log {n} h = go (next_highest coerced s r) refl h
    where
      go :
          (o : Option ℕ)
          → next_highest coerced s r ≡ o
          → ◌≡◌ {A = Option ℕ} (elim o [ none ↦ none | some m ↦ highest coerced m log ]) (some n)
          → (m : ℕ) × (next_highest coerced s r ≡ some m) × (highest coerced m log ≡ some n)
      go none p q = cc
      go (some m) p q = (m, p, q)

  highest-ge : (s : ℕ) (log : List Line) {n : ℕ} → highest coerced s log ≡ some n → s ≤ n
  unfolding highest
  highest-ge s [] h = ground arith
  highest-ge s (entry r ∷ log) h =
      let (m, first, others) = highest_entry s r log h in
      omega (arith, (next_highest-ge s r first).0, highest-ge m log others)
  highest-ge s (not_object ∷ log) h = cc
  highest-ge s (undecodable ∷ log) h = cc

  module _ (truncates : Truncates coerced) where
    not_request :
        (s k : ℕ) (r : Fields) (log : List Line) {n : ℕ}
        → highest coerced s (entry r ∷ log) ≡ some n
        → n < k
        → is_request k r ≡ false
    unfolding is_request
    not_request s k r log h above =
        elim (Bool-cases (value_eq (get (codes "seq") r) (int (pos k)))) [
          | inl same ↦
              let (m, first, others) = highest_entry s r log h in
              let below =
                (next_highest-ge s r first).1 k
                  (equal_to_number truncates (get (codes "seq") r) k same) in
              let above_m = highest-ge m log others in ground arith
          | inr different ↦ ground arith
        ]

    find_request-append :
        (s k : ℕ) (log : List Line) (r : Fields) {n : ℕ}
        → highest coerced s log ≡ some n
        → n < k
        → is_request k r ≡ true
        → find_request k (log ++ entry r ∷ []) ≡ found r
    unfolding find_request highest
    find_request-append s k [] r h above fits = ground arith
    find_request-append s k (entry r' ∷ log) r h above fits =
        let (m, first, others) = highest_entry s r' log h in
        let rest = find_request-append m k log r others above fits in
        let no = not_request s k r' log h above in ground arith
    find_request-append s k (not_object ∷ log) r h above fits = cc
    find_request-append s k (undecodable ∷ log) r h above fits = cc

    -- After a request has been appended to a log that ends in a line feed, or is empty, the log's lookup of its
    -- number finds that very record, whatever lines the log held before: where the request's own fields
    -- name no number and no event, and `int` of a float that equals a whole number is that number.
    pub requested_record-append_record :
        (log : Log) (ts : Text) (fields : Fields) {done : Log × Fields}
        → log.ending ≡ ended
        → has (codes "seq") fields ≡ false
        → has (codes "event") fields ≡ false
        → append_record coerced log ts (codes "ctl.requested") fields ≡ some done
        → (n : ℕ) × (get (codes "seq") done.1 ≡ int (pos n))
          × (requested_record n done.0 ≡ found done.1)
          × (done.0.ending ≡ ended)
    unfolding append_record
    requested_record-append_record log ts fields {done} whole no_seq no_event h =
        go (highest coerced 0 log.lines) refl h
      where
        request : ℕ → Fields
        request n = record_of (n + 1) ts (codes "ctl.requested") fields

        is_it : (n : ℕ) → is_request (n + 1) (request n) ≡ true
        is_it n =
            request_is_request (n + 1) (request n)
              (record_of-seq (n + 1) ts (codes "ctl.requested") fields no_seq)
              (record_of-event (n + 1) ts (codes "ctl.requested") fields no_event)

        go :
            (o : Option ℕ)
            → highest coerced 0 log.lines ≡ o
            → ◌≡◌ {A = Option (Log × Fields)}
                (elim o [ none ↦ none | some n ↦ some (write_line log (request n), request n) ])
                (some done)
            → (n : ℕ) × (get (codes "seq") done.1 ≡ int (pos n))
              × (requested_record n done.0 ≡ found done.1)
              × (done.0.ending ≡ ended)
        go none p q = cc
        go (some n) p q = rw (← some-injective (write_line log (request n), request n) done q) (
          n + 1,
          record_of-seq (n + 1) ts (codes "ctl.requested") fields no_seq,
          rw (write_line-lines log (request n) whole)
              (find_request-append 0 (n + 1) log.lines (request n) p (omega arith) (is_it n)),
          write_line-ending log (request n),
        )
