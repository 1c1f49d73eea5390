-- ===== src/Supervisor/Durable.antt =====
-- The journal of lib/aib_supervisor.py survives a crash: what is written is read again.
use ai_bobnet.Control.Log.{numbered}
use ai_bobnet.Supervisor.Machine.{Machine, Setting, journal}
use ai_bobnet.Control.Identity.{strip}
use ai_bobnet.Json.{as_obj, obj, pos, int, get, value_eq, Fields, Value}
use ai_bobnet.Supervisor.JournalFile.{
  load_parts, loaded, with_record, settle_lines, decode_lines, load_records, read_line, append_line,
  is_numbered, read_lines, cut,
}
use mathlib.Core.Option.{some-injective}
use ai_bobnet.Base.{
  text_eq, inr, inl, sym, suc, Bool-cases, none, ◌+◌, codes, length, arith, some, false, ◌&&◌, refl,
  leb, not, ◌==◌, Option, ◌++◌, ◌≡◌, all, true, Bool, ℕ, Text, List, [], ◌∷◌,
}

-- empty, or a line feed at the end
abbrev pub ends_line : List ℕ → Bool
ends_line [] = true
ends_line (c ∷ []) = c == 10
ends_line (c ∷ d ∷ s) = ends_line (d ∷ s)

abbrev pub no_feed : List ℕ → Bool
no_feed s = all (λ c. not (c == 10)) s

-- printable ASCII, as `json.dumps` prints
abbrev pub is_plain : Text → Bool
is_plain s = all (λ c. leb 32 c && leb c 126) s

cut_torn : (torn : List ℕ) → no_feed torn ≡ true → cut torn ≡ ([], torn)
unfolding cut
cut_torn [] plain = refl
cut_torn (c ∷ torn) plain =
    let first : (c == 10) ≡ false = ground arith in
    let rest : no_feed torn ≡ true = ground arith in rw (cut_torn torn rest, first) refl

pub cut-append :
    (bytes torn : List ℕ)
    → ends_line bytes ≡ true
    → no_feed torn ≡ true
    → cut (bytes ++ torn) ≡ (bytes, torn)
unfolding cut
cut-append [] torn ends plain = cut_torn torn plain
cut-append (c ∷ []) torn ends plain = rw (cut_torn torn plain, ends) refl
cut-append (c ∷ d ∷ s) torn ends plain = rw (cut-append (d ∷ s) torn ends plain) (ground arith)

pub ends_line-append : (s : List ℕ) → ends_line (s ++ 10 ∷ []) ≡ true
ends_line-append [] = refl
ends_line-append (c ∷ []) = refl
ends_line-append (c ∷ d ∷ s) = ends_line-append (d ∷ s)

module _ (text_lines : List ℕ → Option (List Text)) (loads : Text → Option Value) where
  -- One printable line more is one line more to decode.
  abbrev pub AppendsLine : Type 0
  AppendsLine =
      (bytes : List ℕ) (line : Text) (lines : List Text)
      → ends_line bytes ≡ true
      → is_plain line ≡ true
      → text_lines bytes ≡ some lines
      → text_lines (append_line bytes line) ≡ some (lines ++ line ∷ [])

  with_record-some :
      (o : Option Fields) (rest : Option (List Fields)) {records : List Fields}
      → with_record o rest ≡ some records
      → (r : Fields) × (others : List Fields) × (o ≡ some r)
        × (rest ≡ some others)
        × (records ≡ r ∷ others)
  with_record-some none rest h = cc
  with_record-some (some r) none h = cc
  with_record-some (some r) (some others) {records} h =
      (r, others, refl, refl, sym (some-injective (r ∷ others) records h))

  pub read_lines-append :
      (lines : List Text) (line : Text) (records : List Fields) (r : Fields)
      → read_lines text_lines loads lines ≡ some records
      → (length (strip line) == 0) ≡ false
      → read_line text_lines loads line ≡ some r
      → read_lines text_lines loads (lines ++ line ∷ []) ≡ some (records ++ r ∷ [])
  unfolding read_lines
  read_lines-append [] line records r h shown reads =
      rw (shown, reads, ← some-injective [] records h) refl
  read_lines-append (first ∷ lines) line records r h shown reads =
      elim (Bool-cases (length (strip first) == 0)) [
        | inl blank ↦ rw blank (read_lines-append lines line records r (cc) shown reads)
        | inr full ↦
            let (q, others, is_q, are_others, all) =
              with_record-some (read_line text_lines loads first)
                (read_lines text_lines loads lines) {records = records} (cc) in
            let later = read_lines-append lines line others r are_others shown reads in
            rw (full, is_q, later, all) refl
      ]

  is_numbered-append :
      (n : ℕ) (records : List Fields) (r : Fields)
      → is_numbered n records ≡ true
      → value_eq (get (codes "seq") r) (int (pos (n + length records))) ≡ true
      → is_numbered n (records ++ r ∷ []) ≡ true
  unfolding is_numbered
  is_numbered-append n [] r h next =
      let same : n + 0 ≡ n = omega arith in
      let here : value_eq (get (codes "seq") r) (int (pos n)) ≡ true = cc in ground arith
  is_numbered-append n (q ∷ records) r h next =
      let same : n + suc (length records) ≡ n + 1 + length records = omega arith in
      let there : value_eq (get (codes "seq") r) (int (pos (n + 1 + length records))) ≡ true = cc in
      let others : is_numbered (n + 1) records ≡ true = ground arith in
      let later = is_numbered-append (n + 1) records r others there in ground arith

  -- The bytes are whole lines that decode to these records, numbered from 1.
  pub record IsDurable (records : List Fields) (bytes : List ℕ) : Type 0 where
    pub ends : ends_line bytes ≡ true
    pub lines : List Text
    pub decoded : text_lines bytes ≡ some lines
    pub are_read : read_lines text_lines loads lines ≡ some records
    pub numbers : is_numbered 1 records ≡ true

  load_records-torn :
      (records : List Fields) (bytes torn : List ℕ)
      → IsDurable records bytes
      → no_feed torn ≡ true
      → load_records text_lines loads (bytes ++ torn) ≡ (loaded records (length torn), bytes)
  unfolding load_records load_parts decode_lines settle_lines
  load_records-torn records bytes torn ok plain =
      rw (cut-append bytes torn ok.ends plain, ok.decoded, ok.are_read, ok.numbers) refl

  -- Let the journal's file hold a supervisor's records. After `journal` has printed one more on a line, and a crash has
  -- torn the next line off wherever it broke, a start loads exactly the records that the supervisor had, and keeps exactly
  -- the whole lines: where a printable line more is one more to decode, and the printed record is read back as itself.
  pub load_records-journal :
      (s : Setting) (event : Text) (fields : Fields) (m : Machine) (bytes torn : List ℕ)
      (line : Text)
      → AppendsLine
      → IsDurable m.records bytes
      → m.journal_seq ≡ length m.records
      → loads line ≡ some (obj (numbered (m.journal_seq + 1) s.utc event fields))
      → is_plain line ≡ true
      → (length (strip line) == 0) ≡ false
      → no_feed torn ≡ true
      → load_records text_lines loads (append_line bytes line ++ torn)
        ≡ (loaded (journal s event fields m).records (length torn), append_line bytes line)
  unfolding journal append_line read_line as_obj get text_eq value_eq
  load_records-journal s event fields m bytes torn line appends ok seq prints plain shown whole =
      load_records-torn (m.records ++ r ∷ []) (append_line bytes line) torn
        (record {
          ends = ends_after;
          lines = ok.lines ++ line ∷ [];
          decoded = appends bytes line ok.lines ok.ends plain ok.decoded;
          are_read = read_lines-append ok.lines line m.records r ok.are_read shown read_r;
          numbers = is_numbered-append 1 m.records r ok.numbers number_r;
        })
        whole
    where
      r : Fields
      r = numbered (m.journal_seq + 1) s.utc event fields

      ends_after : ends_line (append_line bytes line) ≡ true
      ends_after = ends_line-append (bytes ++ line)

      read_r : read_line text_lines loads line ≡ some r
      read_r = cc

      number_r : value_eq (get (codes "seq") r) (int (pos (1 + length m.records))) ≡ true
      number_r = rw seq (ground arith)
