-- ===== src/Attempts/Numbering.antt =====
-- The numbers of the records that `scan` of lib/attempts_fold.py returns.
use mathlib.Core.Option.{none}
use mathlib.Core.Path.{subst}
use ai_bobnet.Base.{
  refl, ap, sym, ◌∙◌, length-append, some, map, Option, ℕ, suc, ◌+◌, ◌≡◌, Text, List, [], ◌∷◌, ◌++◌,
  length, arith,
}
use ai_bobnet.Attempts.Frames.{
  start, stop, split_lines, without_nul, parse_frame, Step, finish, scan, scan_lines, scan_frame,
  Outside, Scan, Status, Frame, Bytes, number, accept, check_ident, next,
}

-- The records bear the numbers from `n` on, without a gap.
abbrev pub Numbered : ℕ → List (Text × Bytes) → Type 0
Numbered n [] = Unit {0}
Numbered n ((seq_text, body) ∷ rest) = (number 0 seq_text ≡ n) × Numbered (suc n) rest

-- What a state of the loop has as long as its status is `ok`.
record IsNumbered (s : Scan) : Type 0 where
  count : s.previous ≡ length s.records
  top : s.highest ≡ s.previous
  numbers : Numbered 1 s.records

Numbered-append :
    (n : ℕ) (rs : List (Text × Bytes)) (seq_text body : Text)
    → Numbered n rs
    → number 0 seq_text ≡ n + length rs
    → Numbered n (rs ++ (seq_text, body) ∷ [])
Numbered-append n [] seq_text body h e = (omega (arith, e), tt)
Numbered-append n ((t, b) ∷ rs) seq_text body (h, hs) e =
    (h, Numbered-append (suc n) rs seq_text body hs (omega (arith, e)))

next-injective : {a b : Scan} → Step.next a ≡ Step.next b → a ≡ b
next-injective h = ground arith

module _ (outside : Outside) where
  -- What a line that is accepted has done.
  record IsAccepted (s : Scan) (f : Frame) (s' : Scan) : Type 0 where
    records_are : s'.records ≡ s.records ++ (f.seq_text, f.body) ∷ []
    previous_is : s'.previous ≡ number 0 f.seq_text
    highest_is : s'.highest ≡ number 0 f.seq_text
    was_ok : s'.status ≡ Status.ok → (s.status ≡ Status.ok) × (number 0 f.seq_text ≡ s.previous + 1)

  accept-IsAccepted :
      (s : Scan) (f : Frame) (line : Bytes) {s' : Scan}
      → accept outside s f line ≡ next s'
      → IsAccepted s f s'
  unfolding accept check_ident
  accept-IsAccepted s f line h = record {
    records_are = ground arith;
    previous_is = ground arith;
    highest_is = ground arith;
    was_ok = λ k. ground arith;
  }

  scan_frame-IsNumbered :
      (s : Scan) (o : Option Frame) (line : Bytes) {s' : Scan}
      → (s.status ≡ Status.ok → IsNumbered s)
      → scan_frame outside s o line ≡ next s'
      → s'.status ≡ Status.ok
      → IsNumbered s'
  unfolding scan_frame
  scan_frame-IsNumbered s none line valid h k = cc
  scan_frame-IsNumbered s (some f) line {s'} valid h k =
      let a = accept-IsAccepted s f line h in
      let (before, follows) = a.was_ok k in
      let v = valid before in
      record {
        count = rw (a.records_are) (
            omega (
              arith,
              a.previous_is,
              follows,
              v.count,
              length-append s.records ((f.seq_text, f.body) ∷ []),
            ));
        top = a.highest_is ∙ sym a.previous_is;
        numbers = rw (a.records_are) (
            Numbered-append 1 s.records f.seq_text f.body v.numbers
              (omega (arith, follows, v.count)));
      }

  -- The lines in turn; a line that stops the scan ends it.
  scan_lines-IsNumbered :
      (s : Scan) (lines : List Bytes) {s' : Scan}
      → (s.status ≡ Status.ok → IsNumbered s)
      → scan_lines outside s lines ≡ next s'
      → s'.status ≡ Status.ok
      → IsNumbered s'
  unfolding scan_lines
  scan_lines-IsNumbered s [] {s'} valid h k =
      let same = next-injective h in
      subst IsNumbered same (valid (ap (λ (x : Scan). x.status) same ∙ k))
  scan_lines-IsNumbered s (line ∷ rest) {s'} valid h k =
      go (scan_frame outside s (parse_frame line) line) refl h
        (λ s₁ v q. scan_lines-IsNumbered s₁ rest v q k)
    where
      go :
          (r : Step)
          → scan_frame outside s (parse_frame line) line ≡ r
          → (elim r [ next s₁ ↦ scan_lines outside s₁ rest | stop s₁ e ↦ stop s₁ e ]) ≡ next s'
          → ((s₁ : Scan)
              → (s₁.status ≡ Status.ok → IsNumbered s₁)
              → scan_lines outside s₁ rest ≡ next s'
              → IsNumbered s')
          → IsNumbered s'
      go (next s₁) p q others =
          others s₁ (scan_frame-IsNumbered s (parse_frame line) line valid p) q
      go (stop s₁ e) p q others = cc

-- When a scan reports the status `ok`, the records that it returns bear the numbers 1, 2, … without
-- a gap, the highest number is how many there are, and the next number follows it.
pub scan_ok-Numbered :
    (outside : Outside) (contents : Bytes)
    → (scan outside contents).status ≡ Status.ok
    → Numbered 1 (scan outside contents).records
      × ((scan outside contents).highest ≡ length (scan outside contents).records)
      × ((scan outside contents).next ≡ length (scan outside contents).records + 1)
unfolding scan finish
scan_ok-Numbered outside contents h =
    go (scan_lines outside start lines) refl (without_nul (split_lines [] contents).1) h
  where
    lines : List Bytes
    lines = map without_nul (split_lines [] contents).0

    go :
        (r : Step)
        → scan_lines outside start lines ≡ r
        → (tail : Bytes) → (finish tail r).status ≡ Status.ok
        → Numbered 1 (finish tail r).records
          × ((finish tail r).highest ≡ length (finish tail r).records)
          × ((finish tail r).next ≡ length (finish tail r).records + 1)
    go (stop s e) p tail k = cc
    go (next s) p tail k =
        let v =
          scan_lines-IsNumbered outside start lines
            (λ _. record { count = refl; top = refl; numbers = tt }) p k in
        (v.numbers, v.top ∙ v.count, ap (λ n. n + 1) (v.top ∙ v.count))
