-- ===== src/Broker/Relay.antt =====
-- The loop of lib/aib_broker_response.py: its rounds are enough, and it relays each chunk whole.
use mathlib.Core.Option.{none}
use mathlib.Core.Path.{subst}
use ai_bobnet.Broker.Response.{blank, Outcome, refused, finished, out_of_rounds}
use Prim.Native.Nat.{zero}
use ai_bobnet.Base.{
  ◌||◌, if◌then◌else◌, Bool, ◌∙◌, drop_prefix-append, ap, false, Text, some, take, ltb, Option,
  refl, ◌++◌, suc, true, ◌==◌, ◌≡◌, arith, not, ◌≤◌, ◌<◌, all, drop, ℕ, [], ◌∷◌, length,
  length-append,
}
use ai_bobnet.Broker.Response.{
  field_line, chunk_prefix, relay_line, relay_field, relay_chunk, Reading, rest_of, Outside, Bytes,
  read_line, read,
}

-- What is left after a line is shorter.
read_line-shorter : (c : ℕ) (s : Bytes) → length (rest_of (read_line (c ∷ s))) < length (c ∷ s)
unfolding read_line
read_line-shorter c [] = ground arith
read_line-shorter c (d ∷ s) = ground (arith, read_line-shorter d s)

read_line-le : (s : Bytes) → length (rest_of (read_line s)) ≤ length s
unfolding read_line
read_line-le [] = ground arith
read_line-le (c ∷ s) = ground (arith, read_line-le s)

length-drop-le : (n : ℕ) (s : Bytes) → length (drop n s) ≤ length s
length-drop-le zero s = omega arith
length-drop-le (suc n) [] = omega arith
length-drop-le (suc n) (c ∷ s) = omega (arith, length-drop-le n s)

field_line-output : (line : Text) (st : Reading) → (field_line line st).output ≡ st.output
unfolding field_line
field_line-output line st = ground arith

-- The loop has ended, at the end of the stream or by a refusal, and what had been written before stays at the head of
-- what is written.
abbrev pub EndsAfter : Bytes → Outcome → Type 0
EndsAfter before (finished st) = (more : Bytes) × (st.output ≡ before ++ more)
EndsAfter before (refused output) = (more : Bytes) × (output ≡ before ++ more)
EndsAfter before out_of_rounds = ⊥

pub append_nil : (s : Bytes) → s ≡ s ++ []
append_nil [] = refl
append_nil (c ∷ s) = ap (λ r. c ∷ r) (append_nil s)

pub append_assoc : (s t u : Bytes) → (s ++ t) ++ u ≡ s ++ (t ++ u)
append_assoc [] t u = refl
append_assoc (c ∷ s) t u = ap (λ r. c ∷ r) (append_assoc s t u)

EndsAfter-append :
    (before chunk : Bytes) (o : Outcome) → EndsAfter (before ++ chunk) o → EndsAfter before o
EndsAfter-append before chunk (finished st) (more, h) =
    (chunk ++ more, h ∙ append_assoc before chunk more)
EndsAfter-append before chunk (refused output) (more, h) =
    (chunk ++ more, h ∙ append_assoc before chunk more)
EndsAfter-append before chunk out_of_rounds h = h

-- The branches end where the loop ends on what is left.
module _ (f : Reading → Bytes → Outcome) (n : ℕ)
    (ends : (st : Reading) (bs : Bytes) → length bs < n → EndsAfter st.output (f st bs)) where
  relay_chunk-EndsAfter :
      (st : Reading) (rest : Bytes) (size : Option ℕ)
      → length rest < n
      → EndsAfter st.output (relay_chunk f st rest size)
  unfolding relay_chunk
  relay_chunk-EndsAfter st rest none h = ([], append_nil st.output)
  relay_chunk-EndsAfter st rest (some size) h =
      go (not (blank (read_line rest)) || ltb (length after) size)
    where
      after : Bytes
      after = rest_of (read_line rest)

      longer : Reading
      longer = record st { output = st.output ++ take size after }

      go :
          (b : Bool)
          → EndsAfter st.output (if b then refused st.output else f longer (drop size after))
      go true = ([], append_nil st.output)
      go false = EndsAfter-append st.output (take size after) (f longer (drop size after)) (
          ends longer (drop size after)
            (omega (arith, length-drop-le size after, read_line-le rest, h)))

  relay_field-EndsAfter :
      (st : Reading) (rest : Bytes) (line : Option Text)
      → length rest < n
      → EndsAfter st.output (relay_field f st rest line)
  unfolding relay_field
  relay_field-EndsAfter st rest none h = ([], append_nil st.output)
  relay_field-EndsAfter st rest (some line) h =
      subst (λ o. EndsAfter o (f (field_line line st) rest)) (field_line-output line st)
        (ends (field_line line st) rest h)

  relay_line-EndsAfter :
      (outside : Outside) (st : Reading) (line rest : Bytes) (size : Option Bytes)
      → length rest < n
      → EndsAfter st.output (relay_line outside f st line rest size)
  unfolding relay_line
  relay_line-EndsAfter outside st line rest none h =
      relay_field-EndsAfter st rest (outside.decode line) h
  relay_line-EndsAfter outside st line rest (some size) h =
      relay_chunk-EndsAfter st rest (outside.parse_int size) h

pub read_ends :
    (outside : Outside) (fuel : ℕ) (st : Reading) (bytes : Bytes)
    → length bytes < fuel
    → EndsAfter st.output (read outside fuel st bytes)
unfolding read
read_ends outside zero st bytes h = absurd (omega arith)
read_ends outside (suc fuel) st [] h = ([], append_nil st.output)
read_ends outside (suc fuel) st (b ∷ bytes) h =
    relay_line-EndsAfter (read outside fuel) (length (b ∷ bytes))
      (λ st' bs shorter. read_ends outside fuel st' bs (omega (arith, shorter, h))) outside st _
      (rest_of (read_line (b ∷ bytes))) _ (read_line-shorter b bytes)

-- A line up to its line feed.
read_line-append :
    (line rest : Bytes)
    → all (λ c. not (c == 10)) line ≡ true
    → read_line (line ++ 10 ∷ rest) ≡ (line, true, rest)
unfolding read_line
read_line-append [] rest h = ground arith
read_line-append (c ∷ line) rest h = ground (arith, read_line-append line rest)

length-append-le : (s t : Bytes) → ltb (length (s ++ t)) (length s) ≡ false
length-append-le s t = ground (arith, length-append s t)

take-append : (s t : Bytes) → take (length s) (s ++ t) ≡ s
take-append [] t = refl
take-append (c ∷ s) t = ap (λ r. c ∷ r) (take-append s t)

drop-append : (s t : Bytes) → drop (length s) (s ++ t) ≡ t
drop-append [] t = refl
drop-append (c ∷ s) t = drop-append s t

-- A chunk whose size line (of no line feed) reads as the length of its payload, followed by the blank
-- line and the payload, is written out byte for byte in one round, whatever the payload holds, and the
-- loop goes on right behind it with the fields unchanged.
pub read_chunk :
    (outside : Outside) (fuel : ℕ) (st : Reading) (size_text payload rest : Bytes)
    → all (λ c. not (c == 10)) size_text ≡ true
    → outside.parse_int size_text ≡ some (length payload)
    → read outside (suc fuel) st (chunk_prefix ++ (size_text ++ 10 ∷ 10 ∷ (payload ++ rest)))
      ≡ read outside fuel (record st { output = st.output ++ payload }) rest
unfolding read relay_line relay_chunk
read_chunk outside fuel st size_text payload rest line size =
    rw
      (
        read_line-append (chunk_prefix ++ size_text) (10 ∷ (payload ++ rest)) line,
        drop_prefix-append chunk_prefix size_text,
        size,
        read_line-append [] (payload ++ rest) refl,
        length-append-le payload rest,
        take-append payload rest,
        drop-append payload rest,
      )
      refl
