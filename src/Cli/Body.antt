-- ===== src/Cli/Body.antt =====
-- The body that `read_body_file` of lib/task_cli.py returns.
use Prim.Native.Nat.{zero}
use ai_bobnet.Cli.Arguments.{body_too_long, Accepted}
use ai_bobnet.Cli.Payload.{take_chunk, body_rounds, max_body, Files, read_body_file, read_chunks}
use ai_bobnet.Base.{
  Bool, ◌∙◌, ◌-◌, min, length-append, raised, false, err, ok, refl, some, ◌+◌, true, ap, leb, suc,
  ◌<◌, drop, ◌≡◌, if◌then◌else◌, Text, ◌≤◌, take, length, ◌++◌, ℕ, List, expect, [], ◌∷◌, arith,
}
use mathlib.Core.Path.{subst}

-- what a file of this content is to give: the content, or the refusal of a body that is too long
abbrev pub bounded : List ℕ → Accepted (List ℕ)
bounded content = if leb (length content) max_body then ok content else err (raised body_too_long)

append_assoc : (s t u : List ℕ) → (s ++ t) ++ u ≡ s ++ (t ++ u)
append_assoc [] t u = refl
append_assoc (c ∷ s) t u = ap (λ r. c ∷ r) (append_assoc s t u)

append_nil : (s : List ℕ) → s ++ [] ≡ s
append_nil [] = refl
append_nil (c ∷ s) = ap (λ r. c ∷ r) (append_nil s)

length-take-le : (n : ℕ) (s : List ℕ) → length (take n s) ≤ n
length-take-le zero s = omega arith
length-take-le (suc n) [] = omega arith
length-take-le (suc n) (c ∷ s) = omega (arith, length-take-le n s)

take-drop : (n : ℕ) (s : List ℕ) → take n s ++ drop (length (take n s)) s ≡ s
take-drop zero s = refl
take-drop (suc n) [] = refl
take-drop (suc n) (c ∷ s) = ap (λ r. c ∷ r) (take-drop n s)

-- where a read gives nothing, the file is at its end
take-empty : (n : ℕ) (s : List ℕ) → 1 ≤ n → take n s ≡ [] → s ≡ []
take-empty zero s h k = absurd (omega arith)
take-empty (suc n) [] h k = refl
take-empty (suc n) (c ∷ s) h k = absurd (cc k)

module _ (extra : ℕ → ℕ) where
  read_chunks-bounded :
      (rounds : ℕ) (body rest : List ℕ)
      → length body ≤ 8193
      → 8193 < rounds + length body
      → read_chunks rounds extra body rest ≡ some (bounded (body ++ rest))
  unfolding read_chunks take_chunk
  read_chunks-bounded zero body rest h k = absurd (omega arith)
  read_chunks-bounded (suc rounds) body rest h k =
      go (leb (length body) max_body) refl
        (λ chunk short. read_chunks-bounded rounds (body ++ chunk) (drop (length chunk) rest) short)
    where
      size : ℕ
      size = min (8193 - length body) (suc (extra (length body)))

      Later : Type 0
      Later =
          (chunk : List ℕ)
          → length (body ++ chunk) ≤ 8193
          → 8193 < rounds + length (body ++ chunk)
          → read_chunks rounds extra (body ++ chunk) (drop (length chunk) rest)
            ≡ some (bounded ((body ++ chunk) ++ drop (length chunk) rest))

      taken :
          (chunk : List ℕ)
          → take size rest ≡ chunk
          → length body ≤ 8192
          → Later
          → take_chunk (read_chunks rounds extra) body rest chunk ≡ some (bounded (body ++ rest))
      taken [] p within later =
          let at_end : rest ≡ [] = take-empty size rest (ground arith) p in
          let short : leb (length body) max_body ≡ true = ground arith in
          rw (at_end, append_nil body, short) refl
      taken (c ∷ chunk) p within later =
          let asked : length (c ∷ chunk) ≤ size =
            subst (λ s. length s ≤ size) p (length-take-le size rest) in
          let all_of : (c ∷ chunk) ++ drop (length (c ∷ chunk)) rest ≡ rest =
            subst (λ s. s ++ drop (length s) rest ≡ rest) p (take-drop size rest) in
          later (c ∷ chunk) (ground (arith, length-append body (c ∷ chunk)))
            (ground (arith, length-append body (c ∷ chunk)))
          ∙ ap (λ r. some (bounded r))
              (append_assoc body (c ∷ chunk) (drop (length (c ∷ chunk)) rest)
                ∙ ap (λ r. body ++ r) all_of)

      go :
          (b : Bool)
          → leb (length body) max_body ≡ b
          → Later
          → elim b [
            | false ↦ some (err (raised body_too_long))
            | true ↦ take_chunk (read_chunks rounds extra) body rest (take size rest)
          ]
            ≡ some (bounded (body ++ rest))
      go false over later =
          let longer : leb (length (body ++ rest)) max_body ≡ false =
            ground (arith, length-append body rest) in
          rw longer refl
      go true within later = taken (take size rest) refl (ground arith) later

-- However short the single reads of an opened file are, `read_body_file` returns the file's whole content if this has
-- at most 8192 bytes, and else the refusal of a body that is too long.
pub read_body_file-bounded :
    (files : Files) (path : Text) (content : List ℕ) (extra : ℕ → ℕ)
    → files.body_file path ≡ some (content, extra)
    → read_body_file files path ≡ bounded content
unfolding read_body_file expect
read_body_file-bounded files path content extra h =
    rw (h, read_chunks-bounded extra body_rounds [] content (omega arith) (omega arith)) refl
