-- ===== src/Base/Strings.antt =====
-- Python `str` as its code points (lone surrogates included), and the regular expressions of the
-- identifiers: lib/task_ledger.py, lib/aib_broker_response.py, lib/aib_broker_security.py.
use Prim.Native.Nat.{ℕ, zero, suc, ◌+◌, ◌/◌, ◌%◌}
use Prim.Native.Char.{code}
use Prim.Native.String.{String}
use mathlib.Core.Path.{◌≡◌, refl}
use mathlib.Core.Logic.{◌↔◌}
use mathlib.Core.Bool.{Bool, true, false, ◌&&◌, ◌||◌}
use mathlib.Core.Option.{Option, none, some}
use mathlib.Core.List.{List, [], ◌∷◌, ◌++◌}
use native.Mathlib.Omega.{arith}
use ai_bobnet.Base.Tests.{leb, ltb, ◌==◌, if◌then◌else◌}
use ai_bobnet.Base.Lists.{any}

abbrev pub Text : Type 0
Text = List ℕ

-- A literal of the source.
abbrev pub codes : String → Text
codes String.[] = []
codes (String.◌∷◌ c s) = code c ∷ codes s

-- `s == t`
unfoldable pub text_eq : Text → Text → Bool
text_eq [] [] = true
text_eq [] (d ∷ t) = false
text_eq (c ∷ s) [] = false
text_eq (c ∷ s) (d ∷ t) = (c == d) && text_eq s t

pub text_eq_iff : (s t : Text) → (text_eq s t ≡ true) ↔ (s ≡ t)
unfolding text_eq
text_eq_iff [] [] = ground arith
text_eq_iff [] (d ∷ t) = ground arith
text_eq_iff (c ∷ s) [] = ground arith
text_eq_iff (c ∷ s) (d ∷ t) = ground (arith, text_eq_iff s t)

pub text_eq_refl : (s : Text) → text_eq s s ≡ true
text_eq_refl s = (text_eq_iff s s).1 refl

pub text_eq_comm : (s t : Text) → text_eq s t ≡ text_eq t s
text_eq_comm s t = ground (arith, text_eq_iff s t, text_eq_iff t s)

-- `s.startswith(p)`, the prefix first
unfoldable pub starts_with : Text → Text → Bool
starts_with [] s = true
starts_with (c ∷ p) [] = false
starts_with (c ∷ p) (d ∷ s) = (c == d) && starts_with p s

-- `s` after the prefix `p`, and `none` if it has no such prefix
unfoldable pub drop_prefix : Text → Text → Option Text
drop_prefix [] s = some s
drop_prefix (c ∷ p) [] = none
drop_prefix (c ∷ p) (d ∷ s) = let rest = drop_prefix p s in if c == d then rest else none

pub drop_prefix-append : (p s : Text) → drop_prefix p (p ++ s) ≡ some s
unfolding drop_prefix
drop_prefix-append [] s = refl
drop_prefix-append (c ∷ p) s = ground (arith, drop_prefix-append p s)

pub starts_with-append : (p s : Text) → starts_with p (p ++ s) ≡ true
unfolding starts_with
starts_with-append [] s = refl
starts_with-append (c ∷ p) s = ground (arith, starts_with-append p s)

abbrev pub is_digit : ℕ → Bool
is_digit c = leb b'0' c && leb c b'9'

-- [a-z0-9]
unfoldable pub alnum : ℕ → Bool
alnum c = (leb b'a' c && leb c b'z') || is_digit c

-- Whether the text completes `[a-z0-9]+(?:-[a-z0-9]+)*` (or `(?:-…)+` once there is a dash); the
-- flag says whether the character before it is of [a-z0-9].
unfoldable pub slug : Bool → Text → Bool
unfolding alnum
slug seen [] = seen
slug seen (c ∷ s) = (alnum c || (seen && c == b'-')) && slug (alnum c) s

-- TOKEN_RE
unfoldable pub is_token : Text → Bool
unfolding slug
is_token s = slug false s

-- UID_RE
unfoldable pub is_uid : Text → Bool
unfolding slug
is_uid s = slug false s && any (λ c. c == b'-') s

decimal_from : ℕ → ℕ → Text → Text
decimal_from zero n acc = acc
decimal_from (suc fuel) n acc =
    let rest = decimal_from fuel (n / 10) ((b'0' + n % 10) ∷ acc) in
    if ltb n 10 then (b'0' + n) ∷ acc else rest

-- `str(n)` of a number that is not negative; n has at most n + 1 digits
unfoldable pub decimal : ℕ → Text
unfolding decimal_from
decimal n = decimal_from (suc n) n []
