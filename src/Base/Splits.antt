-- ===== src/Base/Splits.antt =====
-- Python's `str.split`, `str.partition`, `str.endswith` and substring tests.
use ai_bobnet.Base.Tests.{◌==◌, if◌then◌else◌}
use ai_bobnet.Base.Strings.{Text, text_eq, starts_with}
use Prim.Native.Nat.{ℕ}
use mathlib.Core.Bool.{Bool, true, false, ◌||◌}
use mathlib.Core.List.{List, [], ◌∷◌}

-- `line.partition(c)`: the part before it, whether it is there, and the rest
unfoldable pub partition : ℕ → Text → Text × Bool × Text
partition sep [] = ([], false, [])
partition sep (c ∷ s) =
    let (key, found, value) = partition sep s in
    if c == sep then ([], true, s) else (c ∷ key, found, value)

abbrev cons_head : ℕ → List Text → List Text
cons_head c [] = (c ∷ []) ∷ []
cons_head c (part ∷ parts) = (c ∷ part) ∷ parts

-- `s.split(c)`: always one part at least
unfoldable pub split : ℕ → Text → List Text
split sep [] = [] ∷ []
split sep (c ∷ s) = let rest = split sep s in if c == sep then [] ∷ rest else cons_head c rest

-- `s.endswith(t)`, the suffix first
unfoldable pub ends_with : Text → Text → Bool
ends_with t [] = text_eq t []
ends_with t (c ∷ s) = text_eq t (c ∷ s) || ends_with t s

-- `t in s`, the part first
unfoldable pub has_part : Text → Text → Bool
has_part t [] = starts_with t []
has_part t (c ∷ s) = starts_with t (c ∷ s) || has_part t s
