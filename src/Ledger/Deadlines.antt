-- ===== src/Ledger/Deadlines.antt =====
-- `valid_deadline` of lib/task_ledger.py: DEADLINE_RE, and the calendar that `strptime` checks.
use ai_bobnet.Base.{
  ℕ, ◌+◌, ◌*◌, ◌-◌, ◌%◌, Text, codes, Bool, true, false, not, ◌&&◌, ◌||◌, [], ◌∷◌, leb, is_digit,
  take, drop, ◌==◌, if◌then◌else◌,
}
use ai_bobnet.Json.{Value, str}

-- The shape has `0` where any digit may stand, and is literal elsewhere.
unfoldable pub has_shape : Text → Text → Bool
has_shape [] [] = true
has_shape [] (c ∷ s) = false
has_shape (p ∷ shape) [] = false
has_shape (p ∷ shape) (c ∷ s) = (if p == b'0' then is_digit c else c == p) && has_shape shape s

-- the number that a run of digits writes
unfoldable pub digits_value : ℕ → Text → ℕ
digits_value n [] = n
digits_value n (c ∷ s) = digits_value (n * 10 + (c - b'0')) s

abbrev part : ℕ → ℕ → Text → ℕ
part start width s = digits_value 0 (take width (drop start s))

abbrev pub is_leap : ℕ → Bool
is_leap y = (y % 4 == 0) && (not (y % 100 == 0) || (y % 400 == 0))

unfoldable pub days_in_month : ℕ → ℕ → ℕ
days_in_month y m =
    if m == 2
    then (if is_leap y then 29 else 28)
    else if m == 4 || (m == 6 || (m == 9 || m == 11))
    then 30
    else 31

unfoldable pub real_second : ℕ → ℕ → ℕ → ℕ → ℕ → ℕ → Bool
unfolding days_in_month
real_second y m d h mi s =
    leb 1 y
    && (leb 1 m && leb m 12)
    && (leb 1 d && leb d (days_in_month y m))
    && leb h 23
    && leb mi 59
    && leb s 59

unfoldable pub valid_deadline_text : Text → Bool
unfolding has_shape digits_value real_second
valid_deadline_text s =
    has_shape (codes "0000-00-00T00:00:00Z") s
    && real_second (part 0 4 s) (part 5 2 s) (part 8 2 s) (part 11 2 s) (part 14 2 s) (part 17 2 s)

unfoldable pub valid_deadline : Value → Bool
unfolding valid_deadline_text
valid_deadline (str s) = valid_deadline_text s
valid_deadline _ = false
