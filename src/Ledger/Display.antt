-- ===== src/Ledger/Display.antt =====
-- The filter for text that an operator will see: `safe_display_text` of lib/task_ledger.py.
use ai_bobnet.Base.{
  ℕ, ◌%◌, Text, Bool, true, false, ◌&&◌, ◌||◌, List, [], ◌∷◌, leb, any, ◌==◌, if◌then◌else◌,
}

-- DISPLAY_BLOCK_RANGES
abbrev pub display_block_ranges : List (ℕ × ℕ)
display_block_ranges =
    (0x0000, 0x001F)
    ∷ (0x007F, 0x009F)
    ∷ (0x00AD, 0x00AD)
    ∷ (0x034F, 0x034F)
    ∷ (0x0600, 0x0605)
    ∷ (0x061C, 0x061C)
    ∷ (0x06DD, 0x06DD)
    ∷ (0x070F, 0x070F)
    ∷ (0x0890, 0x0891)
    ∷ (0x08E2, 0x08E2)
    ∷ (0x115F, 0x1160)
    ∷ (0x17B4, 0x17B5)
    ∷ (0x180E, 0x180E)
    ∷ (0x200B, 0x200F)
    ∷ (0x2028, 0x202E)
    ∷ (0x2060, 0x2064)
    ∷ (0x2066, 0x206F)
    ∷ (0xD800, 0xDFFF)
    ∷ (0xE000, 0xF8FF)
    ∷ (0xFE00, 0xFE0F)
    ∷ (0xFEFF, 0xFEFF)
    ∷ (0x3164, 0x3164)
    ∷ (0xFFA0, 0xFFA0)
    ∷ (0xFFF9, 0xFFFB)
    ∷ (0x110BD, 0x110BD)
    ∷ (0x110CD, 0x110CD)
    ∷ (0x13430, 0x1343F)
    ∷ (0x1BCA0, 0x1BCAF)
    ∷ (0x1D173, 0x1D17A)
    ∷ (0xF0000, 0xFFFFD)
    ∷ (0x100000, 0x10FFFD)
    ∷ (0xE0000, 0xE007F)
    ∷ (0xE0100, 0xE01EF)
    ∷ []

abbrev pub in_range : ℕ → ℕ × ℕ → Bool
in_range point (start, finish) = leb start point && leb point finish

-- the two tests on one code point
unfoldable pub blocked_point : ℕ → Bool
blocked_point point =
    any (in_range point) display_block_ranges
    || ((leb 0xFDD0 point && leb point 0xFDEF)
        || (point % 65536 == 0xFFFE || point % 65536 == 0xFFFF))

unfoldable pub safe_display_text : Text → Bool
unfolding blocked_point
safe_display_text [] = true
safe_display_text (point ∷ rest) =
    let r = safe_display_text rest in if blocked_point point then false else r
