-- ===== src/Prelude/Text.antt =====
-- Rust's `str::trim`, `is_empty` and `to_ascii_lowercase` on native texts.
use Prim.Native.Nat.{ℕ, zero, suc, ◌-◌}
use Prim.Native.Char.{Char, code}
use Prim.Native.String.{String, [], ◌∷◌}
use mathlib.Core.Bool.{Bool, true, false, ◌&&◌, ◌||◌}
use legal_genie_agent.Prelude.Tests.{leb, ◌==◌, if◌then◌else◌}

-- The characters with the Unicode property White_Space.
unfoldable pub is_whitespace : ℕ → Bool
is_whitespace c =
    (leb 9 c && leb c 13)
    || c == 32
    || c == 0x85
    || c == 0xA0
    || c == 0x1680
    || (leb 0x2000 c && leb c 0x200A)
    || c == 0x2028
    || c == 0x2029
    || c == 0x202F
    || c == 0x205F
    || c == 0x3000

abbrev pub is_empty : String → Bool
is_empty [] = true
is_empty (c ∷ s) = false

unfoldable pub trim_start : String → String
unfolding is_whitespace
trim_start [] = []
trim_start (c ∷ s) = if is_whitespace (code c) then trim_start s else c ∷ s

unfoldable pub trim_end : String → String
unfolding is_whitespace
trim_end [] = []
trim_end (c ∷ s) =
    let rest = trim_end s in if is_whitespace (code c) && is_empty rest then [] else c ∷ rest

unfoldable pub trim : String → String
unfolding trim_start trim_end
trim s = trim_end (trim_start s)

-- The character at an index, or the one given.
unfoldable pub char_at_or : String → ℕ → Char → Char
char_at_or [] n d = d
char_at_or (c ∷ s) zero d = c
char_at_or (c ∷ s) (suc n) d = char_at_or s n d

unfoldable pub lower : Char → Char
unfolding char_at_or
lower c =
    if leb 65 (code c) && leb (code c) 90
    then char_at_or "abcdefghijklmnopqrstuvwxyz" (code c - 65) c
    else c

unfoldable pub to_ascii_lowercase : String → String
unfolding lower
to_ascii_lowercase [] = []
to_ascii_lowercase (c ∷ s) = lower c ∷ to_ascii_lowercase s
