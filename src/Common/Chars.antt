-- ===== src/Common/Chars.antt =====
-- Code units of JavaScript strings, and the classes that the program's regular expressions name.
use Prim.Native.Nat.{ℕ, ◌+◌}
use mathlib.Core.Bool.{Bool, ◌&&◌, ◌||◌}
use bunny_cli_fork.Common.Tests.{leb, ◌==◌, if◌then◌else◌}

abbrev pub newline : ℕ
newline = 10

-- \s, which is also what `trim` removes.
unfoldable pub is_space : ℕ → Bool
is_space c =
    (leb 9 c && leb c 13)
    || c == 32
    || c == 0xa0
    || c == 0x1680
    || (leb 0x2000 c && leb c 0x200a)
    || c == 0x2028
    || c == 0x2029
    || c == 0x202f
    || c == 0x205f
    || c == 0x3000
    || c == 0xfeff

unfoldable pub is_digit : ℕ → Bool
is_digit c = leb b'0' c && leb c b'9'

unfoldable pub is_lower : ℕ → Bool
is_lower c = leb b'a' c && leb c b'z'

unfoldable pub is_upper : ℕ → Bool
is_upper c = leb b'A' c && leb c b'Z'

-- \w, without the u flag.
unfoldable pub is_word : ℕ → Bool
unfolding is_digit is_lower is_upper
is_word c = is_digit c || is_lower c || is_upper c || c == b'_'

-- The letters of ASCII in lower case; every other code unit stays.
unfoldable pub lower : ℕ → ℕ
unfolding is_upper
lower c = if is_upper c then c + 32 else c
