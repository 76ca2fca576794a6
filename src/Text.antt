-- ===== src/Text.antt =====
-- Character classes and byte-string helpers: the anonymous namespaces of src/lexer.cc and
-- `Lexer::lower`. A `char` is its byte, 0 to 255; the end of an input reads as 0.
pub mod Lower
pub mod Trim
use tp2cc.Prelude.{Bool, Bytes, [], if◌then◌else◌, within, ℕ, ◌&&◌, ◌+◌, ◌-◌, ◌==◌, ◌||◌, ◌∷◌}
use mathlib.Core.List.{reverse}

unfoldable pub is_ident_start : ℕ → Bool
is_ident_start c = within b'A' b'Z' c || within b'a' b'z' c || c == b'_'

unfoldable pub is_digit : ℕ → Bool
is_digit c = within b'0' b'9' c

unfoldable pub is_ident_cont : ℕ → Bool
unfolding is_ident_start
is_ident_cont c = is_ident_start c || within b'0' b'9' c

unfoldable pub is_hex : ℕ → Bool
unfolding is_digit
is_hex c = is_digit c || within b'a' b'f' c || within b'A' b'F' c

unfoldable pub hex_val : ℕ → ℕ
hex_val c =
    if within b'0' b'9' c
    then c - b'0'
    else if within b'a' b'f' c
    then 10 + (c - b'a')
    else 10 + (c - b'A')

-- `std::isalnum` in the "C" locale
unfoldable pub is_alnum : ℕ → Bool
is_alnum c = within b'0' b'9' c || within b'A' b'Z' c || within b'a' b'z' c

unfoldable pub lower_char : ℕ → ℕ
lower_char c = if within b'A' b'Z' c then c - b'A' + b'a' else c

unfoldable pub lower : Bytes → Bytes
unfolding lower_char
lower [] = []
lower (c ∷ s) = lower_char c ∷ lower s

unfoldable pub is_space : ℕ → Bool
is_space c = c == b' ' || c == b'\t' || c == 13 || c == b'\n'

-- The first loop of `trim`: `++a` while `s[a]` is blank.
unfoldable pub trim_front : Bytes → Bytes
unfolding is_space
trim_front [] = []
trim_front (c ∷ s) = if is_space c then trim_front s else c ∷ s

-- The second loop: `--b` while `s[b - 1]` is blank.
unfoldable pub trim : Bytes → Bytes
unfolding trim_front
trim s = reverse (trim_front (reverse (trim_front s)))

-- Blanks inside a directive: `' '` and `'\t'` only.
unfoldable pub skip_blanks : Bytes → Bytes
skip_blanks [] = []
skip_blanks (c ∷ s) = if c == b' ' || c == b'\t' then skip_blanks s else c ∷ s

-- `initial_input_pos`: what is left to read behind a UTF-8 byte order mark.
unfoldable pub skip_bom : Bytes → Bytes
skip_bom (a ∷ b ∷ c ∷ s) = if a == 0xef && b == 0xbb && c == 0xbf then s else a ∷ b ∷ c ∷ s
skip_bom s = s
