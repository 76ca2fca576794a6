-- ===== src/Emit/Literals.antt =====
-- The literals of the emitted C++: `char_literal_body_to_cxx` and the bit patterns of
-- src/emit_support.cc, and the string literals of src/emit.cc.
pub mod Characters
pub mod RoundTrip
use tp2cc.Prelude.{
  Bool, Bytes, [], codes, false, if◌then◌else◌, leb, ltb, true, ℕ, ◌%◌, ◌++◌, ◌+◌, ◌-◌, ◌/◌, ◌==◌,
  ◌||◌, ◌∷◌,
}

-- One digit of `%02x`.
unfoldable pub hex_digit : ℕ → ℕ
hex_digit d = if ltb d 10 then d + b'0' else d - 10 + b'a'

-- `c` is the byte of the `char`.
unfoldable pub char_literal_body_to_cxx : ℕ → Bytes
char_literal_body_to_cxx c =
    if c == b'\\'
    then b'\\' ∷ b'\\' ∷ []
    else if c == 10
    then b'\\' ∷ b'n' ∷ []
    else if c == 13
    then b'\\' ∷ b'r' ∷ []
    else if c == 9
    then b'\\' ∷ b't' ∷ []
    else if c == 0
    then b'\\' ∷ b'0' ∷ []
    else if c == b'\''
    then b'\\' ∷ b'\'' ∷ []
    else if ltb c 0x20 || leb 0x7f c
    then b'\\' ∷ b'x' ∷ hex_digit (c / 16) ∷ hex_digit (c % 16) ∷ []
    else c ∷ []

abbrev pub char_of_call : Bytes
char_of_call = codes "::rt::tp2cc_char_of('"

abbrev pub char_call : ℕ → Bytes
char_call c = char_of_call ++ (char_literal_body_to_cxx c ++ codes "')")

-- The loop over the characters, with `first`.
unfoldable pub literal_items : Bool → Bytes → Bytes
literal_items first [] = []
literal_items first (c ∷ s) =
    (if first then [] else codes ", ") ++ (char_call c ++ literal_items false s)

-- A literal of one character is a character.
unfoldable pub string_literal_to_cxx : Bytes → Bytes
unfolding literal_items
string_literal_to_cxx (c ∷ []) = char_call c
string_literal_to_cxx s =
    codes "::rt::tp2cc_shortstring_literal<255>(" ++ (literal_items true s ++ codes ")")
