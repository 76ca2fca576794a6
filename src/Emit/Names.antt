-- ===== src/Emit/Names.antt =====
-- The C++ names of src/emit_support.cc.
pub mod Apart
use tp2cc.Prelude.{
  Bool, Bytes, [], codes, if◌then◌else◌, same, within, ℕ, ◌%◌, ◌++◌, ◌+◌, ◌-◌, ◌/◌, ◌==◌, ◌||◌, ◌∷◌,
}
use tp2cc.Emit.Literals.{hex_digit}

unfoldable pub mangle : Bytes → Bytes
mangle name = codes "p_" ++ name

unfoldable pub type_mangle : Bytes → Bytes
type_mangle name = codes "t_" ++ name

unfoldable pub ascii_lower : Bytes → Bytes
ascii_lower [] = []
ascii_lower (c ∷ s) = (if within b'A' b'Z' c then c - b'A' + b'a' else c) ∷ ascii_lower s

unfoldable pub nested_result_slot_name : Bytes → Bytes
unfolding mangle
nested_result_slot_name fn_name = codes "tp2cc_result_" ++ mangle fn_name

unfoldable pub is_pascal_result_ident : Bytes → Bool
unfolding ascii_lower
is_pascal_result_ident name = same (ascii_lower name) (codes "result")

-- A character of a name in a helper's name.
unfoldable pub encode_char : ℕ → Bytes
unfolding hex_digit
encode_char c =
    if within b'A' b'Z' c
    then (c - b'A' + b'a') ∷ []
    else if within b'a' b'z' c || within b'0' b'9' c
    then c ∷ []
    else if c == b'_'
    then b'_' ∷ b'u' ∷ []
    else b'x' ∷ hex_digit (c / 16 % 16) ∷ hex_digit (c % 16) ∷ []

unfoldable pub encode_chars : Bytes → Bytes
encode_chars [] = []
encode_chars (c ∷ s) = encode_char c ++ encode_chars s

unfoldable pub encode_helper_ident : Bytes → Bytes
encode_helper_ident [] = codes "empty"
encode_helper_ident (c ∷ s) = encode_chars (c ∷ s)

unfoldable pub enum_bound_name : Bytes → Bytes → Bytes
enum_bound_name type_name which =
    codes "tp2cc_enum_" ++ (which ++ (codes "_" ++ encode_helper_ident type_name))

unfoldable pub unit_namespace_prefix : Bytes → Bytes
unfolding mangle
unit_namespace_prefix unit_name =
    if same unit_name (codes "__rt__")
    then codes "::rt::"
    else codes "::" ++ (mangle unit_name ++ codes "::")
