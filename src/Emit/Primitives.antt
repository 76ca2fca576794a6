-- ===== src/Emit/Primitives.antt =====
-- The primitive types of src/emit_support.cc. A field that the table leaves out has the value that
-- the declaration in src/emit_support.h gives it; `descriptor` and `kind` are not read here.
use tp2cc.Prelude.{
  Bool, Bytes, List, Option, [], codes, false, if◌then◌else◌, leb, leb_ℤ, ltb, negsuc, none, pos,
  same, some, true, ℕ, ℤ, ◌&&◌, ◌==◌, ◌||◌, ◌∷◌,
}

pub data PrimitiveIntKind : Type 0 where
  no_int signed unsigned : PrimitiveIntKind

pub data PrimitiveFloatTier : Type 0 where
  no_float single double extended : PrimitiveFloatTier

pub data PrimitiveFamily : Type 0 where
  other integer real boolean char wide_char string pointer text : PrimitiveFamily

pub record PrimitiveInfo : Type 0 where
  pub cxx : Bytes
  pub family : PrimitiveFamily
  pub int_kind : PrimitiveIntKind
  pub float_tier : PrimitiveFloatTier
  pub bits : ℕ
  pub pointer_sized : Bool
  pub is_ordinal_integer : Bool

abbrev is_none : PrimitiveIntKind → Bool
is_none no_int = true
is_none signed = false
is_none unsigned = false

abbrev pub same_kind : PrimitiveIntKind → PrimitiveIntKind → Bool
same_kind no_int no_int = true
same_kind signed signed = true
same_kind unsigned unsigned = true
same_kind a b = false

-- The shapes of the rows.
abbrev plain_type : Bytes → PrimitiveFamily → PrimitiveInfo
plain_type cxx family = record {
  cxx = cxx;
  family = family;
  int_kind = no_int;
  float_tier = no_float;
  bits = 0;
  pointer_sized = false;
  is_ordinal_integer = false;
}

abbrev real_type : Bytes → PrimitiveFloatTier → PrimitiveInfo
real_type cxx tier = record {
  cxx = cxx;
  family = real;
  int_kind = no_int;
  float_tier = tier;
  bits = 0;
  pointer_sized = false;
  is_ordinal_integer = false;
}

abbrev fixed : Bytes → PrimitiveFamily → PrimitiveIntKind → ℕ → PrimitiveInfo
fixed cxx family kind bits = record {
  cxx = cxx;
  family = family;
  int_kind = kind;
  float_tier = no_float;
  bits = bits;
  pointer_sized = false;
  is_ordinal_integer = false;
}

abbrev address_sized : Bytes → PrimitiveIntKind → PrimitiveInfo
address_sized cxx kind = record {
  cxx = cxx;
  family = integer;
  int_kind = kind;
  float_tier = no_float;
  bits = 0;
  pointer_sized = true;
  is_ordinal_integer = false;
}

abbrev ordinal : Bytes → PrimitiveIntKind → ℕ → PrimitiveInfo
ordinal cxx kind bits = record {
  cxx = cxx;
  family = integer;
  int_kind = kind;
  float_tier = no_float;
  bits = bits;
  pointer_sized = false;
  is_ordinal_integer = true;
}

unfoldable pub primitive_type_map : List (Bytes × PrimitiveInfo)
primitive_type_map =
    (codes "longint", ordinal (codes "int32_t") signed 32)
    ∷ (codes "longword", ordinal (codes "uint32_t") unsigned 32)
    ∷ (codes "smallint", ordinal (codes "int16_t") signed 16)
    ∷ (codes "word", ordinal (codes "uint16_t") unsigned 16)
    ∷ (codes "shortint", ordinal (codes "int8_t") signed 8)
    ∷ (codes "byte", ordinal (codes "uint8_t") unsigned 8)
    ∷ (codes "char", plain_type (codes "::rt::p_char") char)
    ∷ (codes "widechar", fixed (codes "uint16_t") wide_char unsigned 16)
    ∷ (codes "boolean", plain_type (codes "bool") boolean)
    ∷ (codes "bytebool", fixed (codes "uint8_t") boolean unsigned 8)
    ∷ (codes "wordbool", fixed (codes "uint16_t") boolean unsigned 16)
    ∷ (codes "longbool", fixed (codes "uint32_t") boolean unsigned 32)
    ∷ (codes "qwordbool", fixed (codes "uint64_t") boolean unsigned 64)
    ∷ (codes "single", real_type (codes "float") single)
    ∷ (codes "double", real_type (codes "double") double)
    ∷ (codes "real", real_type (codes "double") double)
    ∷ (codes "extended", real_type (codes "long double") extended)
    ∷ (codes "comp", real_type (codes "long double") extended)
    ∷ (codes "pointer", plain_type (codes "void*") pointer)
    ∷ (codes "pchar", plain_type (codes "::rt::p_char*") pointer)
    ∷ (codes "text", plain_type (codes "::rt::tp2cc_TextFile") text)
    ∷ (codes "int64", ordinal (codes "int64_t") signed 64)
    ∷ (codes "qword", ordinal (codes "uint64_t") unsigned 64)
    ∷ (codes "currency", fixed (codes "::rt::t_currency") integer signed 64)
    ∷ (codes "ptrint", address_sized (codes "::rt::t_ptrint") signed)
    ∷ (codes "ptruint", address_sized (codes "::rt::t_ptruint") unsigned)
    ∷ (codes "sizeint", address_sized (codes "::rt::t_sizeint") signed)
    ∷ (codes "sizeuint", address_sized (codes "::rt::t_sizeuint") unsigned)
    ∷ (codes "shortstring", plain_type (codes "::rt::tp2cc_ShortString<>") string)
    ∷ (codes "ansistring", plain_type (codes "::rt::tp2cc_AnsiString") string)
    ∷ (codes "utf8string", plain_type (codes "::rt::tp2cc_AnsiString") string)
    ∷ []

unfoldable pub find_primitive : Bytes → List (Bytes × PrimitiveInfo) → Option PrimitiveInfo
find_primitive name [] = none
find_primitive name ((key, info) ∷ rows) =
    if same key name then some info else find_primitive name rows

unfoldable pub primitive_info : Bytes → Option PrimitiveInfo
unfolding find_primitive primitive_type_map
primitive_info name = find_primitive name primitive_type_map

-- A `std::logic_error` is `none`.
unfoldable pub primitive_bits : PrimitiveInfo → ℕ → Option ℕ
primitive_bits info pointer_bits =
    if is_none info.int_kind
    then none
    else if info.pointer_sized
    then (if pointer_bits == 32 || pointer_bits == 64 then some pointer_bits else none)
    else if info.bits == 0 || ltb 64 info.bits
    then none
    else some info.bits

-- The first row of the kind and the width, of those that Pascal infers a type from.
unfoldable pub first_ordinal :
    PrimitiveIntKind → ℕ → List (Bytes × PrimitiveInfo) → Option PrimitiveInfo
first_ordinal kind bits [] = none
first_ordinal kind bits ((name, info) ∷ rows) =
    if info.is_ordinal_integer && (same_kind info.int_kind kind && info.bits == bits)
    then some info
    else first_ordinal kind bits rows

unfoldable pub ordinal_integer_primitive : PrimitiveIntKind → ℕ → Option PrimitiveInfo
unfolding first_ordinal primitive_type_map
ordinal_integer_primitive kind bits = first_ordinal kind bits primitive_type_map

unfoldable pub primitive_info_for_value : ℤ → Option PrimitiveInfo
unfolding ordinal_integer_primitive
primitive_info_for_value v =
    if leb_ℤ (negsuc 127) v && leb_ℤ v (pos 127)
    then ordinal_integer_primitive signed 8
    else if leb_ℤ (pos 0) v && leb_ℤ v (pos 255)
    then ordinal_integer_primitive unsigned 8
    else if leb_ℤ (negsuc 32767) v && leb_ℤ v (pos 32767)
    then ordinal_integer_primitive signed 16
    else if leb_ℤ (pos 0) v && leb_ℤ v (pos 65535)
    then ordinal_integer_primitive unsigned 16
    else if leb_ℤ (negsuc 0x7FFF_FFFF) v && leb_ℤ v (pos 0x7FFF_FFFF)
    then ordinal_integer_primitive signed 32
    else if leb_ℤ (pos 0) v && leb_ℤ v (pos 0xFFFF_FFFF)
    then ordinal_integer_primitive unsigned 32
    else ordinal_integer_primitive signed 64

-- The type that a shift is computed in; a `std::logic_error` of `primitive_bits` is `none` too.
unfoldable pub shift_carrier_primitive : Option PrimitiveInfo → ℕ → Option PrimitiveInfo
unfolding primitive_bits ordinal_integer_primitive
shift_carrier_primitive none pointer_bits = none
shift_carrier_primitive (some info) pointer_bits = elim (primitive_bits info pointer_bits) [
  | none ↦ none
  | some bits ↦ if leb 64 bits then some info else ordinal_integer_primitive info.int_kind 32
]
