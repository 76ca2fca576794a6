-- ===== src/Runtime/Val.antt =====
-- `tp2cc_parse_pascal_integer` of include/tp2cc_rt/prelude.h, which `Val` calls. The reader's place is
-- the text from there with its index.
pub mod Decimal
use tp2cc.Prelude.{
  Bool, Bytes, Option, [], false, if◌then◌else◌, inl, inr, leb, ltb, none, not, pos, some, true, ℕ,
  ℤ, ◌%◌, ◌&&◌, ◌*◌, ◌+◌, ◌-◌, ◌/◌, ◌==◌, ◌||◌, ◌∷◌, ◌⊎◌,
}
use tp2cc.Runtime.Integers.{IntType, cast, half, patterns}

-- `none` is the -1 of the source.
unfoldable pub digit_value : ℕ → Option ℕ
digit_value c =
    if leb b'0' c && leb c b'9'
    then some (c - b'0')
    else if leb b'a' c && leb c b'f'
    then some (c - b'a' + 10)
    else if leb b'A' c && leb c b'F'
    then some (c - b'A' + 10)
    else none

-- The two output parameters; `code` is 0, or the position of the error, from 1.
pub record Parsed : Type 0 where
  pub out : ℤ
  pub code : ℕ

abbrev pub fail : ℕ → Parsed
fail i = record { out = pos 0; code = i + 1 }

-- `while (i < buf.size() && (buf[i] == ' ' || buf[i] == '\t')) ++i`
unfoldable pub skip_spaces : Bytes → ℕ → Bytes × ℕ
skip_spaces [] i = ([], i)
skip_spaces (c ∷ s) i = elim (c == b' ' || c == 9) [
  | true ↦ skip_spaces s (i + 1)
  | false ↦ (c ∷ s, i)
]

-- Whether there was a minus sign.
unfoldable pub read_sign : Bytes × ℕ → Bool × (Bytes × ℕ)
read_sign ([], i) = (false, ([], i))
read_sign (c ∷ s, i) =
    if c == b'+' || c == b'-' then (c == b'-', (s, i + 1)) else (false, (c ∷ s, i))

-- `while ((i + 1) < buf.size() && buf[i] == '0') ++i`
unfoldable pub skip_zeros : Bytes → ℕ → Bytes × ℕ
skip_zeros [] i = ([], i)
skip_zeros (c ∷ []) i = (c ∷ [], i)
skip_zeros (c ∷ d ∷ s) i = elim (c == b'0') [
  | true ↦ skip_zeros (d ∷ s) (i + 1)
  | false ↦ (c ∷ d ∷ s, i)
]

unfoldable pub read_base : Bytes × ℕ → ℕ × (Bytes × ℕ)
unfolding skip_zeros
read_base ([], i) = (10, ([], i))
read_base (c ∷ s, i) =
    if c == b'$'
    then (16, skip_zeros s (i + 1))
    else if c == b'&'
    then (8, (s, i + 1))
    else if c == b'%'
    then (2, (s, i + 1))
    else (10, (c ∷ s, i))

unfoldable pub max_value : IntType → ℕ → Bool → ℕ
max_value R base negative =
    if R.is_signed && base == 10
    then (if negative then half R.width else half R.width - 1)
    else patterns R.width - 1

-- The index of the first character that cannot be taken, or the value.
unfoldable pub read_digits : ℕ → ℕ → Bytes → ℕ → ℕ → ℕ ⊎ ℕ
read_digits base limit [] i value = inr value
read_digits base limit (c ∷ s) i value = elim (digit_value c) [
  | none ↦ inl i
  | some d ↦ elim (leb base d || (ltb (limit / base) value || ltb (limit - d) (value * base))) [
    | true ↦ inl i
    | false ↦ read_digits base limit s (i + 1) (value * base + d)
  ]
]

-- The value of the digits with the sign, in the type.
unfoldable pub finish : IntType → Bool → ℕ ⊎ ℕ → Parsed
finish R negative (inl i) = fail i
finish R negative (inr value) = record {
  out = cast R (
      pos
        (if R.is_signed && negative then (patterns R.width - value) % patterns R.width else value));
  code = 0;
}

-- Behind the sign and the prefix. At least one character is left when the digits are read, so the
-- loop that ends without an error has read one.
unfoldable pub parse_number : IntType → Bool → ℕ → Bytes × ℕ → Parsed
parse_number R negative base ([], i) = fail i
parse_number R negative base (c ∷ s, i) =
    if not R.is_signed && negative
    then fail i
    else finish R negative (read_digits base (max_value R base negative) (c ∷ s) i 0)

abbrev pub parse_based : IntType → Bool → ℕ × (Bytes × ℕ) → Parsed
parse_based R negative (base, place) = parse_number R negative base place

abbrev pub parse_signed : IntType → Bool × (Bytes × ℕ) → Parsed
parse_signed R (negative, place) = parse_based R negative (read_base place)

unfoldable pub parse_pascal_integer : IntType → Bytes → Parsed
parse_pascal_integer R buf = parse_signed R (read_sign (skip_spaces buf 0))
