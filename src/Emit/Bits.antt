-- ===== src/Emit/Bits.antt =====
-- The bit widths of src/emit_support.cc. A width outside of [1, 64] throws `std::logic_error`, which
-- is `none`; an `int64_t` is the integer that it stands for.
pub mod Sums
use tp2cc.Prelude.{
  Bool, Option, if◌then◌else◌, ltb, ltb_ℤ, none, pos, some, true, ℕ, ℤ, ◌%◌, ◌&&◌, ◌+ℤ◌, ◌-ℤ◌, ◌-◌,
  ◌==◌, ◌^◌, ◌||◌,
}
use tp2cc.Runtime.Integers.{IntType, bits_64, max_of, min_of}

abbrev pub uint64_max : ℕ
uint64_max = 0xFFFF_FFFF_FFFF_FFFF

abbrev pub int64 : IntType
int64 = record { width = bits_64; is_signed = true }

abbrev pub bad_width : ℕ → Bool
bad_width bits = bits == 0 || ltb 64 bits

unfoldable pub low_bits : ℕ → ℕ → Option ℕ
low_bits value bits =
    if bad_width bits then none else if bits == 64 then some value else some (value % 2 ^ bits)

unfoldable pub unsigned_mask_for_bits : ℕ → Option ℕ
unsigned_mask_for_bits bits =
    if bad_width bits then none else if bits == 64 then some uint64_max else some (2 ^ bits - 1)

unfoldable pub signed_min_for_bits : ℕ → Option ℤ
signed_min_for_bits bits =
    if bad_width bits
    then none
    else if bits == 64
    then some (min_of int64)
    else some (pos 0 -ℤ pos (2 ^ (bits - 1)))

unfoldable pub signed_max_for_bits : ℕ → Option ℤ
signed_max_for_bits bits =
    if bad_width bits
    then none
    else if bits == 64
    then some (max_of int64)
    else some (pos (2 ^ (bits - 1)) -ℤ pos 1)

-- The integer operations of the constant evaluator, `none` where they overflow.
unfoldable pub checked_add_int64 : ℤ → ℤ → Option ℤ
checked_add_int64 a b =
    if (ltb_ℤ (pos 0) b && ltb_ℤ (max_of int64 -ℤ b) a)
      || (ltb_ℤ b (pos 0) && ltb_ℤ a (min_of int64 -ℤ b))
    then none
    else some (a +ℤ b)

unfoldable pub checked_sub_int64 : ℤ → ℤ → Option ℤ
checked_sub_int64 a b =
    if (ltb_ℤ b (pos 0) && ltb_ℤ (max_of int64 +ℤ b) a)
      || (ltb_ℤ (pos 0) b && ltb_ℤ a (min_of int64 +ℤ b))
    then none
    else some (a -ℤ b)
