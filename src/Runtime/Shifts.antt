-- ===== src/Runtime/Shifts.antt =====
-- `p_shl` and `p_shr` of include/tp2cc_rt/prelude.h: the shift count is masked to the width of the
-- carrier, and `p_shr` is logical on signed carriers too.
use tp2cc.Prelude.{ℕ, ℤ, ◌%◌, ◌*◌, ◌/◌, ◌^◌}
use tp2cc.Runtime.Integers.{
  IntType, Width, bits_64, integer_from_bits, patterns, to_bits, u64, width_bits,
}

abbrev pub u32 : ℕ
u32 = 0x1_0000_0000

-- `static_cast<uint64_t>(shift) & (kBits - 1)`
unfoldable pub shift_amount : Width → ℤ → ℕ
unfolding to_bits
shift_amount w shift = to_bits u64 shift % width_bits w

-- The shifted bits, before the casts to the carrier.
unfoldable pub shl_bits : Width → ℕ → ℕ → ℕ
shl_bits bits_64 bits amount = bits * 2 ^ amount % u64 % u64
shl_bits w bits amount = bits % u32 * 2 ^ amount % u32 % patterns w

unfoldable pub p_shl : IntType → ℤ → ℤ → ℤ
unfolding shift_amount shl_bits
p_shl carrier value shift = integer_from_bits carrier (
    shl_bits carrier.width (to_bits (patterns carrier.width) value)
      (shift_amount carrier.width shift))

unfoldable pub p_shr : IntType → ℤ → ℤ → ℤ
unfolding shift_amount
p_shr carrier value shift =
    integer_from_bits carrier
      (to_bits (patterns carrier.width) value / 2 ^ shift_amount carrier.width shift)
