-- ===== src/Emit/Bits/Sums.antt =====
-- The overflow tests of the constant sums beside the exact sum.
use tp2cc.Prelude.{arith, if◌then◌else◌, none, some, true, ℤ, ◌+ℤ◌, ◌-ℤ◌, ◌≡◌}
use tp2cc.Runtime.Integers.{fits}
use tp2cc.Emit.Bits.{checked_add_int64, checked_sub_int64, int64}

-- `checked_add_int64` and `checked_sub_int64` give the exact sum and difference of two `int64_t`s
-- where `int64_t` has it, and fail elsewhere: just as the runtime's checked operations throw.
pub checked_int64-exact :
    (a b : ℤ)
    → fits int64 a ≡ true
    → fits int64 b ≡ true
    → (checked_add_int64 a b ≡ (if fits int64 (a +ℤ b) then some (a +ℤ b) else none))
      × (checked_sub_int64 a b ≡ (if fits int64 (a -ℤ b) then some (a -ℤ b) else none))
unfolding checked_add_int64 checked_sub_int64 ◌+ℤ◌ ◌-ℤ◌
checked_int64-exact a b h k = (ground arith, ground arith)
