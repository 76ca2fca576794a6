-- ===== src/Runtime/FileTime/Packed.antt =====
-- Packing what was unpacked.
use tp2cc.Prelude.{
  ap, arith, negsuc, pos, refl, suc, true, zero, ℕ, ℤ, ◌%◌, ◌*ℤ◌, ◌*◌, ◌+ℤ◌, ◌+◌, ◌-ℤ◌, ◌/◌, ◌<◌,
  ◌∙◌, ◌≡◌,
}
use tp2cc.Runtime.Integers.{cast, fits, integer_from_bits, quotient, to_bits}
use tp2cc.Runtime.Integers.Wrapping.{cast-fits}
use tp2cc.Runtime.FileTime.{
  as_uint32, int32, pack_local_tm_as_dos_filetime, unpack_dos_filetime_to_local_tm, unpacked_tm,
}

split_value :
    (v : ℕ)
    → v < 0x1_0000_0000
    → (v / 0x200_0000 % 128 % 0x1_0000_0000 % 128 * 0x200_0000
          + v / 0x20_0000 % 16 % 0x1_0000_0000 % 16 * 0x20_0000
          + v / 0x1_0000 % 32 % 0x1_0000_0000 % 32 * 0x1_0000
          + v / 0x800 % 32 % 0x1_0000_0000 % 32 * 0x800
          + v / 0x20 % 64 % 0x1_0000_0000 % 64 * 0x20
          + v % 32 % 0x1_0000_0000 % 32)
        % 0x1_0000_0000
      ≡ v
split_value v h = omega arith

as_uint32_bound : (a : ℤ) → as_uint32 a < 0x1_0000_0000
unfolding to_bits
as_uint32_bound (pos n) = omega arith
as_uint32_bound (negsuc n) = omega arith

small : (n : ℕ) → n < 0x8000_0000 → cast int32 (pos n) ≡ pos n
small n h = cast-fits int32 (pos n) (ground arith)

small_quotient : (n : ℕ) → quotient (pos n *ℤ pos 2) (pos 2) ≡ pos n
unfolding quotient ◌*ℤ◌
small_quotient n = ground arith

-- The month of `std::tm` counts from 0, and wraps to -1 behind the month 0.
month : (x : ℕ) → x < 16 → cast int32 (pos ((x + 0xFFFF_FFFF) % 0x1_0000_0000)) +ℤ pos 1 ≡ pos x
unfolding cast integer_from_bits to_bits ◌+ℤ◌
month zero h = refl
month (suc x) h =
    let w : (suc x + 0xFFFF_FFFF) % 0x1_0000_0000 ≡ x = omega arith in
    ap (λ n. cast int32 (pos n) +ℤ pos 1) w
    ∙ ap (λ z. z +ℤ pos 1) (small x (omega arith))
    ∙ ground arith

year : (x : ℕ) → x < 128 → cast int32 (pos (x + 80)) -ℤ pos 80 ≡ pos x
unfolding ◌-ℤ◌
year x h = ap (λ z. z -ℤ pos 80) (small (x + 80) (omega arith)) ∙ ground arith

-- The civil fields that an int32 unpacks to, valid ones or not, pack to the same int32.
pub pack-unpack :
    (packed : ℤ)
    → fits int32 packed ≡ true
    → pack_local_tm_as_dos_filetime (unpack_dos_filetime_to_local_tm packed).1 ≡ packed
unfolding cast pack_local_tm_as_dos_filetime unpacked_tm unpack_dos_filetime_to_local_tm
pack-unpack packed h =
    let v = as_uint32 packed in
    rw
      (
        year (v / 0x200_0000 % 128) (omega arith),
        month (v / 0x20_0000 % 16) (omega arith),
        small (v / 0x1_0000 % 32) (omega arith),
        small (v / 0x800 % 32) (omega arith),
        small (v / 0x20 % 64) (omega arith),
        small (v % 32) (omega arith),
        small_quotient (v % 32),
      )
      (ap (integer_from_bits int32) (split_value v (as_uint32_bound packed))
        ∙ cast-fits int32 packed h)
