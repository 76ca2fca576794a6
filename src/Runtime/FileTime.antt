-- ===== src/Runtime/FileTime.antt =====
-- The DOS file times of include/tp2cc_rt/prelude.h: the fields of a `std::tm` in one int32.
pub mod Packed
use tp2cc.Prelude.{Bool, leb_ℤ, ltb_ℤ, pos, true, ℕ, ℤ, ◌%◌, ◌&&◌, ◌*ℤ◌, ◌*◌, ◌+ℤ◌, ◌+◌, ◌-ℤ◌, ◌/◌}
use tp2cc.Runtime.Integers.{IntType, bits_32, cast, quotient, to_bits}

-- The fields of `std::tm` that a file time has.
pub record Tm : Type 0 where
  pub tm_sec : ℤ
  pub tm_min : ℤ
  pub tm_hour : ℤ
  pub tm_mday : ℤ
  pub tm_mon : ℤ
  pub tm_year : ℤ

abbrev pub int32 : IntType
int32 = record { width = bits_32; is_signed = true }

-- `static_cast<uint32_t>` of an int.
abbrev pub as_uint32 : ℤ → ℕ
as_uint32 a = to_bits 0x1_0000_0000 a

-- The masked fields stand in different bits, so that `|` is their sum.
unfoldable pub pack_local_tm_as_dos_filetime : Tm → ℤ
unfolding cast to_bits
pack_local_tm_as_dos_filetime lt = cast int32 (
    pos (
      as_uint32 (lt.tm_year -ℤ pos 80) % 128 * 0x200_0000
      + as_uint32 (lt.tm_mon +ℤ pos 1) % 16 * 0x20_0000
      + as_uint32 lt.tm_mday % 32 * 0x1_0000
      + as_uint32 lt.tm_hour % 32 * 0x800
      + as_uint32 lt.tm_min % 64 * 0x20
      + as_uint32 (quotient lt.tm_sec (pos 2)) % 32))

-- `out` of `tp2cc_unpack_dos_filetime_to_local_tm`
unfoldable pub unpacked_tm : ℤ → Tm
unfolding cast to_bits
unpacked_tm packed =
    let value = as_uint32 packed in
    record {
      tm_sec = cast int32 (pos (value % 32)) *ℤ pos 2;
      tm_min = cast int32 (pos (value / 0x20 % 64));
      tm_hour = cast int32 (pos (value / 0x800 % 32));
      tm_mday = cast int32 (pos (value / 0x1_0000 % 32));
      tm_mon = cast int32 (pos ((value / 0x20_0000 % 16 + 0xFFFF_FFFF) % 0x1_0000_0000));
      tm_year = cast int32 (pos (value / 0x200_0000 % 128 + 80));
    }

-- What the function returns beside it.
unfoldable pub is_civil : Tm → Bool
is_civil out =
    leb_ℤ (pos 0) out.tm_mon
    && ltb_ℤ out.tm_mon (pos 12)
    && leb_ℤ (pos 1) out.tm_mday
    && leb_ℤ out.tm_mday (pos 31)
    && ltb_ℤ out.tm_hour (pos 24)
    && ltb_ℤ out.tm_min (pos 60)
    && ltb_ℤ out.tm_sec (pos 60)

unfoldable pub unpack_dos_filetime_to_local_tm : ℤ → Bool × Tm
unpack_dos_filetime_to_local_tm packed = let out = unpacked_tm packed in (is_civil out, out)
