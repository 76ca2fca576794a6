-- ===== src/Runtime/Integers/Range.antt =====
-- `tp2cc_range_check_assign` beside the values that the destination type has.
use tp2cc.Prelude.{Bool, arith, if◌then◌else◌, ltb, not, true, ℤ, ◌&&◌, ◌||◌, ◌≡◌}
use tp2cc.Runtime.Integers.{
  IntType, Width, bits_16, bits_32, bits_64, bits_8, cast, fits, integer_from_bits, out_of_range,
  patterns, range_check_assign, range_error, returned, thrown, to_bits,
}
use tp2cc.Runtime.Integers.Wrapping.{cast-fits}

-- A signed type that is wider than the signed source.
abbrev pub widens_signed : IntType → IntType → Bool
widens_signed dst from =
    dst.is_signed && (from.is_signed && ltb (patterns from.width) (patterns dst.width))

out_of_range_at :
    (d f : Width) (s t : Bool) (a : ℤ)
    → fits (record { width = f; is_signed = t }) a ≡ true
    → out_of_range (record { width = d; is_signed = s }) (record { width = f; is_signed = t }) a ≡ (
        widens_signed (record { width = d; is_signed = s }) (record { width = f; is_signed = t })
        || not (fits (record { width = d; is_signed = s }) a))
unfolding out_of_range cast integer_from_bits to_bits
out_of_range_at bits_8 bits_8 s t a h = ground arith
out_of_range_at bits_8 bits_16 s t a h = ground arith
out_of_range_at bits_8 bits_32 s t a h = ground arith
out_of_range_at bits_8 bits_64 s t a h = ground arith
out_of_range_at bits_16 bits_8 s t a h = ground arith
out_of_range_at bits_16 bits_16 s t a h = ground arith
out_of_range_at bits_16 bits_32 s t a h = ground arith
out_of_range_at bits_16 bits_64 s t a h = ground arith
out_of_range_at bits_32 bits_8 s t a h = ground arith
out_of_range_at bits_32 bits_16 s t a h = ground arith
out_of_range_at bits_32 bits_32 s t a h = ground arith
out_of_range_at bits_32 bits_64 s t a h = ground arith
out_of_range_at bits_64 bits_8 s t a h = ground arith
out_of_range_at bits_64 bits_16 s t a h = ground arith
out_of_range_at bits_64 bits_32 s t a h = ground arith
out_of_range_at bits_64 bits_64 s t a h = ground arith

-- The checked assignment of a value of the source type returns the value unchanged where the
-- destination has it, and throws the range error where it does not; but from a signed type to a
-- wider signed one it throws on every value.
pub range_check_assign_lem :
    (dst from : IntType) (a : ℤ)
    → fits from a ≡ true
    → range_check_assign dst from a
      ≡ (if widens_signed dst from || not (fits dst a) then thrown range_error else returned a)
unfolding range_check_assign
range_check_assign_lem dst from a h =
    ground (
      arith,
      out_of_range_at dst.width from.width dst.is_signed from.is_signed a h,
      cast-fits dst a,
    )
