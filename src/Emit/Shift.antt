-- ===== src/Emit/Shift.antt =====
-- `checked_pascal_shift_int64_impl` of src/emit_support.cc, the constant `shl` and `shr`.
pub mod Runtime
use tp2cc.Prelude.{
  Bool, Option, if◌then◌else◌, ltb, none, pos, some, ℕ, ℤ, ◌%◌, ◌*◌, ◌+◌, ◌-◌, ◌/◌, ◌==◌, ◌^◌, ◌||◌,
}
use tp2cc.Runtime.Integers.{cast, to_bits, u64}
use tp2cc.Emit.Bits.{int64, low_bits}
use tp2cc.Emit.Primitives.{PrimitiveInfo, PrimitiveIntKind, primitive_bits, same_kind, unsigned}

-- The bits of the result as an `int64_t`, with the sign of the carrier extended.
unfoldable pub extended_value : PrimitiveIntKind → ℕ → ℕ → ℤ
extended_value kind bits shifted =
    if same_kind kind unsigned || bits == 64
    then cast int64 (pos shifted)
    else if ltb shifted (2 ^ (bits - 1))
    then cast int64 (pos shifted)
    else cast int64 (pos (shifted + (u64 - 2 ^ bits)))

unfoldable pub shifted_bits : Bool → ℕ → ℕ → ℕ → Option ℕ
unfolding low_bits
shifted_bits shift_left bits value_bits amount =
    if shift_left
    then low_bits (value_bits * 2 ^ amount % u64) bits
    else some (value_bits / 2 ^ amount)

-- `bits` is what `primitive_bits` gives for the carrier; `a` and `shift` are `int64_t`s.
unfoldable pub shift_by : Bool → PrimitiveIntKind → ℕ → ℤ → ℤ → Option ℤ
unfolding shifted_bits low_bits
shift_by shift_left kind bits a shift = elim (low_bits (to_bits u64 a) bits) [
  | none ↦ none
  | some value_bits ↦ elim (shifted_bits shift_left bits value_bits (to_bits u64 shift % bits)) [
    | none ↦ none
    | some shifted ↦ some (extended_value kind bits shifted)
  ]
]

unfoldable pub checked_pascal_shift_int64 : Bool → ℤ → Option PrimitiveInfo → ℤ → ℕ → Option ℤ
unfolding shift_by
checked_pascal_shift_int64 shift_left a none shift pointer_bits = none
checked_pascal_shift_int64 shift_left a (some carrier) shift pointer_bits =
    elim (primitive_bits carrier pointer_bits) [
      | none ↦ none
      | some bits ↦ shift_by shift_left carrier.int_kind (if ltb bits 32 then 32 else bits) a shift
    ]
