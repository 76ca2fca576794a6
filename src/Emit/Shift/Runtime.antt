-- ===== src/Emit/Shift/Runtime.antt =====
-- A constant shift beside the shift that the runtime computes.
use native.Mathlib.Nat.{div-le_self, mod-mod}
use tp2cc.Prelude.{
  Bool, ap, arith, false, if◌then◌else◌, some, true, ℕ, ℤ, ◌%◌, ◌*◌, ◌/◌, ◌<◌, ◌^◌, ◌∙◌, ◌≡◌,
}
use tp2cc.Runtime.Integers.{
  IntType, Width, bits_16, bits_32, bits_64, bits_8, cast, integer_from_bits, to_bits, u64,
  width_bits,
}
use tp2cc.Runtime.Shifts.{p_shl, p_shr, u32}
use tp2cc.Emit.Bits.{int64}
use tp2cc.Emit.Primitives.{PrimitiveInfo, PrimitiveIntKind, primitive_bits, signed, unsigned}
use tp2cc.Emit.Shift.{checked_pascal_shift_int64, extended_value, shift_by}

abbrev pub shift_width : Width → Width
shift_width bits_64 = bits_64
shift_width w = bits_32

abbrev kind_of : Bool → PrimitiveIntKind
kind_of is_signed = if is_signed then signed else unsigned

abbrev pub p_shift : Bool → IntType → ℤ → ℤ → ℤ
p_shift shift_left R a shift = if shift_left then p_shl R a shift else p_shr R a shift

abbrev pub int_type : Width → Bool → IntType
int_type w s = record { width = w; is_signed = s }

value_64 :
    (s : Bool) (y : ℕ)
    → y < u64
    → extended_value (kind_of s) 64 y ≡ cast int64 (integer_from_bits (int_type bits_64 s) y)
unfolding extended_value cast integer_from_bits to_bits
value_64 s y h = ground arith

value_32 :
    (s : Bool) (y : ℕ)
    → y < u32
    → extended_value (kind_of s) 32 y ≡ cast int64 (integer_from_bits (int_type bits_32 s) y)
unfolding extended_value cast integer_from_bits to_bits
value_32 s y h = ground arith

low_pattern : (a : ℤ) → to_bits u64 a % u32 ≡ to_bits u32 a
unfolding to_bits
low_pattern a = ground arith

pattern_lt : (a : ℤ) → to_bits u64 a < u64
unfolding to_bits
pattern_lt a = ground arith

quotient_lt : (x k n : ℕ) → x < n → x / 2 ^ k < n
quotient_lt x k n h = omega (arith, div-le_self x (2 ^ k))

abbrev held_as : IntType → ℕ → ℤ
held_as R y = cast int64 (integer_from_bits R y)

shift_by_64 :
    (l s : Bool) (a shift : ℤ)
    → shift_by l (kind_of s) 64 a shift ≡ some (cast int64 (p_shift l (int_type bits_64 s) a shift))
unfolding shift_by p_shl p_shr
shift_by_64 true s a shift =
    let R = int_type bits_64 s in
    let y = to_bits u64 a * 2 ^ (to_bits u64 shift % 64) in
    ap some (
      value_64 s (y % u64) (omega arith)
      ∙ ap (held_as R) (let e : y % u64 ≡ y % u64 % u64 = omega arith in e))
shift_by_64 false s a shift = ap some (value_64 s _ (quotient_lt _ _ u64 (pattern_lt a)))

wrapped_32 : (y : ℕ) → y % u64 % u32 ≡ y % u32 % u32
wrapped_32 y = omega arith

-- The 32 bits that are shifted, masked before the shift and after it.
left_bits :
    (a : ℤ) (p : ℕ) → to_bits u64 a % u32 * p % u64 % u32 ≡ to_bits u32 a % u32 * p % u32 % u32
left_bits a p =
    rw⁻¹ (low_pattern a) (rw (mod-mod (to_bits u64 a) u32) (wrapped_32 (to_bits u64 a % u32 * p)))

shift_by_32 :
    (l s : Bool) (a shift : ℤ)
    → shift_by l (kind_of s) 32 a shift ≡ some (cast int64 (p_shift l (int_type bits_32 s) a shift))
unfolding shift_by p_shl p_shr
shift_by_32 true s a shift =
    let p = 2 ^ (to_bits u64 shift % 32) in
    ap some (
      value_32 s (to_bits u64 a % u32 * p % u64 % u32) (omega arith)
      ∙ ap (held_as (int_type bits_32 s)) (left_bits a p))
shift_by_32 false s a shift =
    let p = to_bits u64 shift % 32 in
    ap some (
      value_32 s (to_bits u64 a % u32 / 2 ^ p)
        (quotient_lt (to_bits u64 a % u32) p u32 (omega arith))
      ∙ ap (held_as (int_type bits_32 s)) (ap (λ (y : ℕ). y / 2 ^ p) (low_pattern a)))

-- A constant `shl` or `shr` of `int64_t`s by the integer type of the left operand has the value that
-- the runtime's `p_shl` or `p_shr` computes at run time in the carrier that the emitter gives it:
-- that type at 64 bits, and the type of 32 bits with its sign below.
pub checked_pascal_shift-runtime :
    (shift_left : Bool) (a shift : ℤ) (info : PrimitiveInfo) (pointer_bits : ℕ) (w : Width)
    (s : Bool)
    → info.int_kind ≡ kind_of s
    → primitive_bits info pointer_bits ≡ some (width_bits w)
    → checked_pascal_shift_int64 shift_left a (some info) shift pointer_bits
      ≡ some (cast int64 (p_shift shift_left (int_type (shift_width w) s) a shift))
unfolding checked_pascal_shift_int64
checked_pascal_shift-runtime l a shift info pointer_bits bits_8 s k b =
    rw (b, checked_pascal_shift_int64, k) (shift_by_32 l s a shift)
checked_pascal_shift-runtime l a shift info pointer_bits bits_16 s k b =
    rw (b, checked_pascal_shift_int64, k) (shift_by_32 l s a shift)
checked_pascal_shift-runtime l a shift info pointer_bits bits_32 s k b =
    rw (b, checked_pascal_shift_int64, k) (shift_by_32 l s a shift)
checked_pascal_shift-runtime l a shift info pointer_bits bits_64 s k b =
    rw (b, checked_pascal_shift_int64, k) (shift_by_64 l s a shift)
