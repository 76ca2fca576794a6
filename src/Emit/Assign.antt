-- ===== src/Emit/Assign.antt =====
-- The assignment of src/emit_stmts.cc under `{$R+}`, from one integer type to another, with the
-- literal of src/emit_values.cc for a constant and the runtime call that it emits.
use tp2cc.Emit.Const.{ConstIntExprInfo}
use tp2cc.Prelude.{
  Bool, arith, false, if◌then◌else◌, leb, ltb, magnitude, not, pos, sub_ℕ, true, ℕ, ℤ, ◌%◌, ◌-◌,
  ◌==◌, ◌||◌, ◌≡◌,
}
use tp2cc.Runtime.Integers.{
  IntType, Outcome, Width, bits_16, bits_32, bits_64, bits_8, cast, fits, half, integer_from_bits,
  patterns, range_check_assign, range_error, returned, same_sign, thrown, to_bits, width_bits,
}
use tp2cc.Runtime.Integers.Range.{range_check_assign_lem, widens_signed}
use tp2cc.Runtime.Integers.Wrapping.{cast-fits}

-- Whether the statement calls `tp2cc_range_check_assign`.
unfoldable pub needs_range_check : IntType → IntType → Bool
needs_range_check dst src =
    ltb (width_bits dst.width) (width_bits src.width) || not (same_sign dst src)

-- The right side: a constant that `maybe_convert_const_int_expr` makes a literal, with the result of
-- `eval_const_int_expr`, or another expression with its value. The operands of a binary operation,
-- names and intrinsics are of the second kind.
pub data RightSide : Type 0 where
  constant : ConstIntExprInfo → RightSide
  computed : ℤ → RightSide

-- The value of the literal that is emitted for the converted bits.
unfoldable pub literal_value : IntType → ℕ → ℤ
literal_value dst bits =
    if not dst.is_signed
    then pos bits
    else if leb (half dst.width) bits
    then sub_ℕ 0 (patterns dst.width - bits)
    else pos bits

-- The C++ type of that literal: a cast pins it at 64 bits.
unfoldable pub literal_type : IntType → ℤ → IntType
literal_type dst v =
    if width_bits dst.width == 64
    then dst
    else if leb (magnitude v) 0x7FFF_FFFF
    then record { width = bits_32; is_signed = true }
    else record { width = bits_64; is_signed = true }

-- `const_value_to_cxx` of the right side: the C++ type and the value of what is emitted.
unfoldable pub right_side : IntType → IntType → RightSide → IntType × ℤ
unfolding literal_value literal_type
right_side dst src (computed a) = (src, a)
right_side dst src (constant i) =
    let v = literal_value dst (i.bits % patterns dst.width) in (literal_type dst v, v)

-- What the emitted statement does; `src` is the Pascal type of the right side.
unfoldable pub assign_checked : IntType → IntType → RightSide → Outcome
unfolding needs_range_check right_side
assign_checked dst src r =
    let (from, a) = right_side dst src r in
    if needs_range_check dst src then range_check_assign dst from a else returned (cast dst a)

check_at :
    (d s : Width) (x y : Bool) (a : ℤ)
    → fits (record { width = s; is_signed = y }) a ≡ true
    → (if needs_range_check
          (record { width = d; is_signed = x })
          (record { width = s; is_signed = y })
        then widens_signed
            (record { width = d; is_signed = x })
            (record { width = s; is_signed = y })
        else not (fits (record { width = d; is_signed = x }) a))
      ≡ false
unfolding needs_range_check
check_at bits_8 bits_8 x y a h = ground arith
check_at bits_8 bits_16 x y a h = ground arith
check_at bits_8 bits_32 x y a h = ground arith
check_at bits_8 bits_64 x y a h = ground arith
check_at bits_16 bits_8 x y a h = ground arith
check_at bits_16 bits_16 x y a h = ground arith
check_at bits_16 bits_32 x y a h = ground arith
check_at bits_16 bits_64 x y a h = ground arith
check_at bits_32 bits_8 x y a h = ground arith
check_at bits_32 bits_16 x y a h = ground arith
check_at bits_32 bits_32 x y a h = ground arith
check_at bits_32 bits_64 x y a h = ground arith
check_at bits_64 bits_8 x y a h = ground arith
check_at bits_64 bits_16 x y a h = ground arith
check_at bits_64 bits_32 x y a h = ground arith
check_at bits_64 bits_64 x y a h = ground arith

computed_lem :
    (dst src : IntType) (a : ℤ)
    → fits src a ≡ true
    → assign_checked dst src (computed a) ≡ (if fits dst a then returned a else thrown range_error)
unfolding assign_checked right_side
computed_lem dst src a h = ground (
  arith,
  check_at dst.width src.width dst.is_signed src.is_signed a h,
  range_check_assign_lem dst src a h,
  cast-fits dst a,
)

-- The literal has the value of the bits in the destination type, and no check of it fails.
literal_at :
    (w : Width) (s : Bool) (n : ℕ)
    → let dst : IntType = record { width = w; is_signed = s } in
      let v = literal_value dst (n % patterns w) in
      (v ≡ cast dst (pos n))
      × (fits dst v ≡ true)
      × (fits (literal_type dst v) v ≡ true)
      × (widens_signed dst (literal_type dst v) ≡ false)
unfolding literal_value literal_type cast integer_from_bits to_bits
literal_at bits_8 s n = (ground arith, ground arith, ground arith, ground arith)
literal_at bits_16 s n = (ground arith, ground arith, ground arith, ground arith)
literal_at bits_32 s n = (ground arith, ground arith, ground arith, ground arith)
literal_at bits_64 s n = (ground arith, ground arith, ground arith, ground arith)

constant_lem :
    (dst src : IntType) (i : ConstIntExprInfo)
    → assign_checked dst src (constant i) ≡ returned (cast dst (pos i.bits))
unfolding assign_checked right_side
constant_lem dst src i =
    let (e, f, g, w) = literal_at dst.width dst.is_signed i.bits in
    let v = literal_value dst (i.bits % patterns dst.width) in
    let r = range_check_assign_lem dst (literal_type dst v) v g in
    let c = cast-fits dst v f in ground (arith, e, f, w, r, c)

-- Under `{$R+}` an assignment between two integer types stores the value of an expression unchanged
-- where the destination has it, and throws the range error where it does not. A constant that
-- becomes a literal is reduced to the bits of the destination first, is stored so, and never throws.
pub assign_checked_lem :
    (dst src : IntType) (a : ℤ) (i : ConstIntExprInfo)
    → fits src a ≡ true
    → (assign_checked dst src (computed a)
        ≡ (if fits dst a then returned a else thrown range_error))
      × (assign_checked dst src (constant i) ≡ returned (cast dst (pos i.bits)))
assign_checked_lem dst src a i h = (computed_lem dst src a h, constant_lem dst src i)
