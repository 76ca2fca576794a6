-- ===== src/Emit/Const/Cast.antt =====
-- The conversion of a constant to an integer type: `convert_const_int_value` of src/emit_analysis.cc,
-- which `eval_const_int_cast` and the literals of src/emit_values.cc rest on.
use tp2cc.Prelude.{
  Bool, arith, if◌then◌else◌, leb, ltb, ltb_ℤ, not, pos, refl, some, ℤ, ◌%◌, ◌&&◌, ◌+◌, ◌-◌, ◌==◌,
  ◌||◌, ◌≡◌,
}
use tp2cc.Runtime.Integers.{
  IntType, Width, bits_16, bits_32, bits_64, bits_8, cast, half, integer_from_bits, patterns,
  to_bits, u64, width_bits,
}
use tp2cc.Emit.Bits.{int64}
use tp2cc.Emit.Primitives.{PrimitiveInfo}
use tp2cc.Emit.Const.{ConstIntExprInfo}
use tp2cc.Emit.Const.Exact.{is_const}

-- The constant as a value of `dst`, which the compiler describes by `info`. `~low_bits(UINT64_MAX,
-- width)` has the bits above the width.
unfoldable pub convert_const_int_value :
    IntType → PrimitiveInfo → ConstIntExprInfo → ConstIntExprInfo
unfolding cast
convert_const_int_value dst info i =
    let bits = i.bits % patterns dst.width in
    let high_bits = u64 - patterns dst.width in
    record {
      value =
          if not dst.is_signed || width_bits dst.width == 64
          then cast int64 (pos bits)
          else if leb (half dst.width) bits
          then cast int64 (pos (bits + high_bits))
          else cast int64 (pos bits);
      bits = bits;
      type = some info;
    }

abbrev pub is_narrowed : IntType → ℤ → Bool
is_narrowed dst v = dst.is_signed && (ltb (width_bits dst.width) 64 && ltb_ℤ v (pos 0))

convert_at :
    (w : Width) (s : Bool) (info : PrimitiveInfo) (i : ConstIntExprInfo)
    → let dst : IntType = record { width = w; is_signed = s } in
      let c = convert_const_int_value dst info i in
      (c.value ≡ cast int64 (cast dst (pos i.bits)))
      × (c.bits ≡ i.bits % patterns w)
      × (is_const c ≡ not (is_narrowed dst (cast dst (pos i.bits))))
unfolding convert_const_int_value cast integer_from_bits to_bits
convert_at bits_8 s info i = (ground arith, refl, ground arith)
convert_at bits_16 s info i = (ground arith, refl, ground arith)
convert_at bits_32 s info i = (ground arith, refl, ground arith)
convert_at bits_64 s info i = (ground arith, refl, ground arith)

-- The conversion gives the constant the value that the cast of its bits to the type has, as an
-- `int64_t`, and the bits of the type's width. Value and bits no longer belong together exactly for
-- a negative value of a signed type of fewer than 64 bits.
pub convert_const_int_value_lem :
    (dst : IntType) (info : PrimitiveInfo) (i : ConstIntExprInfo)
    → let c = convert_const_int_value dst info i in
      (c.value ≡ cast int64 (cast dst (pos i.bits)))
      × (c.bits ≡ i.bits % patterns dst.width)
      × (is_const c ≡ not (is_narrowed dst (cast dst (pos i.bits))))
convert_const_int_value_lem dst info i = convert_at dst.width dst.is_signed info i
