-- ===== src/Emit/Const.antt =====
-- `eval_const_int_expr_impl` of src/emit_analysis.cc, the evaluator of constant integer expressions:
-- literals, unary and binary operations. What it gives for a call or a name is a leaf here.
pub mod Exact
pub mod Whole
pub mod Cast
use tp2cc.Prelude.{
  Bool, Option, false, if◌then◌else◌, leb, ltb, ltb_ℤ, none, not, pos, some, sub_ℕ, true, ℕ, ℤ, ◌%◌,
  ◌&&◌, ◌*◌, ◌+◌, ◌-◌, ◌/◌, ◌==◌, ◌||◌,
}
use tp2cc.Runtime.Integers.{cast, min_of, to_bits, u64}
use tp2cc.Emit.Bits.{checked_sub_int64, int64, uint64_max}
use tp2cc.Emit.Primitives.{
  PrimitiveInfo, ordinal_integer_primitive, primitive_info_for_value, same_kind,
  shift_carrier_primitive, unsigned,
}
use tp2cc.Emit.Shift.{checked_pascal_shift_int64}
use Prim.Native.Nat.{bit_and, bit_or, bit_xor}

pub record ConstIntExprInfo : Type 0 where
  pub value : ℤ
  pub bits : ℕ
  pub type : Option PrimitiveInfo

-- The value that the evaluator returns, and whether it has set `*overflow`.
pub record Folded : Type 0 where
  pub info : Option ConstIntExprInfo
  pub overflow : Bool

abbrev pub folded : ConstIntExprInfo → Folded
folded info = record { info = some info; overflow = false }

abbrev pub overflowed : Folded
overflowed = record { info = none; overflow = true }

abbrev pub refused : Folded
refused = record { info = none; overflow = false }

-- The constructor of two arguments.
abbrev pub const_info : ℤ → Option PrimitiveInfo → ConstIntExprInfo
const_info v t = record { value = v; bits = to_bits u64 v; type = t }

-- A value with the type that Pascal gives to it.
abbrev pub typed_value : ℤ → ConstIntExprInfo
typed_value v = const_info v (primitive_info_for_value v)

-- A value beyond `int64_t`.
abbrev pub large_value : ℕ → ConstIntExprInfo
large_value n = record {
  value = cast int64 (pos n);
  bits = n;
  type = ordinal_integer_primitive unsigned 64;
}

abbrev pub is_unsigned : Option PrimitiveInfo → Bool
is_unsigned none = false
is_unsigned (some info) = same_kind info.int_kind unsigned

abbrev pub is_negative : ConstIntExprInfo → Bool
is_negative operand = ltb_ℤ operand.value (pos 0) && not (is_unsigned operand.type)

abbrev pub magnitude_of : ConstIntExprInfo → ℕ
magnitude_of operand = if is_negative operand then (u64 - operand.bits) % u64 else operand.bits

unfoldable pub make_result : Bool → ℕ → Folded
make_result negative result =
    if negative
    then (if ltb 0x8000_0000_0000_0000 result
        then overflowed
        else folded (
            typed_value (if result == 0x8000_0000_0000_0000 then min_of int64 else sub_ℕ 0 result)))
    else if leb result 0x7FFF_FFFF_FFFF_FFFF
    then folded (typed_value (pos result))
    else folded (large_value result)

unfoldable pub add_signed_magnitudes : Bool → ℕ → Bool → ℕ → Folded
add_signed_magnitudes lhs_negative lhs_magnitude rhs_negative rhs_magnitude =
    if (if lhs_negative then not rhs_negative else rhs_negative)
    then (if leb rhs_magnitude lhs_magnitude
        then make_result lhs_negative (lhs_magnitude - rhs_magnitude)
        else make_result rhs_negative (rhs_magnitude - lhs_magnitude))
    else if ltb (uint64_max - rhs_magnitude) lhs_magnitude
    then overflowed
    else make_result lhs_negative (lhs_magnitude + rhs_magnitude)

pub data BitOp : Type 0 where
  and_bits or_bits xor_bits : BitOp

-- `BoundBinaryKind`, with the operator where the evaluator reads it.
pub data BinaryKind : Type 0 where
  integer_add integer_sub integer_mul integer_div integer_mod integer_compare other_kind :
      BinaryKind
  integer_shift : Bool → BinaryKind
  integer_bitwise : BitOp → BinaryKind

unfoldable pub bitwise : BitOp → ℕ → ℕ → ℕ
bitwise and_bits a b = bit_and a b
bitwise or_bits a b = bit_or a b
bitwise xor_bits a b = bit_xor a b

unfoldable pub multiply_magnitudes : Bool → ℕ → ℕ → Folded
multiply_magnitudes negative lhs_magnitude rhs_magnitude =
    if not (rhs_magnitude == 0) && ltb (uint64_max / rhs_magnitude) lhs_magnitude
    then overflowed
    else make_result negative (lhs_magnitude * rhs_magnitude % u64)

unfoldable pub fold_shift : Bool → ConstIntExprInfo → ConstIntExprInfo → ℕ → Folded
unfolding checked_pascal_shift_int64 shift_carrier_primitive
fold_shift shift_left lhs rhs pointer_bits =
    elim (checked_pascal_shift_int64 shift_left lhs.value lhs.type rhs.value pointer_bits) [
      | none ↦ refused
      | some value ↦ elim (shift_carrier_primitive lhs.type pointer_bits) [
        | none ↦ refused
        | some carrier ↦ folded (const_info value (some carrier))
      ]
    ]

abbrev pub signs_differ : ConstIntExprInfo → ConstIntExprInfo → Bool
signs_differ lhs rhs = if is_negative lhs then not (is_negative rhs) else is_negative rhs

unfoldable pub fold_binary : BinaryKind → ConstIntExprInfo → ConstIntExprInfo → ℕ → Folded
unfolding add_signed_magnitudes multiply_magnitudes fold_shift bitwise
fold_binary integer_add l r pointer_bits =
    add_signed_magnitudes (is_negative l) (magnitude_of l) (is_negative r) (magnitude_of r)
fold_binary integer_sub l r pointer_bits =
    add_signed_magnitudes (is_negative l) (magnitude_of l) (not (is_negative r)) (magnitude_of r)
fold_binary integer_mul l r pointer_bits =
    multiply_magnitudes (signs_differ l r) (magnitude_of l) (magnitude_of r)
fold_binary integer_div l r pointer_bits =
    if magnitude_of r == 0
    then refused
    else make_result (signs_differ l r) (magnitude_of l / magnitude_of r)
fold_binary integer_mod l r pointer_bits =
    if magnitude_of r == 0
    then refused
    else make_result (is_negative l) (magnitude_of l % magnitude_of r)
fold_binary (integer_shift shift_left) l r pointer_bits = fold_shift shift_left l r pointer_bits
fold_binary (integer_bitwise op) l r pointer_bits =
    folded (typed_value (cast int64 (pos (bitwise op (to_bits u64 l.value) (to_bits u64 r.value)))))
fold_binary integer_compare l r pointer_bits = refused
fold_binary other_kind l r pointer_bits = refused

abbrev pub typed_or_overflow : Option ℤ → Folded
typed_or_overflow none = overflowed
typed_or_overflow (some value) = folded (typed_value value)

unfoldable pub fold_negation : ConstIntExprInfo → Folded
fold_negation operand = typed_or_overflow (checked_sub_int64 (pos 0) operand.value)

unfoldable pub fold_literal : ℕ → Folded
fold_literal n =
    if ltb 0x7FFF_FFFF_FFFF_FFFF n then folded (large_value n) else folded (typed_value (pos n))

pub data UnaryOp : Type 0 where
  plus neg other_unary : UnaryOp

-- `leaf` stands for a call or a name, with what their cases of the evaluator give.
pub data ConstExpr : Type 0 where
  literal : ℕ → ConstExpr
  leaf : Folded → ConstExpr
  unary : UnaryOp → ConstExpr → ConstExpr
  binary : BinaryKind → ConstExpr → ConstExpr → ConstExpr

unfoldable pub fold_unary : UnaryOp → Folded → Folded
unfolding fold_negation
fold_unary op operand = elim operand.info [
  | none ↦ operand
  | some info ↦ elim op [
    | plus ↦ operand
    | neg ↦ record {
      info = (fold_negation info).info;
      overflow = operand.overflow || (fold_negation info).overflow;
    }
    | other_unary ↦ record { info = none; overflow = operand.overflow }
  ]
]

-- Both operands are evaluated; the flag keeps what any of the three has set.
unfoldable pub fold_operands : BinaryKind → Folded → Folded → ℕ → Folded
unfolding fold_binary
fold_operands kind l r pointer_bits = elim l.info [
  | none ↦ record { info = none; overflow = l.overflow || r.overflow }
  | some x ↦ elim r.info [
    | none ↦ record { info = none; overflow = l.overflow || r.overflow }
    | some y ↦ record {
      info = (fold_binary kind x y pointer_bits).info;
      overflow = (l.overflow || r.overflow) || (fold_binary kind x y pointer_bits).overflow;
    }
  ]
]

unfoldable pub eval_const_int_expr : ConstExpr → ℕ → Folded
unfolding fold_literal fold_unary fold_operands
eval_const_int_expr (literal n) pointer_bits = fold_literal n
eval_const_int_expr (leaf result) pointer_bits = result
eval_const_int_expr (unary op e) pointer_bits = fold_unary op (eval_const_int_expr e pointer_bits)
eval_const_int_expr (binary kind l r) pointer_bits =
    fold_operands kind (eval_const_int_expr l pointer_bits) (eval_const_int_expr r pointer_bits)
      pointer_bits
