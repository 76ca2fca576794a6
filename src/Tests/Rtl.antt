-- ===== src/Tests/Rtl.antt =====
-- The runtime and the constants of the emitter on small inputs.
use tp2cc.Emit.Const.Cast.{convert_const_int_value, convert_const_int_value_lem, is_narrowed}
use tp2cc.Runtime.Integers.Wrapping.{wrap-cast}
use tp2cc.Runtime.Integers.Checked.{CheckedBeside, checked-wrap, div-mod}
use tp2cc.Runtime.Integers.Range.{range_check_assign_lem, widens_signed}
use tp2cc.Runtime.Val.Decimal.{number_from, parse_pascal_integer-decimal, signed_number}
use tp2cc.Emit.Shift.Runtime.{checked_pascal_shift-runtime, int_type, p_shift, shift_width}
use tp2cc.Emit.Const.Exact.{exact_binary, fold_binary-exact, from_exact, integer_of, is_const}
use tp2cc.Runtime.FileTime.{
  is_civil, pack_local_tm_as_dos_filetime, unpack_dos_filetime_to_local_tm, unpacked_tm,
}
use tp2cc.Runtime.FileTime.Packed.{pack-unpack}
use tp2cc.Emit.Names.{
  ascii_lower, encode_char, encode_chars, encode_helper_ident, enum_bound_name,
  is_pascal_result_ident, mangle, nested_result_slot_name, type_mangle, unit_namespace_prefix,
}
use tp2cc.Emit.Names.Apart.{encode_helper_ident_iff}
use tp2cc.Prelude.{
  [], arith, codes, false, if◌then◌else◌, length, map, negsuc, not, pos, refl, same, some, true,
  ◌%◌, ◌*ℤ◌, ◌+ℤ◌, ◌+◌, ◌-ℤ◌, ◌==◌, ◌||◌, ◌↔◌, ◌∷◌, ◌≡◌,
}
use tp2cc.Runtime.Integers.{
  IntType, add_checked, bits_16, bits_32, bits_8, cast, checked, fits, int_div, int_mod,
  integer_from_bits, mul_checked, negate_checked, out_of_range, overflows, quotient,
  range_check_assign, range_error, remainder, returned, sub_checked, thrown, to_bits, wrap_add,
  wrap_mul, wrap_negate, wrap_sub,
}
use tp2cc.Runtime.Shifts.{p_shl, p_shr, shift_amount, shl_bits}
use tp2cc.Runtime.ShortStrings.{
  ShortString, concat, copy_in, matches, move_down, move_up, p_copy, p_delete, p_insert, p_pos,
  pos_from, shortstring_of,
}
use tp2cc.Runtime.Val.{
  digit_value, finish, max_value, parse_number, parse_pascal_integer, read_base, read_digits,
  read_sign, skip_spaces, skip_zeros,
}
use tp2cc.Emit.Assign.{
  assign_checked, assign_checked_lem, computed, constant, literal_type, literal_value,
  needs_range_check, right_side,
}
use tp2cc.Emit.Bits.{
  checked_add_int64, checked_sub_int64, int64, low_bits, signed_max_for_bits, signed_min_for_bits,
  unsigned_mask_for_bits,
}
use tp2cc.Emit.Primitives.{
  PrimitiveInfo, find_primitive, first_ordinal, integer, no_float, ordinal_integer_primitive,
  primitive_bits, primitive_info, primitive_info_for_value, primitive_type_map,
  shift_carrier_primitive, signed,
}
use tp2cc.Emit.Shift.{checked_pascal_shift_int64, extended_value, shift_by, shifted_bits}
use tp2cc.Emit.Const.{
  ConstExpr, add_signed_magnitudes, binary, bitwise, eval_const_int_expr, fold_binary, fold_literal,
  fold_negation, fold_operands, fold_shift, fold_unary, folded, integer_add, integer_mod,
  integer_mul, integer_sub, large_value, literal, make_result, multiply_magnitudes, neg, overflowed,
  typed_value, unary,
}
use tp2cc.Emit.Const.Whole.{Means, eval_const_int_expr-exact, exact}
use tp2cc.Emit.Literals.{char_literal_body_to_cxx, hex_digit, literal_items, string_literal_to_cxx}

abbrev int32 : IntType
int32 = record { width = bits_32; is_signed = true }

abbrev int8 : IntType
int8 = record { width = bits_8; is_signed = true }

abbrev byte : IntType
byte = record { width = bits_8; is_signed = false }

program : Unit {0}
unfolding ◌+ℤ◌ ◌-ℤ◌ ◌*ℤ◌ to_bits integer_from_bits cast checked add_checked sub_checked mul_checked
    negate_checked wrap_add wrap_sub wrap_mul wrap_negate quotient remainder overflows int_div
    int_mod out_of_range range_check_assign shift_amount shl_bits p_shl p_shr move_up move_down
    copy_in p_insert p_delete p_copy matches pos_from p_pos shortstring_of concat digit_value
    skip_spaces read_sign skip_zeros read_base max_value read_digits finish parse_number
    parse_pascal_integer needs_range_check literal_value literal_type right_side
    convert_const_int_value assign_checked low_bits unsigned_mask_for_bits signed_min_for_bits
    signed_max_for_bits checked_add_int64 checked_sub_int64 primitive_type_map find_primitive
    primitive_info primitive_bits first_ordinal ordinal_integer_primitive primitive_info_for_value
    shift_carrier_primitive extended_value shifted_bits shift_by checked_pascal_shift_int64
    make_result add_signed_magnitudes bitwise multiply_magnitudes fold_shift fold_binary
    fold_negation fold_literal fold_unary fold_operands eval_const_int_expr exact
    pack_local_tm_as_dos_filetime unpacked_tm is_civil unpack_dos_filetime_to_local_tm same mangle
    type_mangle ascii_lower nested_result_slot_name is_pascal_result_ident encode_char encode_chars
    encode_helper_ident enum_bound_name unit_namespace_prefix hex_digit char_literal_body_to_cxx
    literal_items string_literal_to_cxx
program = tt

wraps_around : wrap_add int32 (pos 0x7FFF_FFFF) (pos 1) ≡ negsuc 0x7FFF_FFFF
unfolding program
wraps_around = refl

inserts :
    map
      (p_insert 6
        (record { length = 2; bytes = λ j. b'x' + j })
        (record { length = 6; bytes = λ j. b'a' + j })
        (pos 1)).bytes
      (0 ∷ 1 ∷ 2 ∷ 3 ∷ 4 ∷ 5 ∷ [])
    ≡ codes "xycdef"
unfolding program
inserts = refl

literals :
    string_literal_to_cxx (codes "a'")
    ≡ codes
        "::rt::tp2cc_shortstring_literal<255>(::rt::tp2cc_char_of('a'), ::rt::tp2cc_char_of('\\''))"
unfolding program
literals = refl

values :
    map
      (λ t. (parse_pascal_integer int8 t).code)
      (codes " -128" ∷ codes "128" ∷ codes "$ff" ∷ codes "12x" ∷ codes "" ∷ [])
    ≡ 0 ∷ 3 ∷ 0 ∷ 3 ∷ 1 ∷ []
unfolding program
values = refl

negates : fold_negation (large_value 0xFFFF_FFFF_FFFF_FFFF) ≡ folded (typed_value (pos 1))
unfolding program
negates = refl

wrap-cast_example :
    (wrap_add int32 (pos 0x7FFF_FFFF) (pos 1) ≡ cast int32 (pos 0x7FFF_FFFF +ℤ pos 1))
    × (wrap_sub int32 (pos 0x7FFF_FFFF) (pos 1) ≡ cast int32 (pos 0x7FFF_FFFF -ℤ pos 1))
    × (wrap_mul int32 (pos 0x7FFF_FFFF) (pos 1) ≡ cast int32 (pos 0x7FFF_FFFF *ℤ pos 1))
    × (wrap_negate int32 (pos 0x7FFF_FFFF) ≡ cast int32 (pos 0 -ℤ pos 0x7FFF_FFFF))
    × ((fits int32 (pos 0x7FFF_FFFF) ≡ true) ↔ (cast int32 (pos 0x7FFF_FFFF) ≡ pos 0x7FFF_FFFF))
    × (fits int32 (cast int32 (pos 0x7FFF_FFFF)) ≡ true)
wrap-cast_example = wrap-cast int32 (pos 0x7FFF_FFFF) (pos 1)

checked-wrap_example :
    CheckedBeside int8
      (pos 100 +ℤ pos 50)
      (wrap_add int8 (pos 100) (pos 50))
      (add_checked int8 (pos 100) (pos 50))
    × CheckedBeside int8
        (pos 100 -ℤ pos 50)
        (wrap_sub int8 (pos 100) (pos 50))
        (sub_checked int8 (pos 100) (pos 50))
    × CheckedBeside int8
        (pos 100 *ℤ pos 50)
        (wrap_mul int8 (pos 100) (pos 50))
        (mul_checked int8 (pos 100) (pos 50))
    × CheckedBeside int8
        (pos 0 -ℤ pos 100)
        (wrap_negate int8 (pos 100))
        (negate_checked int8 (pos 100))
checked-wrap_example = checked-wrap int8 (pos 100) (pos 50) refl

div-mod_example : wrap_add int8 (wrap_mul int8 (negsuc 127) (negsuc 0)) (pos 0) ≡ negsuc 127
div-mod_example =
    unfold int_div int_mod overflows in
    div-mod int8 false (negsuc 127) (negsuc 0) (negsuc 127) (pos 0) refl refl refl

range_check_assign_lem_example : range_check_assign int32 int8 (pos 5) ≡ (
    if widens_signed int32 int8 || not (fits int32 (pos 5))
    then thrown range_error
    else returned (pos 5))
range_check_assign_lem_example = range_check_assign_lem int32 int8 (pos 5) refl

abbrev int16 : IntType
int16 = record { width = bits_16; is_signed = true }

abbrev longint : PrimitiveInfo
longint = record {
  cxx = codes "int32_t";
  family = integer;
  int_kind = signed;
  float_tier = no_float;
  bits = 32;
  pointer_sized = false;
  is_ordinal_integer = true;
}

assign_checked_lem_example :
    (assign_checked byte int32 (computed (pos 300))
      ≡ (if fits byte (pos 300) then returned (pos 300) else thrown range_error))
    × (assign_checked byte int32 (constant (typed_value (pos 300)))
        ≡ returned (cast byte (pos (typed_value (pos 300)).bits)))
assign_checked_lem_example = assign_checked_lem byte int32 (pos 300) (typed_value (pos 300)) refl

-- `b := 300` for a constant stores 44.
constant_reduced : assign_checked byte int16 (constant (typed_value (pos 300))) ≡ returned (pos 44)
unfolding program
constant_reduced = refl

convert_const_int_value_lem_example :
    let c = convert_const_int_value int16 longint (typed_value (negsuc 0)) in
    (c.value ≡ cast int64 (cast int16 (pos (typed_value (negsuc 0)).bits)))
    × (c.bits ≡ (typed_value (negsuc 0)).bits % 0x1_0000)
    × (is_const c ≡ not (is_narrowed int16 (cast int16 (pos (typed_value (negsuc 0)).bits))))
convert_const_int_value_lem_example =
    convert_const_int_value_lem int16 longint (typed_value (negsuc 0))

-- `smallint(-1) + 1` is an overflow to the evaluator.
narrowed_sum :
    fold_binary integer_add
      (convert_const_int_value int16 longint (typed_value (negsuc 0)))
      (typed_value (pos 1))
      64
    ≡ overflowed
unfolding program
narrowed_sum = refl

checked_pascal_shift-runtime_example :
    checked_pascal_shift_int64 true (negsuc 4) (some longint) (pos 33) 64
    ≡ some (cast int64 (p_shift true (int_type (shift_width bits_32) true) (negsuc 4) (pos 33)))
checked_pascal_shift-runtime_example =
    unfold primitive_bits in
    checked_pascal_shift-runtime true (negsuc 4) (pos 33) longint 64 bits_32 true refl refl

fold_binary-exact_example :
    fold_binary integer_sub (typed_value (negsuc 4)) (large_value 0xFFFF_FFFF_FFFF_FFFF) 64
    ≡ from_exact (
        exact_binary integer_sub
          (integer_of (typed_value (negsuc 4)))
          (integer_of (large_value 0xFFFF_FFFF_FFFF_FFFF)))
unfolding program
fold_binary-exact_example =
    fold_binary-exact integer_sub (typed_value (negsuc 4)) (large_value 0xFFFF_FFFF_FFFF_FFFF) 64
      refl (refl, omega arith) (refl, omega arith)

-- `(2 - 5) * 7 mod 4`
abbrev small_expression : ConstExpr
small_expression =
    binary integer_mod (binary integer_mul (binary integer_sub (literal 2) (literal 5)) (literal 7))
      (unary neg (literal 4))

eval_const_int_expr-exact_example : Means (eval_const_int_expr small_expression 64) (negsuc 0)
unfolding program
eval_const_int_expr-exact_example = eval_const_int_expr-exact small_expression 64 (negsuc 0) refl

abbrev two_letters : ShortString
two_letters = record { length = 2; bytes = λ j. b'x' + j }

abbrev four_letters : ShortString
four_letters = record { length = 4; bytes = λ j. b'a' + j }

parse_pascal_integer-decimal_example :
    let p = parse_pascal_integer int8 (codes " -129") in
    let v = signed_number true (number_from 0 (codes "129")) in
    (p.out ≡ (if fits int8 v then v else pos 0)) × ((p.code == 0) ≡ fits int8 v)
parse_pascal_integer-decimal_example =
    parse_pascal_integer-decimal int8 1 true b'1' (codes "29") (omega arith) refl

names :
    (enum_bound_name (codes "T_Day+") (codes "last") ≡ codes "tp2cc_enum_last_t_udayx2b")
    × (unit_namespace_prefix (codes "dos") ≡ codes "::p_dos::")
    × (unit_namespace_prefix (codes "__rt__") ≡ codes "::rt::")
    × (nested_result_slot_name (codes "f") ≡ codes "tp2cc_result_p_f")
    × (is_pascal_result_ident (codes "Result") ≡ true)
    × (type_mangle (codes "day") ≡ codes "t_day")
    × (encode_helper_ident [] ≡ codes "empty")
unfolding program
names = (refl, refl, refl, refl, refl, refl, refl)

encode_helper_ident_iff_example :
    (encode_helper_ident (codes "T_a") ≡ encode_helper_ident (codes "t_A"))
    ↔ (ascii_lower (codes "T_a") ≡ ascii_lower (codes "t_A"))
encode_helper_ident_iff_example =
    encode_helper_ident_iff b'T' (codes "_a") b't' (codes "_A") (refl, (refl, (refl, tt)))
      (refl, (refl, (refl, tt)))

-- 2024-02-29 12:34:56
file_time : unpack_dos_filetime_to_local_tm (pos 0x585D_645C) ≡ (
  true,
  record {
    tm_sec = pos 56;
    tm_min = pos 34;
    tm_hour = pos 12;
    tm_mday = pos 29;
    tm_mon = pos 1;
    tm_year = pos 124;
  },
)
unfolding program
file_time = refl

pack-unpack_example :
    pack_local_tm_as_dos_filetime (unpack_dos_filetime_to_local_tm (negsuc 0x1234)).1
    ≡ negsuc 0x1234
pack-unpack_example = pack-unpack (negsuc 0x1234) refl
