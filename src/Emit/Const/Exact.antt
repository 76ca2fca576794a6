-- ===== src/Emit/Const/Exact.antt =====
-- The constant evaluator beside exact arithmetic on the integers.
use native.Mathlib.Nat.{div-le_self}
use native.Mathlib.Nat.{mod-le}
use native.Mathlib.Nat.{mod-eq_of_lt}
use native.Mathlib.Nat.{zero-div, zero-mod, div-lt_iff_lt-mul}
use tp2cc.Prelude.{
  Bool, Bool-cases, Option, ap, arith, false, if◌then◌else◌, inl, inr, is_zero, leb, leb_ℤ, ltb,
  ltb_ℤ, ltb→lt, none, not, pos, pos_part, refl, some, sub_ℕ, suc, sym, true, zero, ℕ, ℤ, ◌%◌, ◌&&◌,
  ◌*ℤ◌, ◌*◌, ◌+ℤ◌, ◌+◌, ◌-ℤ◌, ◌-◌, ◌/◌, ◌<◌, ◌==◌, ◌↔◌, ◌∙◌, ◌≡◌,
}
use tp2cc.Runtime.Integers.{
  cast, integer_from_bits, max_of, min_of, quotient, remainder, same_integer, to_bits, u64,
}
use tp2cc.Emit.Bits.{int64, uint64_max}
use tp2cc.Emit.Const.{
  BinaryKind, ConstIntExprInfo, Folded, add_signed_magnitudes, fold_binary, folded, integer_add,
  integer_bitwise, integer_compare, integer_div, integer_mod, integer_mul, integer_shift,
  integer_sub, is_negative, large_value, magnitude_of, make_result, multiply_magnitudes, other_kind,
  overflowed, refused, signs_differ, typed_value,
}

-- The integers of `int64_t` and `uint64_t` together.
abbrev pub is_representable : ℤ → Bool
is_representable v = leb_ℤ (min_of int64) v && leb_ℤ v (pos uint64_max)

abbrev pub info_of : ℤ → ConstIntExprInfo
info_of v = if ltb_ℤ (max_of int64) v then large_value (pos_part v) else typed_value v

-- What the evaluator gives for an exact result.
abbrev pub result_of : ℤ → Folded
result_of v = if is_representable v then folded (info_of v) else overflowed

abbrev signed_value : Bool → ℕ → ℤ
signed_value negative m = if negative then sub_ℕ 0 m else pos m

make_result_lem : (b : Bool) (m : ℕ) → m < u64 → make_result b m ≡ result_of (signed_value b m)
unfolding make_result
make_result_lem true m h = ground arith
make_result_lem false m h = ground arith

-- A value whose bits are its pattern. Its integer is its bits where its type is unsigned.
abbrev pub IsConst : ConstIntExprInfo → Type 0
IsConst i = (i.value ≡ cast int64 (pos i.bits)) × (i.bits < u64)

abbrev pub is_const : ConstIntExprInfo → Bool
is_const i = same_integer i.value (cast int64 (pos i.bits)) && ltb i.bits u64

abbrev pub integer_of : ConstIntExprInfo → ℤ
integer_of i = if is_negative i then i.value else pos i.bits

magnitude_lem :
    (i : ConstIntExprInfo)
    → IsConst i
    → (signed_value (is_negative i) (magnitude_of i) ≡ integer_of i) × (magnitude_of i < u64)
unfolding cast integer_from_bits to_bits
magnitude_lem i h = ground arith

-- The sum of two integers by their magnitudes.
sum_unlike :
    (a : Bool) (m n : ℕ)
    → signed_value a m +ℤ signed_value (not a) n
      ≡ (if leb n m then signed_value a (m - n) else signed_value (not a) (n - m))
unfolding ◌+ℤ◌
sum_unlike true m n = ground arith
sum_unlike false m n = ground arith

sum_like : (a : Bool) (m n : ℕ) → signed_value a m +ℤ signed_value a n ≡ signed_value a (m + n)
unfolding ◌+ℤ◌
sum_like true m n = ground arith
sum_like false m n = ground arith

too_large : (a : Bool) (m : ℕ) → uint64_max < m → result_of (signed_value a m) ≡ overflowed
too_large true m h = ground arith
too_large false m h = ground arith

add_unlike :
    (a : Bool) (m n : ℕ)
    → m < u64
    → n < u64
    → (if leb n m then make_result a (m - n) else make_result (not a) (n - m))
      ≡ result_of (signed_value a m +ℤ signed_value (not a) n)
add_unlike a m n h k = rw (sum_unlike a m n) (elim (Bool-cases (leb n m)) [
  | inl e ↦ rw e (make_result_lem a (m - n) (omega arith))
  | inr e ↦ rw e (make_result_lem (not a) (n - m) (omega arith))
])

add_like :
    (a : Bool) (m n : ℕ)
    → m < u64
    → n < u64
    → (if ltb (uint64_max - n) m then overflowed else make_result a (m + n))
      ≡ result_of (signed_value a m +ℤ signed_value a n)
add_like a m n h k = rw (sum_like a m n) (elim (Bool-cases (ltb (uint64_max - n) m)) [
  | inl e ↦ rw e (sym (too_large a (m + n) (ground arith)))
  | inr e ↦ rw e (make_result_lem a (m + n) (ground arith))
])

sum_lem :
    (a b : Bool) (m n : ℕ)
    → m < u64
    → n < u64
    → add_signed_magnitudes a m b n ≡ result_of (signed_value a m +ℤ signed_value b n)
unfolding add_signed_magnitudes
sum_lem true true m n h k = add_like true m n h k
sum_lem false false m n h k = add_like false m n h k
sum_lem true false m n h k = add_unlike true m n h k
sum_lem false true m n h k = add_unlike false m n h k

product_signs :
    (a b : Bool) (m n : ℕ)
    → signed_value a m *ℤ signed_value b n ≡ signed_value (if a then not b else b) (m * n)
unfolding ◌*ℤ◌
product_signs true true m n = grind arith
product_signs true false m n = grind arith
product_signs false true m n = grind arith
product_signs false false m n = grind arith

quotient_signs :
    (a b : Bool) (m n : ℕ)
    → 0 < n
    → quotient (signed_value a m) (signed_value b n) ≡ signed_value (if a then not b else b) (m / n)
unfolding quotient
quotient_signs true true zero (suc n) h = ground (arith, zero-div (suc n))
quotient_signs true false zero (suc n) h = ground (arith, zero-div (suc n))
quotient_signs true true (suc m) (suc n) h = ground arith
quotient_signs true false (suc m) (suc n) h = ground arith
quotient_signs false true m (suc n) h = ground arith
quotient_signs false false m n h = refl
quotient_signs true b m zero h = absurd (omega arith)
quotient_signs false true m zero h = absurd (omega arith)

remainder_signs :
    (a b : Bool) (m n : ℕ)
    → 0 < n
    → remainder (signed_value a m) (signed_value b n) ≡ signed_value a (m % n)
unfolding remainder
remainder_signs true true zero (suc n) h = ground (arith, zero-mod (suc n))
remainder_signs true false zero (suc n) h = ground (arith, zero-mod (suc n))
remainder_signs true true (suc m) (suc n) h = ground arith
remainder_signs true false (suc m) (suc n) h = ground arith
remainder_signs false true m (suc n) h = ground arith
remainder_signs false false m n h = ground arith
remainder_signs true b m zero h = absurd (omega arith)
remainder_signs false true m zero h = absurd (omega arith)

tests_eq : (a b c d : ℕ) → (a < b → c < d) → (c < d → a < b) → ltb a b ≡ ltb c d
tests_eq a b c d f g = elim (Bool-cases (ltb a b)) [
  | inl e ↦ ground (arith, f (ltb→lt a b e))
  | inr e ↦ elim (Bool-cases (ltb c d)) [
    | inl k ↦ ground (arith, g (ltb→lt c d k))
    | inr k ↦ ground arith
  ]
]

product_test : (m n : ℕ) → (not (n == 0) && ltb (uint64_max / n) m) ≡ ltb uint64_max (m * n)
product_test m zero = ground arith
product_test m (suc n) =
    let i : (uint64_max / suc n < m) ↔ (uint64_max < m * suc n) = div-lt_iff_lt-mul (omega arith) in
    ground (arith, tests_eq (uint64_max / suc n) m uint64_max (m * suc n) i.0 i.1)

product_fits :
    (c : Bool) (m n : ℕ)
    → ltb uint64_max (m * n) ≡ false
    → (if ltb uint64_max (m * n) then overflowed else make_result c (m * n % u64))
      ≡ result_of (signed_value c (m * n))
product_fits c m n e =
    let small : m * n < u64 = ground arith in
    rw (e, mod-eq_of_lt small) (make_result_lem c (m * n) small)

product_lem :
    (c : Bool) (m n : ℕ)
    → m < u64
    → n < u64
    → multiply_magnitudes c m n ≡ result_of (signed_value c (m * n))
unfolding multiply_magnitudes
product_lem c m n h k = rw (product_test m n) (elim (Bool-cases (ltb uint64_max (m * n))) [
  | inl e ↦ rw e (sym (too_large c (m * n) (ground arith)))
  | inr e ↦ product_fits c m n e
])

-- The exact result of an operation; `none` for a division by 0, and for the kinds that are not
-- arithmetic.
abbrev pub exact_binary : BinaryKind → ℤ → ℤ → Option ℤ
exact_binary integer_add a b = some (a +ℤ b)
exact_binary integer_sub a b = some (a -ℤ b)
exact_binary integer_mul a b = some (a *ℤ b)
exact_binary integer_div a b = if is_zero b then none else some (quotient a b)
exact_binary integer_mod a b = if is_zero b then none else some (remainder a b)
exact_binary integer_compare a b = none
exact_binary other_kind a b = none
exact_binary (integer_shift l) a b = none
exact_binary (integer_bitwise op) a b = none

abbrev pub is_arithmetic : BinaryKind → Bool
is_arithmetic integer_compare = false
is_arithmetic other_kind = false
is_arithmetic (integer_shift l) = false
is_arithmetic (integer_bitwise op) = false
is_arithmetic integer_add = true
is_arithmetic integer_sub = true
is_arithmetic integer_mul = true
is_arithmetic integer_div = true
is_arithmetic integer_mod = true

abbrev pub from_exact : Option ℤ → Folded
from_exact none = refused
from_exact (some v) = result_of v

opposite_sum : (a : ℤ) (b : Bool) (n : ℕ) → a +ℤ signed_value (not b) n ≡ a -ℤ signed_value b n
unfolding ◌+ℤ◌ ◌-ℤ◌
opposite_sum a true n = ground arith
opposite_sum a false n = ground arith

zero_sign : (b : Bool) (n : ℕ) → is_zero (signed_value b n) ≡ (n == 0)
zero_sign true n = ground arith
zero_sign false n = ground arith

quotient_lem :
    (a b : Bool) (m n : ℕ)
    → m < u64
    → (if n == 0 then refused else make_result (if a then not b else b) (m / n))
      ≡ from_exact (exact_binary integer_div (signed_value a m) (signed_value b n))
quotient_lem a b m n h = rw (zero_sign b n) (elim (Bool-cases (n == 0)) [
  | inl e ↦ rw e refl
  | inr e ↦
      rw (e, quotient_signs a b m n (ground arith))
        (make_result_lem (if a then not b else b) (m / n) (omega (arith, div-le_self m n)))
])

remainder_lem :
    (a b : Bool) (m n : ℕ)
    → m < u64
    → (if n == 0 then refused else make_result a (m % n))
      ≡ from_exact (exact_binary integer_mod (signed_value a m) (signed_value b n))
remainder_lem a b m n h = rw (zero_sign b n) (elim (Bool-cases (n == 0)) [
  | inl e ↦ rw e refl
  | inr e ↦
      rw (e, remainder_signs a b m n (ground arith))
        (make_result_lem a (m % n) (omega (arith, mod-le m n)))
])

-- From the signs and the magnitudes of two constants to their integers.
of_integers :
    (kind : BinaryKind) (l r : ConstIntExprInfo) (o : Folded)
    → IsConst l
    → IsConst r
    → o
      ≡ from_exact (
          exact_binary kind
            (signed_value (is_negative l) (magnitude_of l))
            (signed_value (is_negative r) (magnitude_of r)))
    → o ≡ from_exact (exact_binary kind (integer_of l) (integer_of r))
of_integers kind l r o h j e =
    e ∙ λ i. from_exact (exact_binary kind ((magnitude_lem l h).0 i) ((magnitude_lem r j).0 i))

-- The evaluator computes each arithmetic operation (`+`, `-`, `*`, `div`, `mod`) exactly, on operands
-- of `int64_t` and of `uint64_t` alike, where the value of each operand is that of its 64 bits: it
-- sets the overflow flag exactly where neither type has the result, and is refused exactly for a
-- division by 0. A negative constant that was converted to a narrower signed type is no such
-- operand, nor are shifts and bitwise operations covered.
pub fold_binary-exact :
    (kind : BinaryKind) (l r : ConstIntExprInfo) (pointer_bits : ℕ)
    → is_arithmetic kind ≡ true
    → IsConst l
    → IsConst r
    → fold_binary kind l r pointer_bits
      ≡ from_exact (exact_binary kind (integer_of l) (integer_of r))
unfolding fold_binary
fold_binary-exact integer_add l r p k h j =
    of_integers integer_add l r _ h j
      (sum_lem (is_negative l) (is_negative r) _ _ (magnitude_lem l h).1 (magnitude_lem r j).1)
fold_binary-exact integer_sub l r p k h j = of_integers integer_sub l r _ h j (
    sum_lem (is_negative l) (not (is_negative r)) _ _ (magnitude_lem l h).1 (magnitude_lem r j).1
    ∙ ap result_of (opposite_sum _ (is_negative r) (magnitude_of r)))
fold_binary-exact integer_mul l r p k h j = of_integers integer_mul l r _ h j (
    product_lem (signs_differ l r) _ _ (magnitude_lem l h).1 (magnitude_lem r j).1
    ∙ ap result_of (sym (product_signs (is_negative l) (is_negative r) _ _)))
fold_binary-exact integer_div l r p k h j =
    of_integers integer_div l r _ h j
      (quotient_lem (is_negative l) (is_negative r) _ (magnitude_of r) (magnitude_lem l h).1)
fold_binary-exact integer_mod l r p k h j =
    of_integers integer_mod l r _ h j
      (remainder_lem (is_negative l) (is_negative r) _ (magnitude_of r) (magnitude_lem l h).1)
fold_binary-exact integer_compare l r p k h j = cc
fold_binary-exact other_kind l r p k h j = cc
fold_binary-exact (integer_shift b) l r p k h j = cc
fold_binary-exact (integer_bitwise b) l r p k h j = cc
