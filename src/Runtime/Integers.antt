-- ===== src/Runtime/Integers.antt =====
-- The integer operations of include/tp2cc_rt/prelude.h, for a C++ integer type `R`. A value of it
-- is the integer that it stands for; a cast goes through the bit pattern.
pub mod Wrapping
pub mod Checked
pub mod Range
use tp2cc.Prelude.{
  Bool, if◌then◌else◌, is_zero, leb, leb_ℤ, ltb_ℤ, magnitude, neg_part, negsuc, not, pos, pos_part,
  sub_ℕ, suc, ℕ, ℤ, ◌%◌, ◌&&◌, ◌*ℤ◌, ◌*◌, ◌+ℤ◌, ◌+◌, ◌-ℤ◌, ◌-◌, ◌/◌, ◌==◌, ◌||◌,
}

pub data Width : Type 0 where
  bits_8 bits_16 bits_32 bits_64 : Width

pub record IntType : Type 0 where
  pub width : Width
  pub is_signed : Bool

abbrev pub width_bits : Width → ℕ
width_bits bits_8 = 8
width_bits bits_16 = 16
width_bits bits_32 = 32
width_bits bits_64 = 64

-- The number of bit patterns.
abbrev pub patterns : Width → ℕ
patterns bits_8 = 0x100
patterns bits_16 = 0x1_0000
patterns bits_32 = 0x1_0000_0000
patterns bits_64 = 0x1_0000_0000_0000_0000

abbrev pub half : Width → ℕ
half bits_8 = 0x80
half bits_16 = 0x8000
half bits_32 = 0x8000_0000
half bits_64 = 0x8000_0000_0000_0000

-- `std::numeric_limits`
abbrev pub min_of : IntType → ℤ
min_of R = if R.is_signed then negsuc (half R.width - 1) else pos 0

abbrev pub max_of : IntType → ℤ
max_of R = if R.is_signed then pos (half R.width - 1) else pos (patterns R.width - 1)

-- Whether the type has the value.
abbrev pub fits : IntType → ℤ → Bool
fits R a = leb_ℤ (min_of R) a && leb_ℤ a (max_of R)

-- `static_cast` to the unsigned twin.
unfoldable pub to_bits : ℕ → ℤ → ℕ
to_bits m (pos n) = n % m
to_bits m (negsuc n) = m - 1 - n % m

-- `tp2cc_integer_from_bits`
unfoldable pub integer_from_bits : IntType → ℕ → ℤ
integer_from_bits R x =
    if R.is_signed && leb (half R.width) x then negsuc (patterns R.width - 1 - x) else pos x

-- `static_cast<R>`
unfoldable pub cast : IntType → ℤ → ℤ
cast R a = integer_from_bits R (to_bits (patterns R.width) a)

-- The exceptions of the runtime, as far as these operations throw them.
pub data Thrown : Type 0 where
  int_overflow div_by_zero range_error : Thrown

pub data Outcome : Type 0 where
  returned : ℤ → Outcome
  thrown : Thrown → Outcome

-- What the `__builtin_*_overflow` of an exact result does, with the throw behind it.
unfoldable pub checked : IntType → ℤ → Outcome
checked R exact =
    if fits R exact
    then returned exact
    else if R.is_signed
    then thrown int_overflow
    else returned (cast R exact)

unfoldable pub add_checked : IntType → ℤ → ℤ → Outcome
add_checked R a b = checked R (a +ℤ b)

unfoldable pub sub_checked : IntType → ℤ → ℤ → Outcome
sub_checked R a b = checked R (a -ℤ b)

unfoldable pub mul_checked : IntType → ℤ → ℤ → Outcome
mul_checked R a b = checked R (a *ℤ b)

abbrev pub same_integer : ℤ → ℤ → Bool
same_integer a b = pos_part a == pos_part b && neg_part a == neg_part b

unfoldable pub negate_checked : IntType → ℤ → Outcome
negate_checked R a =
    if R.is_signed && same_integer a (min_of R)
    then thrown int_overflow
    else returned (cast R (pos 0 -ℤ a))

abbrev pub u64 : ℕ
u64 = 0x1_0000_0000_0000_0000

-- The `uint64_t` arithmetic on the bit patterns, and the cast back.
unfoldable pub wrap_add : IntType → ℤ → ℤ → ℤ
wrap_add R a b =
    let m = patterns R.width in integer_from_bits R ((to_bits m a + to_bits m b) % u64 % m)

unfoldable pub wrap_sub : IntType → ℤ → ℤ → ℤ
wrap_sub R a b =
    let m = patterns R.width in integer_from_bits R ((to_bits m a + (u64 - to_bits m b)) % u64 % m)

unfoldable pub wrap_mul : IntType → ℤ → ℤ → ℤ
wrap_mul R a b =
    let m = patterns R.width in integer_from_bits R (to_bits m a * to_bits m b % u64 % m)

unfoldable pub wrap_negate : IntType → ℤ → ℤ
wrap_negate R a = let m = patterns R.width in integer_from_bits R ((m - to_bits m a) % m)

-- C++ `/` and `%`, which round towards 0; the divisor is not 0.
unfoldable pub quotient : ℤ → ℤ → ℤ
quotient (pos a) (pos b) = pos (a / b)
quotient (pos a) (negsuc b) = sub_ℕ 0 (a / suc b)
quotient (negsuc a) (pos b) = sub_ℕ 0 (suc a / b)
quotient (negsuc a) (negsuc b) = pos (suc a / suc b)

unfoldable pub remainder : ℤ → ℤ → ℤ
remainder (pos a) b = pos (a % magnitude b)
remainder (negsuc a) b = sub_ℕ 0 (suc a % magnitude b)

-- `a == min() && b == -1`, for a signed type.
unfoldable pub overflows : IntType → ℤ → ℤ → Bool
overflows R a b = R.is_signed && (same_integer a (min_of R) && same_integer b (negsuc 0))

unfoldable pub int_div : IntType → Bool → ℤ → ℤ → Outcome
int_div R check_overflow a b =
    if is_zero b
    then thrown div_by_zero
    else if overflows R a b
    then (if check_overflow then thrown int_overflow else returned a)
    else returned (cast R (quotient a b))

unfoldable pub int_mod : IntType → ℤ → ℤ → Outcome
int_mod R a b =
    if is_zero b
    then thrown div_by_zero
    else if overflows R a b
    then returned (pos 0)
    else returned (cast R (remainder a b))

abbrev pub same_sign : IntType → IntType → Bool
same_sign dst from = if dst.is_signed then from.is_signed else not from.is_signed

-- `tp2cc_range_check_assign<DstT, SrcT>` on integers: `out_of_range` is the test of its three
-- branches, with the limits of `dst` cast to `from`.
unfoldable pub out_of_range : IntType → IntType → ℤ → Bool
out_of_range dst from a =
    let high = pos (to_bits (patterns from.width) (max_of dst)) in
    if same_sign dst from
    then ltb_ℤ a (cast from (min_of dst)) || ltb_ℤ (cast from (max_of dst)) a
    else if from.is_signed
    then ltb_ℤ a (pos 0) || ltb_ℤ high a
    else ltb_ℤ high a

unfoldable pub range_check_assign : IntType → IntType → ℤ → Outcome
range_check_assign dst from a =
    if out_of_range dst from a then thrown range_error else returned (cast dst a)
