-- ===== src/Runtime/Integers/Wrapping.antt =====
-- The wrapping operations are the exact ones modulo the number of bit patterns.
use tp2cc.Prelude.{
  Bool, ap, arith, false, neg_part, pos, pos_part, refl, sub_ℕ, sym, true, ℕ, ℤ, ◌%◌, ◌*ℤ◌, ◌*◌,
  ◌+ℤ◌, ◌+◌, ◌-ℤ◌, ◌-◌, ◌/◌, ◌↔◌, ◌∙◌, ◌≡◌,
}
use mathlib.Core.Path.{subst}
use native.Mathlib.Nat.{mod-add-div, add-mul, mul_assoc, add-mul-mod_self_left, mul_comm}
use tp2cc.Runtime.Integers.{
  IntType, Width, bits_16, bits_32, bits_64, bits_8, cast, fits, integer_from_bits, patterns,
  to_bits, u64, wrap_add, wrap_mul, wrap_negate, wrap_sub,
}

-- A sum of patterns, wrapped at 64 bits and then at the width.
sum_bits :
    (w : Width) (a b : ℤ)
    → (to_bits (patterns w) a + to_bits (patterns w) b) % u64 % patterns w
      ≡ to_bits (patterns w) (a +ℤ b)
unfolding to_bits ◌+ℤ◌
sum_bits bits_8 a b = ground arith
sum_bits bits_16 a b = ground arith
sum_bits bits_32 a b = ground arith
sum_bits bits_64 a b = ground arith

difference_bits :
    (w : Width) (a b : ℤ)
    → (to_bits (patterns w) a + (u64 - to_bits (patterns w) b)) % u64 % patterns w
      ≡ to_bits (patterns w) (a -ℤ b)
unfolding to_bits ◌-ℤ◌
difference_bits bits_8 a b = ground arith
difference_bits bits_16 a b = ground arith
difference_bits bits_32 a b = ground arith
difference_bits bits_64 a b = ground arith

negated_bits :
    (w : Width) (a : ℤ)
    → (patterns w - to_bits (patterns w) a) % patterns w ≡ to_bits (patterns w) (pos 0 -ℤ a)
unfolding to_bits ◌-ℤ◌
negated_bits bits_8 a = ground arith
negated_bits bits_16 a = ground arith
negated_bits bits_32 a = ground arith
negated_bits bits_64 a = ground arith

-- The pattern of an integer is that of its positive part with the negative part counted down.
bits_of_parts :
    (w : Width) (p n : ℕ)
    → to_bits (patterns w) (sub_ℕ p n) ≡ (p + (patterns w - 1) * n) % patterns w
unfolding to_bits
bits_of_parts bits_8 p n = ground arith
bits_of_parts bits_16 p n = ground arith
bits_of_parts bits_32 p n = ground arith
bits_of_parts bits_64 p n = ground arith

bits_of :
    (w : Width) (a : ℤ)
    → to_bits (patterns w) a ≡ (pos_part a + (patterns w - 1) * neg_part a) % patterns w
unfolding to_bits
bits_of bits_8 a = ground arith
bits_of bits_16 a = ground arith
bits_of bits_32 a = ground arith
bits_of bits_64 a = ground arith

mod_u64 : (w : Width) (x : ℕ) → x % u64 % patterns w ≡ x % patterns w
mod_u64 bits_8 x = omega arith
mod_u64 bits_16 x = omega arith
mod_u64 bits_32 x = omega arith
mod_u64 bits_64 x = omega arith

mod-mul-mod : (m x y : ℕ) → (x % m) * y % m ≡ x * y % m
mod-mul-mod m x y =
    sym (add-mul-mod_self_left (x % m * y) m (x / m * y))
    ∙ ap (λ (t : ℕ). t % m)
        (grind (arith, mod-add-div x m, add-mul (x % m) (m * (x / m)) y, mul_assoc m (x / m) y))

product_sum :
    (k p n q o : ℕ)
    → (p + k * n) * (q + k * o) + (k + 1) * (n * o)
      ≡ p * q + n * o + k * (p * o + n * q) + (k + 1) * (k * (n * o))
product_sum k p n q o = grind arith

product_parts :
    (m k p n q o : ℕ)
    → m ≡ k + 1
    → (p + k * n) * (q + k * o) % m ≡ (p * q + n * o + k * (p * o + n * q)) % m
product_parts m k p n q o e = rw e (
    sym (add-mul-mod_self_left _ (k + 1) (n * o))
    ∙ ap (λ (t : ℕ). t % (k + 1)) (product_sum k p n q o)
    ∙ add-mul-mod_self_left _ (k + 1) (k * (n * o)))

mod-mul : (m x y : ℕ) → x % m * (y % m) % m ≡ x * y % m
mod-mul m x y =
    mod-mul-mod m x (y % m)
    ∙ ap (λ (t : ℕ). t % m) (mul_comm x (y % m))
    ∙ mod-mul-mod m y x
    ∙ ap (λ (t : ℕ). t % m) (mul_comm y x)

patterns_suc : (w : Width) → patterns w ≡ patterns w - 1 + 1
patterns_suc bits_8 = refl
patterns_suc bits_16 = refl
patterns_suc bits_32 = refl
patterns_suc bits_64 = refl

product_bits :
    (w : Width) (a b : ℤ)
    → to_bits (patterns w) a * to_bits (patterns w) b % u64 % patterns w
      ≡ to_bits (patterns w) (a *ℤ b)
unfolding ◌*ℤ◌
product_bits w a b =
    mod_u64 w _
    ∙ rw (bits_of w a, bits_of w b, bits_of_parts w)
        (mod-mul (patterns w) _ _
          ∙ product_parts (patterns w) (patterns w - 1) _ _ _ _ (patterns_suc w))

-- A cast keeps what the type has.
cast-fits_at :
    (w : Width) (b : Bool) (a : ℤ)
    → fits (record { width = w; is_signed = b }) a ≡ true
    → cast (record { width = w; is_signed = b }) a ≡ a
unfolding cast integer_from_bits to_bits
cast-fits_at bits_8 true a h = ground arith
cast-fits_at bits_16 true a h = ground arith
cast-fits_at bits_32 true a h = ground arith
cast-fits_at bits_64 true a h = ground arith
cast-fits_at bits_8 false a h = ground arith
cast-fits_at bits_16 false a h = ground arith
cast-fits_at bits_32 false a h = ground arith
cast-fits_at bits_64 false a h = ground arith

pub cast-fits : (R : IntType) (a : ℤ) → fits R a ≡ true → cast R a ≡ a
cast-fits R a h = cast-fits_at R.width R.is_signed a h

bits-cast_at :
    (w : Width) (b : Bool) (a : ℤ)
    → to_bits (patterns w) (cast (record { width = w; is_signed = b }) a) ≡ to_bits (patterns w) a
unfolding cast integer_from_bits to_bits
bits-cast_at bits_8 b a = ground arith
bits-cast_at bits_16 b a = ground arith
bits-cast_at bits_32 b a = ground arith
bits-cast_at bits_64 b a = ground arith

pub bits-cast :
    (R : IntType) (a : ℤ) → to_bits (patterns R.width) (cast R a) ≡ to_bits (patterns R.width) a
bits-cast R a = bits-cast_at R.width R.is_signed a

fits-cast_at :
    (w : Width) (b : Bool) (a : ℤ)
    → fits (record { width = w; is_signed = b }) (cast (record { width = w; is_signed = b }) a)
      ≡ true
unfolding cast integer_from_bits to_bits
fits-cast_at bits_8 b a = ground arith
fits-cast_at bits_16 b a = ground arith
fits-cast_at bits_32 b a = ground arith
fits-cast_at bits_64 b a = ground arith

pub fits-cast : (R : IntType) (a : ℤ) → fits R (cast R a) ≡ true
fits-cast R a = fits-cast_at R.width R.is_signed a

cast_iff_fits : (R : IntType) (a : ℤ) → (fits R a ≡ true) ↔ (cast R a ≡ a)
cast_iff_fits R a = (cast-fits R a, λ e. subst (λ v. fits R v ≡ true) e (fits-cast R a))

-- The wrapping operations of every integer type refine the exact ones on the integers: each is the
-- cast of the exact sum, difference, product or opposite, of any two integers; and the cast keeps
-- exactly the values that the type has, and gives only such values.
pub wrap-cast :
    (R : IntType) (a b : ℤ)
    → (wrap_add R a b ≡ cast R (a +ℤ b))
      × (wrap_sub R a b ≡ cast R (a -ℤ b))
      × (wrap_mul R a b ≡ cast R (a *ℤ b))
      × (wrap_negate R a ≡ cast R (pos 0 -ℤ a))
      × ((fits R a ≡ true) ↔ (cast R a ≡ a))
      × (fits R (cast R a) ≡ true)
unfolding wrap_add wrap_sub wrap_mul wrap_negate cast
wrap-cast R a b = (
  ap (integer_from_bits R) (sum_bits R.width a b),
  ap (integer_from_bits R) (difference_bits R.width a b),
  ap (integer_from_bits R) (product_bits R.width a b),
  ap (integer_from_bits R) (negated_bits R.width a),
  cast_iff_fits R a,
  fits-cast R a,
)
