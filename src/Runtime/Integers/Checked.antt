-- ===== src/Runtime/Integers/Checked.antt =====
-- The checked operations beside the wrapping ones, and division beside multiplication.
use native.Mathlib.Nat.{div-add-mod}
use tp2cc.Prelude.{
  Bool, Bool-cases, ap, arith, false, if◌then◌else◌, inl, inr, negsuc, not, pos, refl, suc, true, ℤ,
  ◌&&◌, ◌*ℤ◌, ◌+ℤ◌, ◌-ℤ◌, ◌∙◌, ◌≡◌,
}
use tp2cc.Runtime.Integers.{
  IntType, Outcome, Width, add_checked, bits_16, bits_32, bits_64, bits_8, cast, checked, fits,
  int_div, int_mod, int_overflow, integer_from_bits, min_of, mul_checked, negate_checked, overflows,
  quotient, remainder, returned, same_integer, sub_checked, thrown, to_bits, wrap_add, wrap_mul,
  wrap_negate, wrap_sub,
}
use tp2cc.Runtime.Integers.Wrapping.{bits-cast, cast-fits, wrap-cast}

-- What a checked operation does, by its exact result and by the wrapping operation.
abbrev pub CheckedBeside : IntType → ℤ → ℤ → Outcome → Type 0
CheckedBeside R exact wrapped o =
    o ≡ (if R.is_signed && not (fits R exact) then thrown int_overflow else returned wrapped)

checked_beside : (R : IntType) (x y : ℤ) → y ≡ cast R x → CheckedBeside R x y (checked R x)
unfolding checked
checked_beside R x y e = ground (arith, cast-fits R x)

negated_at :
    (w : Width) (s : Bool) (a : ℤ)
    → fits (record { width = w; is_signed = s }) a ≡ true
    → CheckedBeside
        (record { width = w; is_signed = s })
        (pos 0 -ℤ a)
        (cast (record { width = w; is_signed = s }) (pos 0 -ℤ a))
        (negate_checked (record { width = w; is_signed = s }) a)
unfolding negate_checked ◌-ℤ◌
negated_at bits_8 s a h = ground arith
negated_at bits_16 s a h = ground arith
negated_at bits_32 s a h = ground arith
negated_at bits_64 s a h = ground arith

negated_beside :
    (R : IntType) (a : ℤ)
    → fits R a ≡ true
    → CheckedBeside R (pos 0 -ℤ a) (wrap_negate R a) (negate_checked R a)
negated_beside R a h = rw (wrap-cast R a a).3 (negated_at R.width R.is_signed a h)

-- The checked operations throw the overflow exactly where the type is signed and does not have the
-- exact result, and return what the wrapping operation returns everywhere else. The negation is
-- stated for a value of the type.
pub checked-wrap :
    (R : IntType) (a b : ℤ)
    → fits R a ≡ true
    → CheckedBeside R (a +ℤ b) (wrap_add R a b) (add_checked R a b)
      × CheckedBeside R (a -ℤ b) (wrap_sub R a b) (sub_checked R a b)
      × CheckedBeside R (a *ℤ b) (wrap_mul R a b) (mul_checked R a b)
      × CheckedBeside R (pos 0 -ℤ a) (wrap_negate R a) (negate_checked R a)
unfolding add_checked sub_checked mul_checked
checked-wrap R a b h =
    let w = wrap-cast R a b in
    (
      checked_beside R _ _ w.0,
      checked_beside R _ _ w.1,
      checked_beside R _ _ w.2,
      negated_beside R a h,
    )

quotient_lem : (a b : ℤ) → quotient a b *ℤ b +ℤ remainder a b ≡ a
unfolding quotient remainder ◌*ℤ◌ ◌+ℤ◌
quotient_lem (pos a) (pos b) = grind (arith, div-add-mod a b)
quotient_lem (pos a) (negsuc b) = grind (arith, div-add-mod a (suc b))
quotient_lem (negsuc a) (pos b) = grind (arith, div-add-mod (suc a) b)
quotient_lem (negsuc a) (negsuc b) = grind (arith, div-add-mod (suc a) (suc b))

wrap_add-cast : (R : IntType) (a b : ℤ) → wrap_add R (cast R a) (cast R b) ≡ wrap_add R a b
unfolding wrap_add
wrap_add-cast R a b = rw (bits-cast R a, bits-cast R b) refl

wrap_mul-cast : (R : IntType) (a b : ℤ) → wrap_mul R (cast R a) b ≡ wrap_mul R a b
unfolding wrap_mul
wrap_mul-cast R a b = rw (bits-cast R a) refl

-- `div-mod` for the values that the two compute before the cast.
div-mod_exact :
    (R : IntType) (a b : ℤ)
    → fits R a ≡ true
    → wrap_add R (wrap_mul R (cast R (quotient a b)) b) (cast R (remainder a b)) ≡ a
div-mod_exact R a b h =
    rw (wrap_mul-cast R (quotient a b) b, (wrap-cast R (quotient a b) b).2)
      (wrap_add-cast R (quotient a b *ℤ b) (remainder a b)
        ∙ (wrap-cast R (quotient a b *ℤ b) (remainder a b)).0
        ∙ ap (cast R) (quotient_lem a b)
        ∙ cast-fits R a h)

same_integer-eq : (a b : ℤ) → same_integer a b ≡ true → a ≡ b
same_integer-eq a b h = ground arith

least_at :
    (w : Width) (s : Bool)
    → s ≡ true
    → wrap_add
        (record { width = w; is_signed = s })
        (wrap_mul
          (record { width = w; is_signed = s })
          (min_of (record { width = w; is_signed = s }))
          (negsuc 0))
        (pos 0)
      ≡ min_of (record { width = w; is_signed = s })
unfolding wrap_add wrap_mul integer_from_bits to_bits
least_at w false h = cc
least_at bits_8 true h = refl
least_at bits_16 true h = refl
least_at bits_32 true h = refl
least_at bits_64 true h = refl

-- `div-mod` for the least value, divided by -1.
div-mod_least :
    (R : IntType) (a b : ℤ) → overflows R a b ≡ true → wrap_add R (wrap_mul R a b) (pos 0) ≡ a
unfolding overflows
div-mod_least R a b o =
    rw (same_integer-eq a (min_of R) (ground arith), same_integer-eq b (negsuc 0) (ground arith))
      (least_at R.width R.is_signed (ground arith))

module _ (R : IntType) (check : Bool) (a b q r : ℤ) (d : int_div R check a b ≡ returned q)
    (m : int_mod R a b ≡ returned r) where
  values_of_least : overflows R a b ≡ true → (q ≡ a) × (r ≡ pos 0)
  unfolding int_div int_mod
  values_of_least o = ground arith

  values : overflows R a b ≡ false → (q ≡ cast R (quotient a b)) × (r ≡ cast R (remainder a b))
  unfolding int_div int_mod
  values o = ground arith

-- Where the division and the remainder return, the quotient times the divisor plus the remainder
-- is the dividend again, in the wrapping arithmetic of the type; the least value divided by -1
-- included.
pub div-mod :
    (R : IntType) (check : Bool) (a b q r : ℤ)
    → fits R a ≡ true
    → int_div R check a b ≡ returned q
    → int_mod R a b ≡ returned r
    → wrap_add R (wrap_mul R q b) r ≡ a
div-mod R check a b q r h d m = elim (Bool-cases (overflows R a b)) [
  | inl o ↦ let v = values_of_least R check a b q r d m o in rw (v.0, v.1) (div-mod_least R a b o)
  | inr o ↦ let v = values R check a b q r d m o in rw (v.0, v.1) (div-mod_exact R a b h)
]
