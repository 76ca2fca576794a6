-- ===== src/Scan/Digits.antt =====
-- `Lexer::accumulate_digit`, in its 64-bit and its 32-bit version: `modulus` is 2^64 or 2^32.
pub mod Exact
use tp2cc.Prelude.{Bool, Bytes, [], false, if◌then◌else◌, leb, true, ℕ, ◌%◌, ◌*◌, ◌+◌, ◌^◌, ◌∷◌}

pub record Accumulator : Type 0 where
  pub value : ℕ
  pub overflow : Bool

abbrev pub no_digits : Accumulator
no_digits = record { value = 0; overflow = false }

abbrev pub u64 : ℕ
u64 = 2 ^ 64

abbrev pub u32 : ℕ
u32 = 2 ^ 32

-- `__builtin_mul_overflow` writes to `tmp`; `__builtin_add_overflow` writes its wrapped sum to
-- `value`, also when it overflows.
unfoldable pub accumulate_digit : ℕ → ℕ → ℕ → Accumulator → Accumulator
accumulate_digit modulus base digit a =
    if a.overflow
    then a
    else if leb modulus (a.value * base)
    then record a { overflow = true }
    else record {
      value = (a.value * base + digit) % modulus;
      overflow = leb modulus (a.value * base + digit);
    }

-- The calls that a scanner makes for the digits of one literal.
unfoldable pub accumulate : ℕ → ℕ → (ℕ → ℕ) → Bytes → Accumulator → Accumulator
unfolding accumulate_digit
accumulate modulus base val [] a = a
accumulate modulus base val (d ∷ ds) a =
    accumulate modulus base val ds (accumulate_digit modulus base (val d) a)
