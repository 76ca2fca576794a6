-- ===== src/Scan/Digits/Exact.antt =====
-- The accumulator against exact arithmetic on unbounded numbers.
use native.Mathlib.Nat.{mod-eq_of_lt}
use tp2cc.Prelude.{
  Bool-cases, Bytes, [], ap, arith, false, inl, inr, leb, refl, sym, true, ℕ, ◌*◌, ◌+◌, ◌<◌, ◌∙◌,
  ◌∷◌, ◌≡◌, ◌≤◌, ◌⊎◌,
}
use tp2cc.Scan.Digits.{Accumulator, accumulate, accumulate_digit, no_digits}

-- The number that the digits denote, behind the digits with value `v`.
unfoldable pub numeral : ℕ → (ℕ → ℕ) → Bytes → ℕ → ℕ
numeral base val [] v = v
numeral base val (d ∷ ds) v = numeral base val ds (v * base + val d)

module _ (modulus base : ℕ) (val : ℕ → ℕ) where
  le-numeral : (ds : Bytes) (v : ℕ) → 0 < base → v ≤ numeral base val ds v
  unfolding numeral
  le-numeral [] v h = omega arith
  le-numeral (d ∷ ds) v h = grind (arith, le-numeral ds (v * base + val d) h)

  accumulate-overflow :
      (ds : Bytes) (a : Accumulator)
      → a.overflow ≡ true
      → (accumulate modulus base val ds a).overflow ≡ true
  unfolding accumulate
  accumulate-overflow [] a h = h
  accumulate-overflow (d ∷ ds) a h =
      accumulate-overflow ds (accumulate_digit modulus base (val d) a) (ground arith)

  accumulate_fits :
      (ds : Bytes) (v : ℕ)
      → 0 < base
      → numeral base val ds v < modulus
      → accumulate modulus base val ds (record { value = v; overflow = false })
        ≡ record { value = numeral base val ds v; overflow = false }
  unfolding accumulate numeral
  accumulate_fits [] v h f = refl
  accumulate_fits (d ∷ ds) v h f =
      let next = v * base + val d in
      let small : next < modulus = omega (arith, le-numeral ds next h, f) in
      ground (arith, accumulate_fits ds next h f, mod-eq_of_lt small)

  digit_exceeds :
      (v digit : ℕ)
      → modulus ≤ v * base + digit
      → (accumulate_digit modulus base digit (record { value = v; overflow = false })).overflow
        ≡ true
  unfolding accumulate_digit
  digit_exceeds v digit h = ground arith

  accumulate_exceeds :
      (ds : Bytes) (v : ℕ)
      → v < modulus
      → modulus ≤ numeral base val ds v
      → (accumulate modulus base val ds (record { value = v; overflow = false })).overflow ≡ true
  unfolding accumulate numeral
  accumulate_exceeds [] v h f = absurd (omega arith)
  accumulate_exceeds (d ∷ ds) v h f =
      let next = v * base + val d in
      elim (Bool-cases (leb modulus next)) [
        | inl big ↦ accumulate-overflow ds _ (digit_exceeds v (val d) (ground arith))
        | inr fits ↦
            let small : next < modulus = ground arith in
            ground (arith, accumulate_exceeds ds next small f, mod-eq_of_lt small)
      ]

  -- For a positive base and modulus, the flag is set exactly when the literal does not fit, and a
  -- literal that fits is exact.
  pub accumulate_exact :
      (ds : Bytes)
      → 0 < base
      → 0 < modulus
      → ((accumulate modulus base val ds no_digits).overflow ≡ leb modulus (numeral base val ds 0))
        × ((modulus ≤ numeral base val ds 0)
            ⊎ ((accumulate modulus base val ds no_digits).value ≡ numeral base val ds 0))
  accumulate_exact ds b m = elim (Bool-cases (leb modulus (numeral base val ds 0))) [
    | inl big ↦ (accumulate_exceeds ds 0 m (ground arith) ∙ sym big, inl (ground arith))
    | inr fits ↦
        let exact = accumulate_fits ds 0 b (ground arith) in
        (
          ap (λ (a : Accumulator). a.overflow) exact ∙ sym fits,
          inr (ap (λ (a : Accumulator). a.value) exact),
        )
  ]
