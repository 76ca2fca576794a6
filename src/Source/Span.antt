-- ===== src/Source/Span.antt =====
-- Scanning loops lose nothing: what they take and what they leave is what was there.
use tp2cc.Prelude.{Bool, Bool-cases, Bytes, [], ap, false, inl, inr, refl, true, ℕ, ◌++◌, ◌∷◌, ◌≡◌}
use tp2cc.Source.{Input, consume, span}

abbrev pub All : (ℕ → Bool) → Bytes → Type 0
All test [] = Unit
All test (c ∷ s) = (test c ≡ true) × All test s

-- `s` is empty or starts with a byte that fails the test.
abbrev pub Stops : (ℕ → Bool) → Bytes → Type 0
Stops test [] = Unit
Stops test (c ∷ s) = test c ≡ false

pub span-append :
    (test : ℕ → Bool) (r : Bytes) (inp : Input)
    → inp.rest ≡ r
    → (span test r inp).0 ++ (span test r inp).1.rest ≡ r
unfolding span
span-append test [] inp e = e
span-append test (c ∷ r) inp e = elim (Bool-cases (test c)) [
  | inl h ↦ rw h (ap (◌∷◌ c) (span-append test r (consume c r inp) refl))
  | inr h ↦ rw h e
]

pub span-All : (test : ℕ → Bool) (r : Bytes) (inp : Input) → All test (span test r inp).0
unfolding span
span-All test [] inp = tt
span-All test (c ∷ r) inp = elim (Bool-cases (test c)) [
  | inl h ↦ rw h (h, span-All test r (consume c r inp))
  | inr h ↦ rw h tt
]

pub span-Stops :
    (test : ℕ → Bool) (r : Bytes) (inp : Input) → inp.rest ≡ r → Stops test (span test r inp).1.rest
unfolding span
span-Stops test [] inp e = rw e tt
span-Stops test (c ∷ r) inp e = elim (Bool-cases (test c)) [
  | inl h ↦ rw h (span-Stops test r (consume c r inp) refl)
  | inr h ↦ rw h (rw e h)
]
