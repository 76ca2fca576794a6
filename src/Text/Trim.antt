-- ===== src/Text/Trim.antt =====
-- `trim` against its specification: no blank at either end.
use tp2cc.Prelude.{Bool-cases, Bytes, [], false, inl, inr, refl, ◌∷◌, ◌≡◌}
use tp2cc.Text.{is_space, trim_front}

abbrev pub Solid : Bytes → Type 0
Solid [] = Unit
Solid (c ∷ s) = is_space c ≡ false

pub trim_front-Solid : (s : Bytes) → Solid (trim_front s)
unfolding trim_front
trim_front-Solid [] = tt
trim_front-Solid (c ∷ s) = elim (Bool-cases (is_space c)) [
  | inl e ↦ rw e (trim_front-Solid s)
  | inr e ↦ rw e e
]

pub trim_front-of_Solid : (s : Bytes) → Solid s → trim_front s ≡ s
unfolding trim_front
trim_front-of_Solid [] h = refl
trim_front-of_Solid (c ∷ s) h = rw h refl
