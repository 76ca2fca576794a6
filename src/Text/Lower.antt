-- ===== src/Text/Lower.antt =====
-- `lower` is the canonical form of Pascal's case-insensitive names.
use tp2cc.Prelude.{Bytes, [], ap, arith, length, refl, ℕ, ◌++◌, ◌∷◌, ◌≡◌}
use tp2cc.Text.{is_ident_cont, lower, lower_char}

pub lower_char_idem : (c : ℕ) → lower_char (lower_char c) ≡ lower_char c
unfolding lower_char
lower_char_idem c = ground arith

pub lower_idem : (s : Bytes) → lower (lower s) ≡ lower s
unfolding lower
lower_idem [] = refl
lower_idem (c ∷ s) = ground (arith, lower_char_idem c, lower_idem s)

pub lower-append : (s t : Bytes) → lower (s ++ t) ≡ lower s ++ lower t
unfolding lower
lower-append [] t = refl
lower-append (c ∷ s) t = ap (◌∷◌ (lower_char c)) (lower-append s t)

pub length-lower : (s : Bytes) → length (lower s) ≡ length s
unfolding lower
length-lower [] = refl
length-lower (c ∷ s) = ap (λ (n : ℕ). Prim.Native.Nat.suc n) (length-lower s)

pub is_ident_cont-lower_char : (c : ℕ) → is_ident_cont (lower_char c) ≡ is_ident_cont c
unfolding is_ident_cont lower_char
is_ident_cont-lower_char c = ground arith
