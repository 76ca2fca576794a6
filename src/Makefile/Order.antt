-- ===== src/Makefile/Order.antt =====
-- The order of `std::string`: the order of its bytes, the shorter first.
use tp2cc.Prelude.{Bool, Bytes, [], arith, false, ltb, refl, same, true, ◌&&◌, ◌==◌, ◌||◌, ◌∷◌, ◌≡◌}

unfoldable pub less : Bytes → Bytes → Bool
less [] [] = false
less [] (y ∷ ys) = true
less (x ∷ xs) [] = false
less (x ∷ xs) (y ∷ ys) = ltb x y || (x == y && less xs ys)

pub less-asym : (a b : Bytes) → less a b ≡ true → less b a ≡ false
unfolding less
less-asym [] (y ∷ b) h = refl
less-asym (x ∷ a) (y ∷ b) h = ground (arith, less-asym a b)
less-asym [] [] h = refl
less-asym (x ∷ a) [] h = cc

pub less-total : (a b : Bytes) → less b a ≡ false → same a b ≡ false → less a b ≡ true
unfolding less same
less-total [] [] h k = cc
less-total [] (y ∷ b) h k = refl
less-total (x ∷ a) [] h k = cc
less-total (x ∷ a) (y ∷ b) h k = ground (arith, less-total a b)
