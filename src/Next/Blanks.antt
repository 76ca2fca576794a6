-- ===== src/Next/Blanks.antt =====
-- What the loops over comments and directives leave to read.
use tp2cc.Prelude.{Bytes, [], if_ind, refl, suc, zero, ℕ, ◌&&◌, ◌==◌, ◌∷◌, ◌≡◌}
use tp2cc.Source.{Input, consume, get}
use tp2cc.Source.Suffix.{Suffix, Suffix-trans, beyond, get-Suffix, whole}
use tp2cc.Next.{brace_depth, skip_bytes, until_brace, until_star_paren}

pub until_brace-Suffix :
    (r : Bytes) (inp : Input) → inp.rest ≡ r → Suffix (until_brace r inp).1.rest r
unfolding until_brace consume
until_brace-Suffix [] inp e = rw e whole
until_brace-Suffix (c ∷ r) inp e =
    if_ind (λ (m : Bytes × Input). Suffix m.1.rest (c ∷ r)) (c == b'}') (λ _. beyond whole)
      (λ _. beyond (until_brace-Suffix r (consume c r inp) refl))

pub until_star_paren-Suffix :
    (r : Bytes) (inp : Input) → inp.rest ≡ r → Suffix (until_star_paren r inp).1.rest r
unfolding until_star_paren consume
until_star_paren-Suffix [] inp e = rw e whole
until_star_paren-Suffix (c ∷ []) inp e = beyond whole
until_star_paren-Suffix (c ∷ d ∷ r) inp e =
    if_ind (λ (m : Bytes × Input). Suffix m.1.rest (c ∷ d ∷ r)) (c == b'*' && d == b')')
      (λ _. beyond (beyond whole))
      (λ _. beyond (until_star_paren-Suffix (d ∷ r) (consume c (d ∷ r) inp) refl))

pub brace_depth-Suffix :
    (r : Bytes) (depth : ℕ) (inp : Input) → inp.rest ≡ r → Suffix (brace_depth r depth inp).1.rest r
unfolding brace_depth consume
brace_depth-Suffix [] depth inp e = rw e whole
brace_depth-Suffix (c ∷ r) zero inp e = rw e whole
brace_depth-Suffix (c ∷ r) (suc depth) inp e =
    let ih = λ (n : ℕ). brace_depth-Suffix r n (consume c r inp) refl in
    if_ind Left (c == 0) (λ _. rw e whole)
      (λ _.
        if_ind Left (c == b'{') (λ _. beyond (ih (suc (suc depth))))
          (λ _. if_ind Left (c == b'}') (λ _. beyond (ih depth)) (λ _. beyond (ih (suc depth)))))
  where
    Left : ℕ × Input → Type 0
    Left m = Suffix m.1.rest (c ∷ r)

pub skip_bytes-Suffix : (n : ℕ) (inp : Input) → Suffix (skip_bytes n inp).rest inp.rest
unfolding skip_bytes
skip_bytes-Suffix zero inp = whole
skip_bytes-Suffix (suc n) inp = Suffix-trans (skip_bytes-Suffix n (get inp).1) (get-Suffix inp)

pub skip_second : (inp : Input) → Suffix (skip_bytes 2 inp).rest (get inp).1.rest
unfolding skip_bytes
skip_second inp = get-Suffix (get inp).1
