-- ===== src/Source/Suffix.antt =====
-- What is left to read is a suffix of what there was.
use mathlib.Core.Path.{subst}
use tp2cc.Prelude.{
  Bool, Bytes, [], arith, false, is_empty, length, refl, true, ℕ, ◌++◌, ◌<◌, ◌∷◌, ◌≡◌, ◌≢◌, ◌≤◌,
}
use mathlib.Core.Path.{subst}
use tp2cc.Source.{Input, consume, get, peek, span}
use mathlib.Core.Path.{subst}
use tp2cc.Source.Span.{span-append}

pub data Suffix (s : Bytes) : Bytes → Type 0 where
  whole : Suffix s s
  beyond : {c : ℕ} {r : Bytes} → Suffix s r → Suffix s (c ∷ r)

pub Suffix-trans : {a b c : Bytes} → Suffix a b → Suffix b c → Suffix a c
Suffix-trans s whole = s
Suffix-trans s (beyond t) = beyond (Suffix-trans s t)

pub Suffix-length : {s r : Bytes} → Suffix s r → length s ≤ length r
Suffix-length whole = omega arith
Suffix-length (beyond t) = omega (arith, Suffix-length t)

pub Suffix-of_append : (p : Bytes) {s r : Bytes} → p ++ s ≡ r → Suffix s r
Suffix-of_append [] e = subst (Suffix _) e whole
Suffix-of_append (c ∷ p) e = subst (Suffix _) e (beyond (Suffix-of_append p refl))

pub span-Suffix : (test : ℕ → Bool) (inp : Input) → Suffix (span test inp.rest inp).1.rest inp.rest
span-Suffix test inp =
    Suffix-of_append (span test inp.rest inp).0 (span-append test inp.rest inp refl)

pub get-Suffix : (inp : Input) → Suffix (get inp).1.rest inp.rest
unfolding get
get-Suffix inp = go inp.rest
  where
    go : (r : Bytes) → Suffix (get (record inp { rest = r })).1.rest r
    go [] = whole
    go (c ∷ r) = beyond whole

-- A suffix of all but the first byte.
unfoldable pub Inside : Bytes → Bytes → Type 0
Inside s [] = ⊥
Inside s (c ∷ r) = Suffix s r

pub Inside-Suffix : (s r : Bytes) → Inside s r → Suffix s r
unfolding Inside
Inside-Suffix s [] i = absurd i
Inside-Suffix s (c ∷ r) i = beyond i

pub Inside-trans : (s t r : Bytes) → Suffix s t → Inside t r → Inside s r
unfolding Inside
Inside-trans s t [] u i = i
Inside-trans s t (c ∷ r) u i = Suffix-trans u i

pub Inside-before : (s t r : Bytes) → Inside s t → Suffix t r → Inside s r
unfolding Inside
Inside-before s t r i whole = i
Inside-before s t (c ∷ r) i (beyond u) = Suffix-trans (Inside-Suffix _ _ i) u

pub get-Inside : (inp : Input) → peek inp.rest 0 ≢ 0 → Inside (get inp).1.rest inp.rest
unfolding get peek Inside
get-Inside inp h = go inp.rest h
  where
    go : (r : Bytes) → peek r 0 ≢ 0 → Inside (get (record inp { rest = r })).1.rest r
    go [] k = k refl
    go (c ∷ r) k = whole

pub Inside-length : (s r : Bytes) → Inside s r → length s < length r
unfolding Inside
Inside-length s [] i = absurd i
Inside-length s (c ∷ r) i = omega (arith, Suffix-length i)

pub get-Inside_nonempty :
    (inp : Input) → is_empty inp.rest ≡ false → Inside (get inp).1.rest inp.rest
unfolding get Inside
get-Inside_nonempty inp h = go inp.rest h
  where
    go : (r : Bytes) → is_empty r ≡ false → Inside (get (record inp { rest = r })).1.rest r
    go [] k = cc
    go (c ∷ r) k = whole

pub span-Inside :
    (test : ℕ → Bool) (inp : Input)
    → test 0 ≡ false
    → test (peek inp.rest 0) ≡ true
    → Inside (span test inp.rest inp).1.rest inp.rest
unfolding span peek Inside
span-Inside test inp z h = go inp.rest h
  where
    go :
        (r : Bytes)
        → test (peek r 0) ≡ true
        → Inside (span test r (record inp { rest = r })).1.rest r
    go [] k = cc
    go (c ∷ r) k = rw k (span-Suffix test (consume c r (record inp { rest = c ∷ r })))

pub span-Inside_nonempty :
    (test : ℕ → Bool) (inp : Input)
    → is_empty inp.rest ≡ false
    → test (peek inp.rest 0) ≡ true
    → Inside (span test inp.rest inp).1.rest inp.rest
unfolding span peek Inside
span-Inside_nonempty test inp n h = go inp.rest n h
  where
    go :
        (r : Bytes)
        → is_empty r ≡ false
        → test (peek r 0) ≡ true
        → Inside (span test r (record inp { rest = r })).1.rest r
    go [] e k = cc
    go (c ∷ r) e k = rw k (span-Suffix test (consume c r (record inp { rest = c ∷ r })))
