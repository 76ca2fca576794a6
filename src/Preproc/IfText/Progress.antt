-- ===== src/Preproc/IfText/Progress.antt =====
-- What the readers leave unread is no longer than what they were given.
use tp2cc.Preproc.IfText.{
  int_at, int_behind_sign, is_word, match_char, match_char_in, match_word, matched, read_ident,
  read_int, take_while, word_at,
}
use tp2cc.Prelude.{
  Bool, Bytes, Option, [], arith, false, length, none, refl, some, true, ℕ, ◌+◌, ◌<◌, ◌∷◌, ◌≡◌, ◌≤◌,
}
use tp2cc.Text.{is_digit, skip_blanks}
use tp2cc.Preproc.IfExpr.{start}

pub skip_blanks-le : (s : Bytes) → length (skip_blanks s) ≤ length s
unfolding skip_blanks
skip_blanks-le [] = omega arith
skip_blanks-le (c ∷ s) = ground (arith, skip_blanks-le s)

pub match_char-le :
    (c : ℕ) (s : Bytes)
    → (length (match_char c s).1 ≤ length s)
      × ((match_char c s).0 ≡ true → length (match_char c s).1 < length s)
unfolding match_char match_char_in
match_char-le c s = ground (arith, skip_blanks-le s)

pub word_at-lt :
    (w s behind : Bytes) → word_at w s ≡ some behind → length behind + length w ≡ length s
unfolding word_at
word_at-lt [] [] behind h = ground arith
word_at-lt [] (c ∷ s) behind h = ground arith
word_at-lt (w ∷ ws) [] behind h = cc
word_at-lt (w ∷ ws) (c ∷ s) behind h = ground (arith, word_at-lt ws s behind)

pub matched-le :
    (s : Bytes) (o : Option Bytes)
    → ((behind : Bytes) → o ≡ some behind → length behind < length s)
    → (length (matched s o).1 ≤ length s)
      × ((matched s o).0 ≡ true → length (matched s o).1 < length s)
unfolding matched
matched-le s none h = (omega arith, λ e. cc)
matched-le s (some behind) h = (omega (arith, h behind refl), λ e. h behind refl)

pub match_word-le :
    (c : ℕ) (w s : Bytes)
    → (length (match_word (c ∷ w) s).1 ≤ length s)
      × ((match_word (c ∷ w) s).0 ≡ true → length (match_word (c ∷ w) s).1 < length s)
unfolding match_word
match_word-le c w s =
    let t = skip_blanks s in
    let shorter =
      matched-le t (word_at (c ∷ w) t) (λ b e. omega (arith, word_at-lt (c ∷ w) t b e)) in
    (omega (arith, shorter.0, skip_blanks-le s), λ e. omega (arith, shorter.1 e, skip_blanks-le s))

pub take_while-le : (test : ℕ → Bool) (s : Bytes) → length (take_while test s).1 ≤ length s
unfolding take_while
take_while-le test [] = omega arith
take_while-le test (c ∷ s) = ground (arith, take_while-le test s)

pub read_int-le : (s : Bytes) → length (read_int s).1 ≤ length s
unfolding read_int
read_int-le s = at (skip_blanks s) (skip_blanks-le s)
  where
    behind :
        (n : Bool) (start t : Bytes)
        → length t ≤ length start
        → length (int_behind_sign n start t).1 ≤ length start
    behind n start t h = unfold int_behind_sign in ground (arith, take_while-le is_digit t)

    at : (t : Bytes) → length t ≤ length s → length (int_at t).1 ≤ length s
    at [] h = unfold int_at in omega arith
    at (c ∷ t) h =
        unfold int_at in
        ground (arith, behind true (c ∷ t) t, behind false (c ∷ t) t, behind false (c ∷ t) (c ∷ t))

pub read_ident-le : (s : Bytes) → length (read_ident s).1 ≤ length s
unfolding read_ident
read_ident-le s = omega (arith, skip_blanks-le s, take_while-le is_word (skip_blanks s))
