-- ===== src/Preproc/IfExpr/Meaning/Show.antt =====
-- `eval_if_expr` gives the value of the condition that a text stands for.
use tp2cc.Preproc.IfText.{
  Parse, at_eof, bool_value, is_word, match_char, match_char_in, match_word, matched, move,
  read_ident, take_while, word_at,
}
use tp2cc.Prelude.{
  Bool, Bytes, [], arith, codes, false, is_empty, length, length-append, refl, some, suc, true,
  zero, ℕ, ◌++◌, ◌+◌, ◌<◌, ◌==◌, ◌||◌, ◌∷◌, ◌≡◌, ◌≤◌,
}
use tp2cc.Text.{is_alnum, lower, lower_char, skip_blanks}
use tp2cc.Preproc.Macro.{Defines, is_defined}
use tp2cc.Preproc.IfExpr.{
  Result, close_paren, compare_bools, compare_values, compare_with, eval_if_expr, finish_eval,
  if_eval, match_relop, op_eq, operator_loop, parse_and, parse_atom, parse_defined, parse_expr,
  parse_primary, parse_simple_expr, parse_unary, relop_at, start, value,
}
use tp2cc.Preproc.IfExpr.Meaning.{
  AllWord, Condition, IsProper, conjunction, constant, defined_symbol, disjunction, equality,
  height, meaning, negation, show,
}
use tp2cc.Preproc.IfExpr.Meaning.Forms.{
  ReadsPrimary, show-shape, simple-conjunction, simple-disjunction, simple-negation, simple-show,
}

module _ (ds : Defines) where
  -- An expression in parentheses is a primary.
  primary-of_simple :
      (f : ℕ) (inner rest : Bytes) (b : Bool) (s : Parse)
      → parse_simple_expr ds (parse_expr ds f) (move inner s)
        ≡ some (bool_value b, move (b')' ∷ rest) s)
      → parse_primary ds (parse_expr ds (suc f)) (move (b'(' ∷ inner) s)
        ≡ some (bool_value b, move rest s)
  unfolding parse_primary parse_expr match_char match_char_in skip_blanks match_relop relop_at
      compare_with close_paren
  primary-of_simple f inner [] b s h = rw h refl
  primary-of_simple f inner (d ∷ rest) b s h = rw h refl

  take_word :
      (n rest : Bytes) → AllWord n → take_while is_word (n ++ (b')' ∷ rest)) ≡ (n, b')' ∷ rest)
  unfolding take_while
  take_word [] rest a = unfold is_word is_alnum in refl
  take_word (c ∷ n) rest (h, a) = rw (h, take_word n rest a) refl

  not_blank : (c : ℕ) → is_word c ≡ true → (c == b' ' || c == b'\t') ≡ false
  unfolding is_word is_alnum
  not_blank c h = ground arith

  read_word :
      (c : ℕ) (n rest : Bytes)
      → AllWord (c ∷ n)
      → read_ident ((c ∷ n) ++ (b')' ∷ rest)) ≡ (lower (c ∷ n), b')' ∷ rest)
  unfolding read_ident skip_blanks
  read_word c n rest a = rw (not_blank c a.0, take_word (c ∷ n) rest a) refl

  primary-constant : (f : ℕ) (b : Bool) → ReadsPrimary ds (parse_expr ds (suc f)) (constant b)
  unfolding show meaning parse_simple_expr parse_and parse_unary operator_loop parse_primary
      parse_atom match_word matched word_at skip_blanks lower_char is_word is_alnum match_char
      match_char_in
  primary-constant f true rest s = primary-of_simple f (codes "true)" ++ rest) rest true s refl
  primary-constant f false rest s = primary-of_simple f (codes "false)" ++ rest) rest false s refl

  simple-defined :
      (expr : Parse → Result) (c : ℕ) (n rest : Bytes) (s : Parse)
      → AllWord (c ∷ n)
      → parse_simple_expr ds expr (move (codes "defined(" ++ ((c ∷ n) ++ (codes "))" ++ rest))) s)
        ≡ some (bool_value (is_defined (lower (c ∷ n)) ds), move (b')' ∷ rest) s)
  unfolding parse_simple_expr parse_and parse_unary operator_loop parse_primary parse_atom
      parse_defined match_word matched word_at skip_blanks lower_char is_word is_alnum match_char
      match_char_in lower
  simple-defined expr c n rest s a = rw (read_word c n (b')' ∷ rest) a) refl

  primary-defined :
      (f : ℕ) (n : Bytes)
      → is_empty n ≡ false
      → AllWord n
      → ReadsPrimary ds (parse_expr ds (suc f)) (defined_symbol n)
  unfolding show meaning
  primary-defined f [] ne a rest s = cc
  primary-defined f (c ∷ n) ne a rest s =
      primary-of_simple f (codes "defined(" ++ ((c ∷ n) ++ (codes "))" ++ rest))) rest _ s
        (simple-defined (parse_expr ds f) c n rest s a)

  before_equals :
      (r : Bytes)
      → (match_word (codes "and") (b'=' ∷ r) ≡ (false, b'=' ∷ r))
        × (match_word (codes "or") (b'=' ∷ r) ≡ (false, b'=' ∷ r))
  unfolding match_word matched word_at skip_blanks lower_char
  before_equals r = (refl, refl)

  before_close :
      (r : Bytes)
      → (match_word (codes "and") (b')' ∷ r) ≡ (false, b')' ∷ r))
        × (match_word (codes "or") (b')' ∷ r) ≡ (false, b')' ∷ r))
  unfolding match_word matched word_at skip_blanks lower_char
  before_close r = (refl, refl)

  primary-equality :
      (f : ℕ) (c d : Condition)
      → ReadsPrimary ds (parse_expr ds f) c
      → ReadsPrimary ds (parse_expr ds f) d
      → ReadsPrimary ds (parse_expr ds (suc f)) (equality c d)
  unfolding show meaning parse_primary parse_expr match_char match_char_in skip_blanks compare_with
      close_paren compare_values compare_bools
  primary-equality f c d h k rest s =
      let right = b')' ∷ rest in
      rw
        (
          simple-show ds (parse_expr ds f) c (b'=' ∷ show d right) s h
              (before_equals (show d right)).0 (before_equals (show d right)).1,
          relop_before d right,
          simple-show ds (parse_expr ds f) d right s k (before_close rest).0 (before_close rest).1,
        )
        refl
    where
      relop_before :
          (d : Condition) (r : Bytes) → match_relop (b'=' ∷ show d r) ≡ (some op_eq, show d r)
      relop_before d r =
          let (t, e) = show-shape d r in rw e (unfold match_relop relop_at skip_blanks in refl)

  height_pos : (c : Condition) → 0 < height c
  height_pos (constant b) = omega arith
  height_pos _ = omega arith

  pub primary-show :
      (c : Condition) (f : ℕ) → IsProper c → height c ≤ f → ReadsPrimary ds (parse_expr ds f) c
  unfolding show meaning
  primary-show c zero p h = absurd (omega (arith, height_pos c))
  primary-show (constant b) (suc f) p h = primary-constant f b
  primary-show (defined_symbol n) (suc f) p h = primary-defined f n p.0 p.1
  primary-show (negation c) (suc f) p h =
      let reads = primary-show c f p (omega arith) in
      λ rest s. primary-of_simple f _ rest _ s (simple-negation ds (parse_expr ds f) c rest s reads)
  primary-show (conjunction c d) (suc f) p h =
      let left = primary-show c f p.0 (omega arith) in
      let right = primary-show d f p.1 (omega arith) in
      λ rest s.
        primary-of_simple f _ rest _ s
          (simple-conjunction ds (parse_expr ds f) c d rest s left right)
  primary-show (disjunction c d) (suc f) p h =
      let left = primary-show c f p.0 (omega arith) in
      let right = primary-show d f p.1 (omega arith) in
      λ rest s.
        primary-of_simple f _ rest _ s
          (simple-disjunction ds (parse_expr ds f) c d rest s left right)
  primary-show (equality c d) (suc f) p h =
      primary-equality f c d (primary-show c f p.0 (omega arith))
        (primary-show d f p.1 (omega arith))

  pub height_le : (c : Condition) (rest : Bytes) → height c + length rest < length (show c rest)
  unfolding show
  height_le (constant true) rest = omega arith
  height_le (constant false) rest = omega arith
  height_le (defined_symbol s) rest = omega (arith, length-append s (codes "))" ++ rest))
  height_le (negation c) rest = let ih = height_le c (b')' ∷ rest) in omega arith
  height_le (conjunction c d) rest =
      let right = height_le d (b')' ∷ rest) in
      let left = height_le c (codes "and" ++ show d (b')' ∷ rest)) in omega arith
  height_le (disjunction c d) rest =
      let right = height_le d (b')' ∷ rest) in
      let left = height_le c (codes "or" ++ show d (b')' ∷ rest)) in omega arith
  height_le (equality c d) rest =
      let right = height_le d (b')' ∷ rest) in
      let left = height_le c (b'=' ∷ show d (b')' ∷ rest)) in omega arith

pub words_at_end :
    (match_word (codes "and") [] ≡ (false, [])) × (match_word (codes "or") [] ≡ (false, []))
unfolding match_word matched word_at skip_blanks lower_char
words_at_end = (refl, refl)

-- `eval_if_expr` on the text of a condition, however nested, gives the value of the condition, if
-- the symbols in it are words and not empty.
eval_if_expr-show :
    (ds : Defines) (c : Condition)
    → IsProper c
    → eval_if_expr ds (show c []) ≡ some (value (meaning ds c))
unfolding eval_if_expr parse_expr finish_eval compare_with match_relop relop_at skip_blanks if_eval
    at_eof
eval_if_expr-show ds c p =
    let f = length (show c []) in
    let reads = primary-show ds c f p (omega (arith, height_le ds c [])) in
    rw (simple-show ds (parse_expr ds f) c [] (start []) reads words_at_end.0 words_at_end.1) refl
