-- ===== src/Preproc/IfExpr/Meaning/Forms.antt =====
-- `parse_unary`, `parse_and` and `parse_simple_expr` on the text of a condition, when
-- `parse_primary` reads the operands.
use tp2cc.Preproc.IfText.{Parse, Value, bool_value, is_word, match_word, matched, move, word_at}
use tp2cc.Messages.{IfError, and_requires_boolean, or_requires_boolean}
use tp2cc.Prelude.{
  Bool, Bytes, codes, false, length, not, refl, some, suc, true, ℕ, ◌&&◌, ◌++◌, ◌||◌, ◌∷◌, ◌≡◌,
}
use tp2cc.Text.{is_alnum, lower_char, skip_blanks}
use tp2cc.Preproc.Macro.{Defines}
use tp2cc.Preproc.IfExpr.{
  Result, negated, operator_loop, parse_and, parse_primary, parse_simple_expr, parse_unary,
}
use tp2cc.Preproc.IfExpr.Meaning.{
  Condition, conjunction, constant, defined_symbol, disjunction, equality, meaning, negation, show,
}

pub show-shape : (c : Condition) (rest : Bytes) → (t : Bytes) × (show c rest ≡ b'(' ∷ t)
unfolding show
show-shape (constant b) rest = (_, refl)
show-shape (defined_symbol s) rest = (_, refl)
show-shape (negation c) rest = (_, refl)
show-shape (conjunction c d) rest = (_, refl)
show-shape (disjunction c d) rest = (_, refl)
show-shape (equality c d) rest = (_, refl)

abbrev pub answer : Defines → Condition → Bytes → Parse → Result
answer ds c rest s = some (bool_value (meaning ds c), move rest s)

module _ (ds : Defines) (expr : Parse → Result) where
  -- `parse_primary` reads the condition `c`.
  abbrev pub ReadsPrimary : Condition → Type 0
  ReadsPrimary c =
      (rest : Bytes) (s : Parse) → parse_primary ds expr (move (show c rest) s) ≡ answer ds c rest s

  pub unary-show :
      (c : Condition) (n : ℕ) (rest : Bytes) (s : Parse)
      → ReadsPrimary c
      → parse_unary ds (suc n) expr (move (show c rest) s) ≡ answer ds c rest s
  unfolding parse_unary match_word matched word_at skip_blanks lower_char
  unary-show c n rest s h =
      let (t, e) = show-shape c rest in
      let h' : parse_primary ds expr (move (b'(' ∷ t) s) ≡ answer ds c rest s =
        rw e at (h rest s) in
      rw e h'

  loop_stops :
      (n : ℕ) (w : Bytes) (e : IfError) (op : Bool → Bool → Bool) (operand : Parse → Result)
      (v : Value) (rest : Bytes) (s : Parse)
      → match_word w rest ≡ (false, rest)
      → operator_loop ds (suc n) w e op operand v (move rest s) ≡ some (v, move rest s)
  unfolding operator_loop
  loop_stops n w e op operand v rest s h = rw h refl

  and-show :
      (c : Condition) (rest : Bytes) (s : Parse)
      → ReadsPrimary c
      → match_word (codes "and") rest ≡ (false, rest)
      → parse_and ds expr (move (show c rest) s) ≡ answer ds c rest s
  unfolding parse_and
  and-show c rest s h stop =
      rw (unary-show c (length (show c rest)) rest s h)
        (loop_stops (length rest) (codes "and") and_requires_boolean _ _ _ rest s stop)

  pub simple-show :
      (c : Condition) (rest : Bytes) (s : Parse)
      → ReadsPrimary c
      → match_word (codes "and") rest ≡ (false, rest)
      → match_word (codes "or") rest ≡ (false, rest)
      → parse_simple_expr ds expr (move (show c rest) s) ≡ answer ds c rest s
  unfolding parse_simple_expr
  simple-show c rest s h stop end =
      rw (and-show c rest s h stop)
        (loop_stops (length rest) (codes "or") or_requires_boolean _ _ _ rest s end)

  loop_once :
      (n : ℕ) (w : Bytes) (e : IfError) (op : Bool → Bool → Bool) (operand : Parse → Result)
      (a : Bool) (d : Condition) (text rest : Bytes) (s : Parse)
      → match_word w text ≡ (true, show d rest)
      → operand (move (show d rest) s) ≡ answer ds d rest s
      → match_word w rest ≡ (false, rest)
      → operator_loop ds (suc (suc n)) w e op operand (bool_value a) (move text s)
        ≡ some (bool_value (op a (meaning ds d)), move rest s)
  unfolding operator_loop
  loop_once n w e op operand a d text rest s m o stop = rw (m, o, stop) refl

  words_match :
      (d : Condition) (rest : Bytes)
      → (match_word (codes "and") (codes "and" ++ show d rest) ≡ (true, show d rest))
        × (match_word (codes "or") (codes "or" ++ show d rest) ≡ (true, show d rest))
        × (match_word (codes "not") (codes "not" ++ show d rest) ≡ (true, show d rest))
  unfolding match_word matched word_at skip_blanks lower_char is_word is_alnum
  words_match d rest = let (t, e) = show-shape d rest in (rw e refl, rw e refl, rw e refl)

  unary_not :
      (n : ℕ) (c : Condition) (text rest : Bytes) (s : Parse)
      → match_word (codes "not") text ≡ (true, show c rest)
      → parse_unary ds (suc n) expr (move (show c rest) s) ≡ answer ds c rest s
      → parse_unary ds (suc (suc n)) expr (move text s)
        ≡ some (bool_value (not (meaning ds c)), move rest s)
  unfolding parse_unary negated
  unary_not n c text rest s m h = rw (m, h) refl

  abbrev pub closed : Bytes → Bytes
  closed rest = b')' ∷ rest

  pub simple-conjunction :
      (c d : Condition) (rest : Bytes) (s : Parse)
      → ReadsPrimary c
      → ReadsPrimary d
      → parse_simple_expr ds expr (move (show c (codes "and" ++ show d (closed rest))) s)
        ≡ some (bool_value (meaning ds c && meaning ds d), move (closed rest) s)
  unfolding parse_simple_expr parse_and match_word matched word_at skip_blanks lower_char
  simple-conjunction c d rest s h k =
      let text = codes "and" ++ show d (closed rest) in
      rw
        (
          unary-show c (length (show c text)) text s h,
          loop_once (suc (suc (length (show d (closed rest))))) (codes "and") and_requires_boolean
              (λ a b. a && b) (λ (t : Parse). parse_unary ds (suc (length t.rest)) expr t)
              (meaning ds c) d text (closed rest) s (words_match d (closed rest)).0
              (unary-show d (length (show d (closed rest))) (closed rest) s k) refl,
        )
        (loop_stops (length (closed rest)) (codes "or") or_requires_boolean _ _ _ (closed rest) s
          refl)

  pub simple-disjunction :
      (c d : Condition) (rest : Bytes) (s : Parse)
      → ReadsPrimary c
      → ReadsPrimary d
      → parse_simple_expr ds expr (move (show c (codes "or" ++ show d (closed rest))) s)
        ≡ some (bool_value (meaning ds c || meaning ds d), move (closed rest) s)
  unfolding parse_simple_expr match_word matched word_at skip_blanks lower_char
  simple-disjunction c d rest s h k =
      let text = codes "or" ++ show d (closed rest) in
      rw (and-show c text s h refl) (
        loop_once (suc (length (show d (closed rest)))) (codes "or") or_requires_boolean
          (λ a b. a || b) (parse_and ds expr) (meaning ds c) d text (closed rest) s
          (words_match d (closed rest)).1 (and-show d (closed rest) s k refl) refl)

  pub simple-negation :
      (c : Condition) (rest : Bytes) (s : Parse)
      → ReadsPrimary c
      → parse_simple_expr ds expr (move (codes "not" ++ show c (closed rest)) s)
        ≡ some (bool_value (not (meaning ds c)), move (closed rest) s)
  unfolding parse_simple_expr parse_and match_word matched word_at skip_blanks lower_char
  simple-negation c rest s h =
      let text = codes "not" ++ show c (closed rest) in
      rw
        (
          unary_not (suc (suc (length (show c (closed rest))))) c text (closed rest) s
              (words_match c (closed rest)).2 (unary-show c _ (closed rest) s h),
          loop_stops (length (closed rest)) (codes "and") and_requires_boolean (λ a b. a && b)
              (λ (t : Parse). parse_unary ds (suc (length t.rest)) expr t) _ (closed rest) s refl,
        )
        (loop_stops (length (closed rest)) (codes "or") or_requires_boolean _ _ _ (closed rest) s
          refl)
