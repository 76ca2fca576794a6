-- ===== src/Preproc/IfExpr/Meaning/Precedence.antt =====
-- `eval_if_expr` gives a chain its value.
use tp2cc.Preproc.IfText.{Parse, at_eof, bool_value, is_word, match_word, matched, move, word_at}
use tp2cc.Messages.{and_requires_boolean, or_requires_boolean}
use tp2cc.Prelude.{
  Bytes, List, [], arith, codes, false, length, length-append, refl, some, suc, true, zero, ℕ, ◌&&◌,
  ◌++◌, ◌+◌, ◌<◌, ◌||◌, ◌∷◌, ◌≡◌, ◌≤◌,
}
use tp2cc.Text.{is_alnum, lower_char, skip_blanks}
use tp2cc.Preproc.Macro.{Defines}
use tp2cc.Preproc.IfExpr.{
  Result, compare_with, eval_if_expr, finish_eval, if_eval, match_relop, negated, parse_and,
  parse_expr, parse_simple_expr, parse_unary, relop_at, start, value,
}
use tp2cc.Preproc.IfExpr.Meaning.{Condition, height, meaning}
use tp2cc.Preproc.IfExpr.Meaning.Forms.{ReadsPrimary, show-shape, unary-show}
use tp2cc.Preproc.IfExpr.Meaning.Show.{height_le, primary-show, words_at_end}
use tp2cc.Preproc.IfExpr.Meaning.Chain.{
  All, AllChain, Chain, IsProperOperand, Operand, chain_value, join, loop_chain, negate_times,
  operand_height, operand_value, show_and, show_nots, show_operand, show_or, show_tail, sizes,
  total,
}

module _ (ds : Defines) (expr : Parse → Result) where
  nots_shape :
      (n : ℕ) (c : Condition) (rest : Bytes)
      → match_word (codes "not") (codes " not" ++ show_nots n c rest) ≡ (true, show_nots n c rest)
  unfolding match_word matched word_at skip_blanks lower_char is_word is_alnum
  nots_shape zero c rest = let (t, e) = show-shape c rest in rw e refl
  nots_shape (suc n) c rest = refl

  unary-nots :
      (n k : ℕ) (c : Condition) (rest : Bytes) (s : Parse)
      → ReadsPrimary ds expr c
      → n < k
      → parse_unary ds k expr (move (show_nots n c rest) s)
        ≡ some (bool_value (negate_times n (meaning ds c)), move rest s)
  unfolding parse_unary negated
  unary-nots n zero c rest s h l = absurd (omega arith)
  unary-nots zero (suc k) c rest s h l = unary-show ds expr c k rest s h
  unary-nots (suc n) (suc k) c rest s h l =
      rw (nots_shape n c rest, unary-nots n k c rest s h (omega arith)) refl

  Reads : Operand → Type 0
  Reads (n, c) = ReadsPrimary ds expr c

  nots_length :
      (n : ℕ) (c : Condition) (rest : Bytes)
      → n + height c + length rest < length (show_nots n c rest)
  nots_length zero c rest = omega (arith, height_le ds c rest)
  nots_length (suc n) c rest = omega (arith, nots_length n c rest)

  read_operand :
      (x : Operand) (rest : Bytes) (s : Parse)
      → Reads x
      → parse_unary ds (suc (length (show_operand x rest))) expr (move (show_operand x rest) s)
        ≡ some (bool_value (operand_value ds x), move rest s)
  unfolding Reads
  read_operand (n, c) rest s h = unary-nots n _ c rest s h (omega (arith, nots_length n c rest))

  and_word :
      (x : Operand) (r : Bytes)
      → match_word (codes "and") (codes "and" ++ show_operand x r) ≡ (true, show_operand x r)
  unfolding match_word matched word_at skip_blanks lower_char is_word is_alnum
  and_word (zero, c) r = let (t, e) = show-shape c r in rw e refl
  and_word (suc n, c) r = refl

  tail_length {ℓ} :
      {A : Type ℓ} (c : ℕ) (w : Bytes) (one : A → Bytes → Bytes) (size : A → ℕ) (xs : List A)
      (rest : Bytes)
      → ((x : A) (r : Bytes) → size x + length r < length (one x r))
      → (length xs ≤ length (show_tail (c ∷ w) one xs rest))
        × (sizes size xs + length rest ≤ length (show_tail (c ∷ w) one xs rest))
  tail_length c w one size [] rest h = (omega arith, omega arith)
  tail_length c w one size (x ∷ xs) rest h =
      let tail = show_tail (c ∷ w) one xs rest in
      let ih = tail_length c w one size xs rest h in
      let l = h x tail in
      let a = length-append w (one x tail) in (omega (arith, ih), omega (arith, ih))

  operand_length :
      (x : Operand) (r : Bytes) → operand_height x + length r < length (show_operand x r)
  operand_length (n, c) r = omega (arith, nots_length n c r)

  and_length :
      (x : Chain Operand) (r : Bytes) → total operand_height x + length r < length (show_and x r)
  and_length (x, xs) r =
      let tail = show_tail (codes "and") show_operand xs r in
      omega (
        arith,
        operand_length x tail,
        tail_length b'a' (codes "nd") show_operand operand_height xs r operand_length,
      )

  or_length :
      (x : Chain (Chain Operand)) (r : Bytes)
      → total (total operand_height) x + length r < length (show_or x r)
  or_length (x, xs) r =
      let tail = show_tail (codes "or") show_and xs r in
      omega (
        arith,
        and_length x tail,
        tail_length b'o' (codes "r") show_and (total operand_height) xs r and_length,
      )

  and-chain :
      (x : Chain Operand) (rest : Bytes) (s : Parse)
      → AllChain Reads x
      → match_word (codes "and") rest ≡ (false, rest)
      → parse_and ds expr (move (show_and x rest) s)
        ≡ some (bool_value (join (λ a b. a && b) (operand_value ds) x), move rest s)
  unfolding parse_and
  and-chain (x, xs) rest s h stop =
      let tail = show_tail (codes "and") show_operand xs rest in
      rw (read_operand x tail s h.0) (
        loop_chain ds expr (codes "and") and_requires_boolean (λ a b. a && b)
          (λ (t : Parse). parse_unary ds (suc (length t.rest)) expr t) show_operand
          (operand_value ds) (λ r. Unit) Reads (suc (length tail)) xs (operand_value ds x) rest s
          and_word (λ y r t g _. read_operand y r t g) (λ y r. tt) tt stop h.1
          (omega (
            arith,
            tail_length b'a' (codes "nd") show_operand operand_height xs rest operand_length,
          )))

  -- `or` does not begin with `and`.
  or_word :
      (x : Chain Operand) (r : Bytes)
      → (match_word (codes "or") (codes "or" ++ show_and x r) ≡ (true, show_and x r))
        × (match_word (codes "and") (codes "or" ++ show_and x r)
            ≡ (false, codes "or" ++ show_and x r))
  unfolding match_word matched word_at skip_blanks lower_char is_word is_alnum
  or_word ((zero, c), xs) r =
      let (t, e) = show-shape c (show_tail (codes "and") show_operand xs r) in (rw e refl, refl)
  or_word ((suc n, c), xs) r = (refl, refl)

  simple-chain :
      (x : Chain (Chain Operand)) (rest : Bytes) (s : Parse)
      → AllChain (AllChain Reads) x
      → match_word (codes "and") rest ≡ (false, rest)
      → match_word (codes "or") rest ≡ (false, rest)
      → parse_simple_expr ds expr (move (show_or x rest) s)
        ≡ some (bool_value (chain_value ds x), move rest s)
  unfolding parse_simple_expr
  simple-chain (x, xs) rest s h stop end =
      let tail = show_tail (codes "or") show_and xs rest in
      rw (and-chain x tail s h.0 (first_ends xs)) (
        loop_chain ds expr (codes "or") or_requires_boolean (λ a b. a || b) (parse_and ds expr)
          show_and (join (λ a b. a && b) (operand_value ds))
          (λ r. match_word (codes "and") r ≡ (false, r)) (AllChain Reads) (suc (length tail)) xs _
          rest s (λ y r. (or_word y r).0) (λ y r t g e. and-chain y r t g e)
          (λ y r. (or_word y r).1) stop end h.1
          (omega (
            arith,
            tail_length b'o' (codes "r") show_and (total operand_height) xs rest and_length,
          )))
    where
      first_ends :
          (ys : List (Chain Operand))
          → match_word (codes "and") (show_tail (codes "or") show_and ys rest)
            ≡ (false, show_tail (codes "or") show_and ys rest)
      first_ends [] = stop
      first_ends (y ∷ ys) = (or_word y (show_tail (codes "or") show_and ys rest)).1

module _ (ds : Defines) (f : ℕ) where
  read_proper :
      (x : Operand) → IsProperOperand x → operand_height x ≤ f → Reads ds (parse_expr ds f) x
  unfolding Reads
  read_proper (n, c) p h = primary-show ds c f p h

  read_all {ℓ} :
      {A : Type ℓ} (P Q : A → Type 0) (size : A → ℕ) (x : Chain A)
      → ((y : A) → P y → size y ≤ f → Q y)
      → AllChain P x
      → total size x ≤ f
      → AllChain Q x
  read_all P Q size (x, xs) one p h = (one x p.0 (omega arith), rest xs p.1 (omega arith))
    where
      rest : (ys : List _) → All P ys → sizes size ys ≤ f → All Q ys
      rest [] p h = tt
      rest (y ∷ ys) p h = (one y p.0 (omega arith), rest ys p.1 (omega arith))

-- `eval_if_expr` on the text of a chain, that is, of conditions in parentheses with any number of
-- `not`s in front, joined by `and` and `or` with no further parentheses, gives its value: `not` binds
-- before `and`, `and` before `or`, and the chain has any length. The conditions are boolean, and
-- the symbols in them are words and not empty.
pub eval_if_expr-chain :
    (ds : Defines) (x : Chain (Chain Operand))
    → AllChain (AllChain IsProperOperand) x
    → eval_if_expr ds (show_or x []) ≡ some (value (chain_value ds x))
unfolding eval_if_expr parse_expr finish_eval compare_with match_relop relop_at skip_blanks if_eval
    at_eof
eval_if_expr-chain ds x p =
    let f = length (show_or x []) in
    let reads =
      read_all ds f (AllChain IsProperOperand) (AllChain (Reads ds (parse_expr ds f)))
        (total operand_height) x
        (λ y q h.
          read_all ds f IsProperOperand (Reads ds (parse_expr ds f)) operand_height y
            (read_proper ds f) q h)
        p (omega (arith, or_length ds (parse_expr ds f) x [])) in
    rw (simple-chain ds (parse_expr ds f) x [] (start []) reads words_at_end.0 words_at_end.1) refl
