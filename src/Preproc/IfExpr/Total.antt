-- ===== src/Preproc/IfExpr/Total.antt =====
-- The evaluator ends on every expression: the fuel of `eval_if_expr` is enough.
use tp2cc.Preproc.IfText.Progress.{
  match_char-le, match_word-le, read_ident-le, read_int-le, skip_blanks-le,
}
use tp2cc.Preproc.IfText.{
  Parse, Value, bool_value, fail, int_value, is_bool, match_char, match_word, move,
  parse_macro_value, read_ident, read_int,
}
use tp2cc.Preproc.Macro.{Defines, find_define}
use tp2cc.Messages.{
  IfError, and_requires_boolean, boolean_comparison, mixed_comparison, or_requires_boolean,
  unsupported_value,
}
use tp2cc.Prelude.{
  Bool, Bytes, Option, [], arith, codes, false, if◌then◌else◌, is_empty, length, none, not, refl,
  some, suc, true, zero, ℕ, ◌&&◌, ◌<◌, ◌∷◌, ◌≡◌, ◌≤◌,
}
use tp2cc.Text.{skip_blanks}
use tp2cc.Preproc.IfExpr.{
  IfEval, Relop, Result, bind, close_paren, compare_bools, compare_values, compare_with,
  eval_if_expr, failed, finish_eval, if_eval, int_or_symbol, match_relop, negated, op_eq, op_ne,
  operator_loop, parse_and, parse_atom, parse_defined, parse_expr, parse_primary, parse_simple_expr,
  parse_symbol, parse_unary, relop_at, start, symbol_value,
}

-- A result that leaves at most `n` bytes unread.
abbrev pub Leaves : ℕ → Result → Type 0
Leaves n m = (v : Value) × (s : Parse) × (m ≡ some (v, s)) × (length s.rest ≤ n)

Leaves-mono : {m n : ℕ} (r : Result) → m ≤ n → Leaves m r → Leaves n r
Leaves-mono r h (v, s, e, k) = (v, s, e, omega arith)

bind-Leaves :
    (m n : ℕ) (r : Result) (f : Value → Parse → Result)
    → Leaves m r
    → ((v : Value) (s : Parse) → length s.rest ≤ m → Leaves n (f v s))
    → Leaves n (bind r f)
bind-Leaves m n r f (v, s, e, k) h = rw e (h v s k)

-- A parser that ends on every source of less than `bound` bytes, and never reads back.
abbrev pub Ends : ℕ → (Parse → Result) → Type 0
Ends bound p = (s : Parse) → length s.rest < bound → Leaves (length s.rest) (p s)

if_Leaves :
    {n : ℕ} (b : Bool) {x y : Result}
    → (b ≡ true → Leaves n x)
    → (b ≡ false → Leaves n y)
    → Leaves n (if b then x else y)
if_Leaves true x y = x refl
if_Leaves false x y = y refl

failed-Leaves : (n : ℕ) (e : IfError) (s : Parse) → length s.rest ≤ n → Leaves n (failed e s)
unfolding fail
failed-Leaves n e s h = (bool_value false, fail e s, refl, h)

module _ (defines : Defines) where
  parse_defined-Leaves : (s : Parse) → Leaves (length s.rest) (parse_defined defines s)
  unfolding parse_defined
  parse_defined-Leaves s =
      let opened = match_char b'(' s.rest in
      let name = read_ident opened.1 in
      let shut = match_char b')' name.1 in
      let a = (match_char-le b'(' s.rest).0 in
      let b = read_ident-le opened.1 in
      let c = (match_char-le b')' name.1).0 in
      if_Leaves (not opened.0) (λ _. failed-Leaves _ _ (move opened.1 s) a)
        (λ _.
          if_Leaves (is_empty name.0) (λ _. failed-Leaves _ _ (move name.1 s) (omega arith))
            (λ _.
              if_Leaves (not shut.0) (λ _. failed-Leaves _ _ (move shut.1 s) (omega arith))
                (λ _. (_, _, refl, omega arith))))

  symbol_value-Leaves :
      (ident : Bytes) (s : Parse) (o : Option (Option Bytes))
      → Leaves (length s.rest) (symbol_value defines ident s o)
  unfolding symbol_value
  symbol_value-Leaves ident s (some (some text)) = go (parse_macro_value text)
    where
      go :
          (o : Option Value)
          → Leaves
              (length s.rest)
              (elim o [ some v ↦ some (v, s) | none ↦ failed (unsupported_value ident text) s ])
      go (some v) = (v, s, refl, omega arith)
      go none = failed-Leaves _ _ s (omega arith)
  symbol_value-Leaves ident s (some none) = failed-Leaves _ _ s (omega arith)
  symbol_value-Leaves ident s none = failed-Leaves _ _ s (omega arith)

  parse_symbol-Leaves : (n : ℕ) (s : Parse) → length s.rest ≤ n → Leaves n (parse_symbol defines s)
  unfolding parse_symbol
  parse_symbol-Leaves n s h =
      let name = read_ident s.rest in
      let b = read_ident-le s.rest in
      if_Leaves (is_empty name.0) (λ _. failed-Leaves _ _ (move name.1 s) (omega arith))
        (λ _.
          Leaves-mono _ (omega arith)
            (symbol_value-Leaves name.0 (move name.1 s) (find_define name.0 defines)))

  int_or_symbol-Leaves :
      (n : ℕ) (s : Parse) (o : Option ℕ × Bytes)
      → length o.1 ≤ n
      → Leaves n (int_or_symbol defines s o)
  unfolding int_or_symbol
  int_or_symbol-Leaves n s (some v, r) h = (int_value v, move r s, refl, h)
  int_or_symbol-Leaves n s (none, r) h = parse_symbol-Leaves n (move r s) h

  parse_atom-Leaves : (n : ℕ) (s : Parse) → length s.rest ≤ n → Leaves n (parse_atom defines s)
  unfolding parse_atom
  parse_atom-Leaves n s h =
      let d = match_word (codes "defined") s.rest in
      let t = match_word (codes "true") s.rest in
      let f = match_word (codes "false") t.1 in
      let a = (match_word-le b'd' (codes "efined") s.rest).0 in
      let b = (match_word-le b't' (codes "rue") s.rest).0 in
      let c = (match_word-le b'f' (codes "alse") t.1).0 in
      if_Leaves d.0 (λ _. Leaves-mono _ (omega arith) (parse_defined-Leaves (move d.1 s)))
        (λ _.
          if_Leaves t.0 (λ _. (_, _, refl, omega arith))
            (λ _.
              if_Leaves f.0 (λ _. (_, _, refl, omega arith))
                (λ _. int_or_symbol-Leaves n s (read_int f.1) (omega (arith, read_int-le f.1)))))

  close_paren-Leaves : (v : Value) (s : Parse) → Leaves (length s.rest) (close_paren defines v s)
  unfolding close_paren
  close_paren-Leaves v s = (v, _, refl, ground (arith, (match_char-le b')' s.rest).0))

  module _ (bound : ℕ) (expr : Parse → Result) (ends : Ends bound expr) where
    -- A parser called with the parenthesised sources shorter than its own.
    parse_primary-Leaves :
        (s : Parse) → length s.rest ≤ bound → Leaves (length s.rest) (parse_primary defines expr s)
    unfolding parse_primary
    parse_primary-Leaves s h =
        let opened = match_char b'(' s.rest in
        let le = match_char-le b'(' s.rest in
        if_Leaves opened.0
          (λ o.
            bind-Leaves (length opened.1) _ (expr (move opened.1 s)) _
              (ends (move opened.1 s) (omega (arith, le.1 o)))
              (λ v t k. Leaves-mono _ (omega (arith, le.0)) (close_paren-Leaves v t)))
          (λ _. parse_atom-Leaves _ (move opened.1 s) le.0)

    negated-Leaves : (v : Value) (s : Parse) → Leaves (length s.rest) (negated defines v s)
    unfolding negated fail
    negated-Leaves v s = (_, _, refl, ground arith)

    parse_unary-Leaves :
        (fuel : ℕ) (s : Parse)
        → length s.rest < fuel
        → length s.rest ≤ bound
        → Leaves (length s.rest) (parse_unary defines fuel expr s)
    unfolding parse_unary
    parse_unary-Leaves zero s f h = elim f [ ]
    parse_unary-Leaves (suc fuel) s f h =
        let word = match_word (codes "not") s.rest in
        let le = match_word-le b'n' (codes "ot") s.rest in
        if_Leaves word.0
          (λ w.
            bind-Leaves (length word.1) _ (parse_unary defines fuel expr (move word.1 s)) _
              (parse_unary-Leaves fuel (move word.1 s) (omega (arith, le.1 w))
                (omega (arith, le.0)))
              (λ v t k. Leaves-mono _ (omega (arith, le.0)) (negated-Leaves v t)))
          (λ _. Leaves-mono _ le.0 (parse_primary-Leaves (move word.1 s) (omega (arith, le.0))))

    operator_loop-Leaves :
        (fuel c : ℕ) (w : Bytes) (e : IfError) (op : Bool → Bool → Bool) (operand : Parse → Result)
        (v : Value) (s : Parse)
        → Ends (suc bound) operand
        → length s.rest < fuel
        → length s.rest ≤ bound
        → Leaves (length s.rest) (operator_loop defines fuel (c ∷ w) e op operand v s)
    unfolding operator_loop
    operator_loop-Leaves zero c w e op operand v s o f h = elim f [ ]
    operator_loop-Leaves (suc fuel) c w e op operand v s o f h =
        let found = match_word (c ∷ w) s.rest in
        let le = match_word-le c w s.rest in
        if_Leaves found.0
          (λ t.
            bind-Leaves (length found.1) _ (operand (move found.1 s)) _
              (o (move found.1 s) (omega (arith, le.0)))
              (λ r s' k.
                if_Leaves (is_bool v && is_bool r)
                  (λ _. Leaves-mono _ (omega (arith, le.0)) (
                    operator_loop-Leaves fuel c w e op operand _ s' o (omega (arith, le.1 t))
                      (omega (arith, le.0))))
                  (λ _. failed-Leaves _ _ s' (omega (arith, le.0)))))
          (λ _. (v, move found.1 s, refl, le.0))

    parse_and-Ends : Ends (suc bound) (parse_and defines expr)
    unfolding parse_and
    parse_and-Ends s h =
        let operand : Parse → Result = λ t. parse_unary defines (suc (length t.rest)) expr t in
        let unary : Ends (suc bound) operand =
          λ t k. parse_unary-Leaves (suc (length t.rest)) t (omega arith) (omega arith) in
        bind-Leaves (length s.rest) _ (operand s) _ (unary s h) (λ v t k. Leaves-mono _ k (
          operator_loop-Leaves (suc (length t.rest)) _ (codes "nd") and_requires_boolean _ operand v
            t unary (omega arith) (omega arith)))

    parse_simple_expr-Ends : Ends (suc bound) (parse_simple_expr defines expr)
    unfolding parse_simple_expr
    parse_simple_expr-Ends s h =
        bind-Leaves (length s.rest) _ (parse_and defines expr s) _ (parse_and-Ends s h) (λ v t k.
          Leaves-mono _ k (
            operator_loop-Leaves (suc (length t.rest)) _ (codes "r") or_requires_boolean _
              (parse_and defines expr) v t parse_and-Ends (omega arith) (omega arith)))

  compare_bools-Leaves :
      (n : ℕ) (op : Relop) (a b : Bool) (s : Parse)
      → length s.rest ≤ n
      → Leaves n (compare_bools op a b s)
  unfolding compare_bools
  compare_bools-Leaves n op_eq a b s h = (_, s, refl, h)
  compare_bools-Leaves n op_ne a b s h = (_, s, refl, h)
  compare_bools-Leaves n _ a b s h = failed-Leaves n boolean_comparison s h

  compare_values-Leaves :
      (n : ℕ) (op : Relop) (a b : Value) (s : Parse)
      → length s.rest ≤ n
      → Leaves n (compare_values op a b s)
  unfolding compare_values
  compare_values-Leaves n op (bool_value a) (bool_value b) s h = compare_bools-Leaves n op a b s h
  compare_values-Leaves n op (int_value a) (int_value b) s h = (_, s, refl, h)
  compare_values-Leaves n op _ _ s h = failed-Leaves n mixed_comparison s h

  compare_with-Leaves :
      (bound n : ℕ) (expr : Parse → Result) (lhs : Value) (s : Parse) (o : Option Relop × Bytes)
      → Ends bound expr
      → length o.1 ≤ n
      → n ≤ bound
      → Leaves n (compare_with defines expr lhs s o)
  unfolding compare_with
  compare_with-Leaves bound n expr lhs s (none, r) e h k = (lhs, move r s, refl, h)
  compare_with-Leaves bound n expr lhs s (some op, r) e h k =
      bind-Leaves n n (parse_simple_expr defines expr (move r s)) _
        (Leaves-mono _ h (parse_simple_expr-Ends bound expr e (move r s) (omega arith)))
        (λ rhs t j. compare_values-Leaves n op lhs rhs t j)

  match_relop-le : (s : Bytes) → length (match_relop s).1 ≤ length s
  unfolding match_relop relop_at
  match_relop-le s = at (skip_blanks s) (skip_blanks-le s)
    where
      at : (t : Bytes) → length t ≤ length s → length (relop_at t).1 ≤ length s
      at [] h = omega arith
      at (c ∷ []) h = ground arith
      at (c ∷ d ∷ t) h = ground arith

  parse_expr-Ends : (fuel : ℕ) → Ends fuel (parse_expr defines fuel)
  unfolding parse_expr
  parse_expr-Ends zero s h = elim h [ ]
  parse_expr-Ends (suc fuel) s h =
      bind-Leaves (length s.rest) _ (parse_simple_expr defines (parse_expr defines fuel) s) _
        (parse_simple_expr-Ends fuel (parse_expr defines fuel) (parse_expr-Ends fuel) s h)
        (λ lhs t k.
          compare_with-Leaves fuel _ (parse_expr defines fuel) lhs t (match_relop t.rest)
            (parse_expr-Ends fuel) (omega (arith, match_relop-le t.rest)) (omega arith))

-- `eval_if_expr` answers on every text and for all symbols: a truth value or a reason.
pub eval_if_expr-total :
    (defines : Defines) (src : Bytes) → (r : IfEval) × (eval_if_expr defines src ≡ some r)
unfolding eval_if_expr finish_eval
eval_if_expr-total defines src =
    let (v, s, e, k) = parse_expr-Ends defines (suc (length src)) (start src) (omega arith) in
    (if_eval v s, rw (e) refl)
