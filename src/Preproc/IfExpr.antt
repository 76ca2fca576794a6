-- ===== src/Preproc/IfExpr.antt =====
-- The evaluator of `{$if}` expressions: `struct IfExprParser` and `Lexer::eval_if_expr`. `rest` is
-- the source from `pos` on. An `int64_t` is its bit pattern; signed overflow, undefined in C++,
-- wraps around here.
pub mod Total
pub mod Meaning
use mathlib.Core.Option
use tp2cc.Preproc.IfText.{
  Parse, Value, at_eof, bool_value, fail, i64, int_value, is_bool, match_char, match_word, move,
  parse_macro_value, read_ident, read_int, truth,
}
use tp2cc.Messages.{
  IfError, and_requires_boolean, boolean_comparison, expected_operand, expected_paren_after_defined,
  expected_paren_after_symbol, expected_symbol_name, mixed_comparison, no_reason, not_a_boolean,
  not_requires_boolean, or_requires_boolean, undefined_symbol, unexpected_text, unsupported_value,
}
use tp2cc.Prelude.{
  Bool, Bytes, Option, [], codes, false, if◌then◌else◌, is_empty, length, ltb, none, not, some, suc,
  true, zero, ℕ, ◌%◌, ◌&&◌, ◌+◌, ◌==◌, ◌^◌, ◌||◌, ◌∷◌,
}
use tp2cc.Text.{skip_blanks, trim}
use tp2cc.Preproc.Macro.{Defines, find_define, is_defined}

-- A parser's result: `none` means that the fuel ran out.
abbrev pub Result : Type 0
Result = Option (Value × Parse)

abbrev pub failed : IfError → Parse → Result
failed e s = some (bool_value false, fail e s)

abbrev pub bind : Result → (Value → Parse → Result) → Result
bind none f = none
bind (some (v, s)) f = f v s

module _ (defines : Defines) where
  -- Behind `defined`.
  unfoldable pub parse_defined : Parse → Result
  parse_defined s =
      let opened = match_char b'(' s.rest in
      let name = read_ident opened.1 in
      let shut = match_char b')' name.1 in
      if not opened.0
      then failed expected_paren_after_defined (move opened.1 s)
      else if is_empty name.0
      then failed expected_symbol_name (move name.1 s)
      else if not shut.0
      then failed expected_paren_after_symbol (move shut.1 s)
      else some (bool_value (is_defined name.0 defines), move shut.1 s)

  unfoldable pub symbol_value : Bytes → Parse → Option (Option Bytes) → Result
  symbol_value ident s (some (some text)) = elim (parse_macro_value text) [
    | some v ↦ some (v, s)
    | none ↦ failed (unsupported_value ident text) s
  ]
  symbol_value ident s (some none) = failed (undefined_symbol ident) s
  symbol_value ident s none = failed (undefined_symbol ident) s

  -- The last part of `parse_primary`: a symbol's text.
  unfoldable pub parse_symbol : Parse → Result
  parse_symbol s =
      let name = read_ident s.rest in
      if is_empty name.0
      then failed expected_operand (move name.1 s)
      else symbol_value name.0 (move name.1 s) (find_define name.0 defines)

  unfoldable pub int_or_symbol : Parse → Option ℕ × Bytes → Result
  int_or_symbol s (some v, r) = some (int_value v, move r s)
  int_or_symbol s (none, r) = parse_symbol (move r s)

  -- `parse_primary` where no parenthesis opens; the source starts with no blank.
  unfoldable pub parse_atom : Parse → Result
  parse_atom s =
      let d = match_word (codes "defined") s.rest in
      let t = match_word (codes "true") s.rest in
      let f = match_word (codes "false") t.1 in
      if d.0
      then parse_defined (move d.1 s)
      else if t.0
      then some (bool_value true, move t.1 s)
      else if f.0
      then some (bool_value false, move f.1 s)
      else int_or_symbol s (read_int f.1)

  -- Behind the expression in parentheses; a missing `)` leaves no reason.
  unfoldable pub close_paren : Value → Parse → Result
  close_paren v s =
      let shut = match_char b')' s.rest in
      some (v, if shut.0 then move shut.1 s else record s { rest = shut.1; ok = false })

  -- `expr` stands for the recursive call of `parse_expr`.
  unfoldable pub parse_primary : (Parse → Result) → Parse → Result
  parse_primary expr s =
      let opened = match_char b'(' s.rest in
      if opened.0 then bind (expr (move opened.1 s)) close_paren else parse_atom (move opened.1 s)

  unfoldable pub negated : Value → Parse → Result
  negated v s =
      some (bool_value (not (truth v)), if is_bool v then s else fail not_requires_boolean s)

  unfoldable pub parse_unary : ℕ → (Parse → Result) → Parse → Result
  parse_unary zero expr s = none
  parse_unary (suc fuel) expr s =
      let word = match_word (codes "not") s.rest in
      let inner = bind (parse_unary fuel expr (move word.1 s)) negated in
      if word.0 then inner else parse_primary expr (move word.1 s)

  -- One of the loops of `parse_and` and `parse_simple_expr`, behind its first operand `v`.
  unfoldable pub operator_loop :
      ℕ → Bytes → IfError → (Bool → Bool → Bool) → (Parse → Result) → Value → Parse → Result
  operator_loop zero word error op operand v s = none
  operator_loop (suc fuel) word error op operand v s =
      let found = match_word word s.rest in
      let next = bind (operand (move found.1 s)) λ r s'.
        let again =
          operator_loop fuel word error op operand (bool_value (op (truth v) (truth r))) s' in
        if is_bool v && is_bool r then again else failed error s' in
      if found.0 then next else some (v, move found.1 s)

  abbrev fuel_for : Parse → ℕ
  fuel_for s = suc (length s.rest)

  unfoldable pub parse_and : (Parse → Result) → Parse → Result
  parse_and expr s =
      let operand = λ (t : Parse). parse_unary (fuel_for t) expr t in
      bind (operand s) λ v t.
        operator_loop (fuel_for t) (codes "and") and_requires_boolean (λ a b. a && b) operand v t

  unfoldable pub parse_simple_expr : (Parse → Result) → Parse → Result
  parse_simple_expr expr s = bind (parse_and expr s) λ v t.
      operator_loop (fuel_for t) (codes "or") or_requires_boolean (λ a b. a || b) (parse_and expr) v
        t

pub data Relop : Type 0 where
  op_eq op_ne op_lt op_gt op_le op_ge : Relop

unfoldable pub relop_at : Bytes → Option Relop × Bytes
relop_at [] = (none, [])
relop_at (c ∷ []) =
    if c == b'='
    then (some op_eq, [])
    else if c == b'<'
    then (some op_lt, [])
    else if c == b'>'
    then (some op_gt, [])
    else (none, c ∷ [])
relop_at (c ∷ d ∷ s) =
    if c == b'='
    then (some op_eq, d ∷ s)
    else if c == b'<'
    then (if d == b'>'
        then (some op_ne, s)
        else if d == b'='
        then (some op_le, s)
        else (some op_lt, d ∷ s))
    else if c == b'>'
    then (if d == b'=' then (some op_ge, s) else (some op_gt, d ∷ s))
    else (none, c ∷ d ∷ s)

unfoldable pub match_relop : Bytes → Option Relop × Bytes
match_relop s = relop_at (skip_blanks s)

-- `<` on `int64_t`: the bit patterns with the sign bit flipped.
unfoldable pub int_less : ℕ → ℕ → Bool
int_less a b = ltb ((a + 2 ^ 63) % i64) ((b + 2 ^ 63) % i64)

unfoldable pub compare_ints : Relop → ℕ → ℕ → Bool
compare_ints op_eq a b = a == b
compare_ints op_ne a b = not (a == b)
compare_ints op_lt a b = int_less a b
compare_ints op_gt a b = int_less b a
compare_ints op_le a b = not (int_less b a)
compare_ints op_ge a b = not (int_less a b)

abbrev pub same_bool : Bool → Bool → Bool
same_bool true b = b
same_bool false b = not b

unfoldable pub compare_bools : Relop → Bool → Bool → Parse → Result
compare_bools op_eq a b s = some (bool_value (same_bool a b), s)
compare_bools op_ne a b s = some (bool_value (not (same_bool a b)), s)
compare_bools _ a b s = failed boolean_comparison s

unfoldable pub compare_values : Relop → Value → Value → Parse → Result
compare_values op (bool_value a) (bool_value b) s = compare_bools op a b s
compare_values op (int_value a) (int_value b) s = some (bool_value (compare_ints op a b), s)
compare_values op _ _ s = failed mixed_comparison s

abbrev pub start : Bytes → Parse
start src = record { rest = src; ok = true; error = no_reason }

-- `IfEvalResult`: the value, or the reason why there is none.
pub data IfEval : Type 0 where
  value : Bool → IfEval
  refused : IfError → IfEval

unfoldable pub if_eval : Value → Parse → IfEval
if_eval v s =
    if not s.ok
    then refused s.error
    else if not (at_eof s.rest)
    then refused (unexpected_text (trim (skip_blanks s.rest)))
    else if not (is_bool v)
    then refused not_a_boolean
    else value (truth v)

module _ (defines : Defines) where
  unfoldable pub compare_with : (Parse → Result) → Value → Parse → Option Relop × Bytes → Result
  compare_with expr lhs s (none, r) = some (lhs, move r s)
  compare_with expr lhs s (some op, r) =
      bind (parse_simple_expr defines expr (move r s)) λ rhs t. compare_values op lhs rhs t

  -- The fuel bounds the depth of parentheses.
  unfoldable pub parse_expr : ℕ → Parse → Result
  parse_expr zero s = none
  parse_expr (suc fuel) s =
      bind (parse_simple_expr defines (parse_expr fuel) s)
        λ lhs t. compare_with (parse_expr fuel) lhs t (match_relop t.rest)

  unfoldable pub finish_eval : Result → Option IfEval
  finish_eval none = none
  finish_eval (some (v, s)) = some (if_eval v s)

  unfoldable pub eval_if_expr : Bytes → Option IfEval
  eval_if_expr src = finish_eval (parse_expr (suc (length src)) (start src))

  -- The same with no `Option`: the fuel does not run out.
  unfoldable pub eval_if : Bytes → IfEval
  eval_if src = Option.get_or (eval_if_expr src) (refused no_reason)
