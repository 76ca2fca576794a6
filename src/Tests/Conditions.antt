-- ===== src/Tests/Conditions.antt =====
-- The preprocessor on small inputs.
use tp2cc.Preproc.IfExpr.Meaning.Precedence.{eval_if_expr-chain}
use tp2cc.Preproc.IfExpr.Meaning.Chain.{Chain, Operand, chain_value, show_or}
use tp2cc.Preproc.IfText.{
  at_eof, fail, int_at, int_behind_sign, int_digits, is_word, macro_int, match_char, match_char_in,
  match_word, matched, negate, parse_macro_value, read_ident, read_int, take_while, word_at,
}
use tp2cc.Prelude.{Bytes, List, [], arith, codes, false, inr, refl, same, some, true, ◌∷◌, ◌≡◌}
use tp2cc.Text.{
  hex_val, is_alnum, is_digit, is_hex, is_ident_cont, is_ident_start, is_space, lower, lower_char,
  skip_blanks, skip_bom, trim, trim_front,
}
use tp2cc.Source.{consume, error_count, get, next_u32, open_input, peek, span}
use tp2cc.Preproc.State.{
  Lexer, accepting, all_accepting, new_lexer, report, set_overflow_check_default,
  set_range_check_default,
}
use tp2cc.Preproc.Macro.{
  Defines, define, erase_define, find_assign, find_define, is_defined, macro_of,
  parse_macro_definition, set_define, undefine,
}
use tp2cc.Preproc.IfExpr.{
  IfEval, close_paren, compare_bools, compare_ints, compare_values, compare_with, eval_if,
  eval_if_expr, finish_eval, if_eval, int_less, int_or_symbol, match_relop, negated, operator_loop,
  parse_and, parse_atom, parse_defined, parse_expr, parse_primary, parse_simple_expr, parse_symbol,
  parse_unary, relop_at, symbol_value, value,
}
use tp2cc.Preproc.IfExpr.Total.{eval_if_expr-total}
use tp2cc.Preproc.IfExpr.Meaning.{constant, defined_symbol, equality, show}
use tp2cc.Preproc.Cond.{
  conditional, else_frame, elseif, elseif_frame, ifdef, ifopt_value, on_else, on_elseif, on_endif,
  on_if, on_ifdef, on_ifopt, push_frame, report_refusal,
}
use tp2cc.Preproc.Cond.Frames.{AreNested, conditional-AreNested, innermost}
use tp2cc.Preproc.Cond.Branches.{conditions, first_only, group_accepts, group_accepts-first_only}
use tp2cc.Preproc.Cond.Skipped.{MovesFrames, Unchanged, conditional-Effect, motion}
use tp2cc.Preproc.Include.{
  do_include, drop_name, drop_slashes, enclosed_by, filename, filename_from, first_existing,
  has_dot, has_extension, include_file, include_macro, include_named, inner, is_absolute, join_path,
  parent_path, push_input, resolve_include, root_or,
}
use tp2cc.Preproc.Include.Stack.{Included, do_include-Included}
use tp2cc.Preproc.Directive.{
  dispatch, find_head, handle_directive, heads, is_head_char, mode_default_packenum, on_interfaces,
  on_long_strings, on_typed_address, parse_packenum_value, plain, set_packenum, split_directive,
}
use tp2cc.Preproc.Directive.Rejected.{Bodies, handle_directive-AreNested, run, run_skips}
use tp2cc.Tests.Samples.{here_loc, in_frames, lexer_of, rejected_frame, small_files, taken_frame}

program : Unit {0}
unfolding same is_ident_start is_digit is_ident_cont is_hex hex_val is_alnum lower_char lower
    is_space trim_front trim skip_blanks skip_bom error_count next_u32 open_input peek consume get
    span new_lexer set_overflow_check_default set_range_check_default report all_accepting accepting
    find_assign macro_of parse_macro_definition find_define is_defined set_define erase_define
    define undefine fail take_while is_word match_char_in match_char word_at matched match_word
    int_digits negate int_behind_sign int_at read_int read_ident at_eof macro_int parse_macro_value
    parse_defined symbol_value parse_symbol int_or_symbol parse_atom close_paren parse_primary
    negated parse_unary operator_loop parse_and parse_simple_expr relop_at match_relop int_less
    compare_ints compare_bools compare_values if_eval compare_with parse_expr finish_eval
    eval_if_expr eval_if show push_frame report_refusal on_ifdef on_if ifopt_value on_ifopt
    elseif_frame else_frame on_elseif on_else on_endif conditional filename_from filename has_dot
    has_extension is_absolute drop_name drop_slashes root_or parent_path join_path enclosed_by inner
    push_input first_existing resolve_include include_file include_macro include_named do_include
    heads find_head is_head_char split_directive parse_packenum_value mode_default_packenum
    on_typed_address on_long_strings set_packenum on_interfaces plain dispatch handle_directive
program = tt

abbrev symbols : Defines
symbols = (lexer_of "").defines

eval_if_expr-total_example :
    (r : IfEval) × (eval_if_expr symbols (codes "defined(FPC) and (ver > 2)") ≡ some r)
eval_if_expr-total_example = eval_if_expr-total symbols (codes "defined(FPC) and (ver > 2)")

-- `not not (true)and(defined(Fpc))or not((false)=(true))or(false)`
abbrev sample_chain : Chain (Chain Operand)
sample_chain = (
  ((2, constant true), (0, defined_symbol (codes "Fpc")) ∷ []),
  ((1, equality (constant false) (constant true)), []) ∷ ((0, constant false), []) ∷ [],
)

eval_if_expr-chain_example :
    eval_if_expr symbols (show_or sample_chain []) ≡ some (value (chain_value symbols sample_chain))
unfolding program
eval_if_expr-chain_example = eval_if_expr-chain symbols sample_chain (ground arith)

eval_ver : eval_if_expr symbols (codes "defined(FPC) and (ver > 2)") ≡ some (value true)
unfolding program
eval_ver = refl

nested : AreNested (taken_frame ∷ [])
unfolding all_accepting
nested = (inr (refl, refl), tt)

conditional-AreNested_example :
    AreNested (conditional elseif (codes "true") here_loc (in_frames (taken_frame ∷ []) "x")).ifdefs
conditional-AreNested_example =
    conditional-AreNested elseif (codes "true") here_loc (in_frames (taken_frame ∷ []) "x") nested

abbrev branches : List Bytes
branches = codes "true" ∷ codes "true" ∷ []

group_accepts-first_only_example :
    group_accepts here_loc (codes "false") branches (lexer_of "")
    ≡ first_only false (conditions symbols (codes "false" ∷ branches))
unfolding program
group_accepts-first_only_example =
    group_accepts-first_only here_loc (codes "false") branches (lexer_of "") refl

conditional-Effect_example :
    Unchanged (lexer_of "x") (conditional ifdef (codes "FPC") here_loc (lexer_of "x"))
    × MovesFrames (motion ifdef) [] (conditional ifdef (codes "FPC") here_loc (lexer_of "x")).ifdefs
conditional-Effect_example = conditional-Effect ifdef (codes "FPC") here_loc (lexer_of "x")

abbrev skipped_bodies : Bodies
skipped_bodies =
    (codes "ifdef FPC", here_loc) ∷ (codes "define x", here_loc) ∷ (codes "endif", here_loc) ∷ []

abbrev in_rejected : Lexer
in_rejected = in_frames (rejected_frame ∷ []) "x"

run_skips_example :
    Unchanged in_rejected (run small_files skipped_bodies in_rejected)
    × ((run small_files skipped_bodies in_rejected).ifdefs ≡ in_rejected.ifdefs)
unfolding program
run_skips_example = run_skips small_files skipped_bodies in_rejected refl refl

handle_directive-AreNested_example :
    AreNested
      (handle_directive small_files
        (codes "else")
        here_loc
        (in_frames (taken_frame ∷ []) "")).ifdefs
    × (accepting
          (handle_directive small_files (codes "else") here_loc (in_frames (taken_frame ∷ []) ""))
        ≡ innermost
            (handle_directive small_files
              (codes "else")
              here_loc
              (in_frames (taken_frame ∷ []) "")).ifdefs)
handle_directive-AreNested_example =
    handle_directive-AreNested small_files (codes "else") here_loc (in_frames (taken_frame ∷ []) "")
      nested

do_include-Included_example :
    Included small_files
      (lexer_of "")
      (do_include small_files (codes "'a.inc'") here_loc (lexer_of ""))
do_include-Included_example =
    do_include-Included small_files (codes "'a.inc'") here_loc (lexer_of "")
