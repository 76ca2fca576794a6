-- ===== src/Preproc/Cond.antt =====
-- The conditional directives: the first half of `Lexer::handle_directive`.
pub mod Frames
pub mod Branches
pub mod Skipped
use tp2cc.Prelude.{
  Bool, Bytes, List, [], codes, false, if◌then◌else◌, not, same, true, ◌&&◌, ◌||◌, ◌∷◌,
}
use tp2cc.Text.{lower, trim}
use tp2cc.Messages.{
  IfError, Message, cannot_evaluate_elseif, cannot_evaluate_if, duplicate_else, else_without_ifdef,
  elseif_after_else, elseif_without_if, endif_without_ifdef,
}
use tp2cc.Source.{Location, report_error}
use tp2cc.Preproc.Macro.{is_defined}
use tp2cc.Preproc.IfExpr.{IfEval, eval_if, refused, same_bool, value}
use tp2cc.Preproc.State.{IfdefFrame, Lexer, Switches, accepting, all_accepting, report}

-- `ifdef_stack_.push_back(...)` for a condition that is `cond`.
unfoldable pub push_frame : Bool → Lexer → Lexer
push_frame cond lx =
    let taken = accepting lx && cond in
    record lx {
      ifdefs = record { accepting = taken; any_taken = taken; in_else = false } ∷ lx.ifdefs;
    }

-- `cond = v.value`, or false for an expression that is refused.
abbrev pub holds : IfEval → Bool
holds (value b) = b
holds (refused e) = false

unfoldable pub report_refusal : Location → (IfError → Message) → IfEval → Lexer → Lexer
report_refusal loc message (value b) lx = lx
report_refusal loc message (refused e) lx = report (report_error loc (message e)) lx

-- `{$ifdef}` and `{$ifndef}`; `wanted` is true for the first.
unfoldable pub on_ifdef : Bool → Bytes → Lexer → Lexer
on_ifdef wanted rest lx =
    push_frame (same_bool wanted (is_defined (lower (trim rest)) lx.defines)) lx

-- `{$if}`: the expression is evaluated in an accepted region only.
unfoldable pub on_if : Bytes → Location → Lexer → Lexer
on_if rest loc lx =
    let v = eval_if lx.defines rest in
    if accepting lx
    then push_frame (holds v) (report_refusal loc cannot_evaluate_if v lx)
    else push_frame false lx

-- The switches that `{$ifopt}` knows; everything else is false.
unfoldable pub ifopt_value : Bytes → Switches → Bool
ifopt_value opt sw =
    if same opt (codes "q+") || same opt (codes "overflowchecks+")
    then sw.q_check
    else if same opt (codes "q-") || same opt (codes "overflowchecks-")
    then not sw.q_check
    else if same opt (codes "r+") || same opt (codes "rangechecks+")
    then sw.r_check
    else if same opt (codes "r-") || same opt (codes "rangechecks-")
    then not sw.r_check
    else if same opt (codes "h+") || same opt (codes "longstrings+")
    then sw.h_long_strings
    else if same opt (codes "h-") || same opt (codes "longstrings-")
    then not sw.h_long_strings
    else if same opt (codes "t+")
    then sw.t_typed_addresses
    else if same opt (codes "t-")
    then not sw.t_typed_addresses
    else false

unfoldable pub on_ifopt : Bytes → Lexer → Lexer
on_ifopt rest lx = push_frame (ifopt_value (lower (trim rest)) lx.switches) lx

-- What `{$elseif}` makes of the innermost frame: `f.accepting = parent_ok && !f.any_taken && cond`.
unfoldable pub elseif_frame : Bool → Bool → IfdefFrame → IfdefFrame
elseif_frame parent_ok cond f =
    let taken = parent_ok && (not f.any_taken && cond) in
    record f { accepting = taken; any_taken = f.any_taken || taken }

-- What `{$else}` makes of it.
unfoldable pub else_frame : Bool → IfdefFrame → IfdefFrame
else_frame parent_ok f =
    let taken = parent_ok && not f.any_taken in
    record { accepting = taken; any_taken = f.any_taken || taken; in_else = true }

unfoldable pub on_elseif : List IfdefFrame → Bytes → Location → Lexer → Lexer
on_elseif [] rest loc lx = report (report_error loc elseif_without_if) lx
on_elseif (f ∷ fs) rest loc lx =
    let v = eval_if lx.defines rest in
    let evaluated = all_accepting fs && not f.any_taken in
    let lx' = if evaluated then report_refusal loc cannot_evaluate_elseif v lx else lx in
    let f' = elseif_frame (all_accepting fs) (evaluated && holds v) f in
    if f.in_else
    then report (report_error loc elseif_after_else) lx
    else record lx' { ifdefs = f' ∷ fs }

unfoldable pub on_else : List IfdefFrame → Location → Lexer → Lexer
on_else [] loc lx = report (report_error loc else_without_ifdef) lx
on_else (f ∷ fs) loc lx =
    if f.in_else
    then report (report_error loc duplicate_else) lx
    else record lx { ifdefs = else_frame (all_accepting fs) f ∷ fs }

unfoldable pub on_endif : List IfdefFrame → Location → Lexer → Lexer
on_endif [] loc lx = report (report_error loc endif_without_ifdef) lx
on_endif (f ∷ fs) loc lx = record lx { ifdefs = fs }

-- The heads that act in every region.
pub data CondHead : Type 0 where
  ifdef ifndef if_expr ifopt elseif else_branch endif : CondHead

unfoldable pub conditional : CondHead → Bytes → Location → Lexer → Lexer
conditional ifdef rest loc lx = on_ifdef true rest lx
conditional ifndef rest loc lx = on_ifdef false rest lx
conditional if_expr rest loc lx = on_if rest loc lx
conditional ifopt rest loc lx = on_ifopt rest lx
conditional elseif rest loc lx = on_elseif lx.ifdefs rest loc lx
conditional else_branch rest loc lx = on_else lx.ifdefs loc lx
conditional endif rest loc lx = on_endif lx.ifdefs loc lx
