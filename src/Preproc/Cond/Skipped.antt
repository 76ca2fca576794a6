-- ===== src/Preproc/Cond/Skipped.antt =====
-- What conditional directives leave alone, and what each does to the frames.
use tp2cc.Prelude.{
  Bool, Bytes, List, [], false, if◌then◌else◌, not, refl, true, ◌&&◌, ◌∙◌, ◌∷◌, ◌≡◌,
}
use tp2cc.Messages.{cannot_evaluate_elseif, cannot_evaluate_if, duplicate_else, elseif_after_else}
use tp2cc.Source.{Diag, Location, report_error}
use tp2cc.Preproc.IfExpr.{IfEval, eval_if, refused, value}
use tp2cc.Preproc.State.{IfdefFrame, Lexer, accepting, all_accepting, report}
use tp2cc.Preproc.Cond.{
  CondHead, conditional, else_branch, else_frame, elseif, elseif_frame, endif, holds, if_expr,
  ifdef, ifndef, ifopt, on_else, on_elseif, on_endif, on_if, on_ifdef, on_ifopt, push_frame,
  report_refusal,
}

-- Everything but the frames and the reports is the same.
pub record Unchanged (lx lx' : Lexer) : Type 0 where
  pub same_input : lx'.input ≡ lx.input
  pub same_below : lx'.below ≡ lx.below
  pub same_defines : lx'.defines ≡ lx.defines
  pub same_switches : lx'.switches ≡ lx.switches

pub Unchanged-refl : (lx : Lexer) → Unchanged lx lx
Unchanged-refl lx = record {
  same_input = refl;
  same_below = refl;
  same_defines = refl;
  same_switches = refl;
}

only_frames :
    (lx : Lexer) (fs : List IfdefFrame) (ds : List Diag)
    → Unchanged lx (record lx { ifdefs = fs; reports = ds })
only_frames lx fs ds = record {
  same_input = refl;
  same_below = refl;
  same_defines = refl;
  same_switches = refl;
}

pub Unchanged-trans : {a b c : Lexer} → Unchanged a b → Unchanged b c → Unchanged a c
Unchanged-trans p q = record {
  same_input = q.same_input ∙ p.same_input;
  same_below = q.same_below ∙ p.same_below;
  same_defines = q.same_defines ∙ p.same_defines;
  same_switches = q.same_switches ∙ p.same_switches;
}

-- How a head changes the number of open groups.
pub data Motion : Type 0 where
  opens stays closes : Motion

abbrev pub motion : CondHead → Motion
motion ifdef = opens
motion ifndef = opens
motion if_expr = opens
motion ifopt = opens
motion elseif = stays
motion else_branch = stays
motion endif = closes

abbrev pub MovesFrames : Motion → List IfdefFrame → List IfdefFrame → Type 0
MovesFrames opens fs fs' = (f : IfdefFrame) × (fs' ≡ f ∷ fs)
MovesFrames stays [] fs' = fs' ≡ []
MovesFrames stays (f ∷ fs) fs' = (f' : IfdefFrame) × (fs' ≡ f' ∷ fs)
MovesFrames closes [] fs' = fs' ≡ []
MovesFrames closes (f ∷ fs) fs' = fs' ≡ fs

-- What is shown of each directive.
abbrev Effect : CondHead → List IfdefFrame → Lexer → Lexer → Type 0
Effect h fs lx lx' = Unchanged lx lx' × MovesFrames (motion h) fs lx'.ifdefs

push_frame-Effect :
    (cond : Bool) (lx : Lexer)
    → Unchanged lx (push_frame cond lx) × MovesFrames opens lx.ifdefs (push_frame cond lx).ifdefs
unfolding push_frame
push_frame-Effect cond lx = (only_frames lx _ _, (_, refl))

on_if-Effect :
    (rest : Bytes) (loc : Location) (lx : Lexer) → Effect if_expr lx.ifdefs lx (on_if rest loc lx)
unfolding on_if push_frame report_refusal report
on_if-Effect rest loc lx = go (accepting lx) (eval_if lx.defines rest)
  where
    go :
        (a : Bool) (v : IfEval)
        → Effect if_expr lx.ifdefs lx (
            if a
            then push_frame (holds v) (report_refusal loc cannot_evaluate_if v lx)
            else push_frame false lx)
    go true (value b) = push_frame-Effect b lx
    go true (refused e) = (only_frames lx _ _, (_, refl))
    go false v = push_frame-Effect false lx

on_elseif-Effect :
    (fs : List IfdefFrame) (rest : Bytes) (loc : Location) (lx : Lexer)
    → lx.ifdefs ≡ fs
    → Effect elseif fs lx (on_elseif fs rest loc lx)
unfolding on_elseif report report_refusal
on_elseif-Effect [] rest loc lx i = (only_frames lx _ _, i)
on_elseif-Effect (f ∷ fs) rest loc lx i =
    go f.in_else (all_accepting fs && not f.any_taken) (eval_if lx.defines rest)
  where
    go :
        (late evaluated : Bool) (v : IfEval)
        → Effect elseif (f ∷ fs) lx (
            if late
            then report (report_error loc elseif_after_else) lx
            else record (if evaluated then report_refusal loc cannot_evaluate_elseif v lx else lx) {
              ifdefs = elseif_frame (all_accepting fs) (evaluated && holds v) f ∷ fs;
            })
    go true evaluated v = (only_frames lx _ _, (f, i))
    go false true (value b) = (only_frames lx _ _, (_, refl))
    go false true (refused e) = (only_frames lx _ _, (_, refl))
    go false false v = (only_frames lx _ _, (_, refl))

on_else-Effect :
    (fs : List IfdefFrame) (loc : Location) (lx : Lexer)
    → lx.ifdefs ≡ fs
    → Effect else_branch fs lx (on_else fs loc lx)
unfolding on_else report
on_else-Effect [] loc lx i = (only_frames lx _ _, i)
on_else-Effect (f ∷ fs) loc lx i = go f.in_else
  where
    go :
        (late : Bool)
        → Effect else_branch (f ∷ fs) lx (
            if late
            then report (report_error loc duplicate_else) lx
            else record lx { ifdefs = else_frame (all_accepting fs) f ∷ fs })
    go true = (only_frames lx _ _, (f, i))
    go false = (only_frames lx _ _, (_, refl))

on_endif-Effect :
    (fs : List IfdefFrame) (loc : Location) (lx : Lexer)
    → lx.ifdefs ≡ fs
    → Effect endif fs lx (on_endif fs loc lx)
unfolding on_endif report
on_endif-Effect [] loc lx i = (only_frames lx _ _, i)
on_endif-Effect (f ∷ fs) loc lx i = (only_frames lx _ _, refl)

-- A conditional directive changes the frames and the reports alone, and of the frames the innermost
-- one alone.
pub conditional-Effect :
    (h : CondHead) (rest : Bytes) (loc : Location) (lx : Lexer)
    → Unchanged lx (conditional h rest loc lx)
      × MovesFrames (motion h) lx.ifdefs (conditional h rest loc lx).ifdefs
unfolding conditional on_ifdef on_ifopt
conditional-Effect ifdef rest loc lx = push_frame-Effect _ lx
conditional-Effect ifndef rest loc lx = push_frame-Effect _ lx
conditional-Effect if_expr rest loc lx = on_if-Effect rest loc lx
conditional-Effect ifopt rest loc lx = push_frame-Effect _ lx
conditional-Effect elseif rest loc lx = on_elseif-Effect lx.ifdefs rest loc lx refl
conditional-Effect else_branch rest loc lx = on_else-Effect lx.ifdefs loc lx refl
conditional-Effect endif rest loc lx = on_endif-Effect lx.ifdefs loc lx refl
