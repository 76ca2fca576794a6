-- ===== src/Preproc/Cond/Frames.antt =====
-- The invariant of the frame stack: a branch is accepted only inside accepted branches, and an
-- accepted branch counts as taken.
use tp2cc.Prelude.{
  Bool, Bool-cases, Bytes, List, [], arith, false, inl, inr, refl, true, ◌∷◌, ◌≡◌, ◌⊎◌,
}
use tp2cc.Messages.{IfError, Message}
use tp2cc.Source.{Location}
use tp2cc.Preproc.IfExpr.{IfEval, refused, value}
use tp2cc.Preproc.State.{IfdefFrame, Lexer, accepting, all_accepting, report}
use tp2cc.Preproc.Cond.{
  CondHead, conditional, else_branch, else_frame, elseif, elseif_frame, endif, if_expr, ifdef,
  ifndef, ifopt, on_else, on_elseif, on_endif, on_if, on_ifdef, on_ifopt, push_frame,
  report_refusal,
}

abbrev pub AreNested : List IfdefFrame → Type 0
AreNested [] = Unit
AreNested (f ∷ fs) =
    ((f.accepting ≡ false) ⊎ ((all_accepting fs ≡ true) × (f.any_taken ≡ true))) × AreNested fs

abbrev pub innermost : List IfdefFrame → Bool
innermost [] = true
innermost (f ∷ fs) = f.accepting

-- Where the frames are nested, `accepting()`, which asks every frame, could ask the innermost one
-- alone.
pub all_accepting-innermost :
    (fs : List IfdefFrame) → AreNested fs → all_accepting fs ≡ innermost fs
unfolding all_accepting
all_accepting-innermost [] n = refl
all_accepting-innermost (f ∷ fs) n = ground (arith, n.0)

pub report_refusal-ifdefs :
    (loc : Location) (m : IfError → Message) (v : IfEval) (lx : Lexer)
    → (report_refusal loc m v lx).ifdefs ≡ lx.ifdefs
unfolding report_refusal report
report_refusal-ifdefs loc m (value b) lx = refl
report_refusal-ifdefs loc m (refused e) lx = refl

push_frame-AreNested :
    (cond : Bool) (lx : Lexer) → AreNested lx.ifdefs → AreNested (push_frame cond lx).ifdefs
unfolding push_frame accepting
push_frame-AreNested cond lx n = (ground arith, n)

on_if-AreNested :
    (rest : Bytes) (loc : Location) (lx : Lexer)
    → AreNested lx.ifdefs
    → AreNested (on_if rest loc lx).ifdefs
unfolding on_if
on_if-AreNested rest loc lx n = elim (Bool-cases (accepting lx)) [
  | inl a ↦ rw a (push_frame-AreNested _ _ (rw report_refusal-ifdefs n))
  | inr r ↦ rw r (push_frame-AreNested false lx n)
]

on_elseif-AreNested :
    (fs : List IfdefFrame) (rest : Bytes) (loc : Location) (lx : Lexer)
    → lx.ifdefs ≡ fs
    → AreNested fs
    → AreNested (on_elseif fs rest loc lx).ifdefs
unfolding on_elseif report elseif_frame
on_elseif-AreNested [] rest loc lx e n = rw e n
on_elseif-AreNested (f ∷ fs) rest loc lx e n = elim (Bool-cases f.in_else) [
  | inl late ↦ rw late (rw e n)
  | inr early ↦ rw early (ground arith, n.1)
]

on_else-AreNested :
    (fs : List IfdefFrame) (loc : Location) (lx : Lexer)
    → lx.ifdefs ≡ fs
    → AreNested fs
    → AreNested (on_else fs loc lx).ifdefs
unfolding on_else report else_frame
on_else-AreNested [] loc lx e n = rw e n
on_else-AreNested (f ∷ fs) loc lx e n = elim (Bool-cases f.in_else) [
  | inl late ↦ rw late (rw e n)
  | inr early ↦ rw early (ground arith, n.1)
]

on_endif-AreNested :
    (fs : List IfdefFrame) (loc : Location) (lx : Lexer)
    → lx.ifdefs ≡ fs
    → AreNested fs
    → AreNested (on_endif fs loc lx).ifdefs
unfolding on_endif report
on_endif-AreNested [] loc lx e n = rw e n
on_endif-AreNested (f ∷ fs) loc lx e n = n.1

-- Every conditional directive keeps the invariant, also where it is reported as misplaced.
pub conditional-AreNested :
    (h : CondHead) (rest : Bytes) (loc : Location) (lx : Lexer)
    → AreNested lx.ifdefs
    → AreNested (conditional h rest loc lx).ifdefs
unfolding conditional on_ifdef on_ifopt
conditional-AreNested ifdef rest loc lx n = push_frame-AreNested _ lx n
conditional-AreNested ifndef rest loc lx n = push_frame-AreNested _ lx n
conditional-AreNested if_expr rest loc lx n = on_if-AreNested rest loc lx n
conditional-AreNested ifopt rest loc lx n = push_frame-AreNested _ lx n
conditional-AreNested elseif rest loc lx n = on_elseif-AreNested lx.ifdefs rest loc lx refl n
conditional-AreNested else_branch rest loc lx n = on_else-AreNested lx.ifdefs loc lx refl n
conditional-AreNested endif rest loc lx n = on_endif-AreNested lx.ifdefs loc lx refl n
