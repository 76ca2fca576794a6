-- ===== src/Preproc/Cond/Branches.antt =====
-- One group of branches, `{$if} … {$elseif} … {$else}`: the conditions decide which one is taken.
use mathlib.Core.Path.{ap₂}
use tp2cc.Prelude.{
  Bool, Bool-cases, Bytes, List, [], ap, arith, false, inl, inr, map, not, refl, true, ◌&&◌, ◌||◌,
  ◌∙◌, ◌∷◌, ◌≡◌,
}
use tp2cc.Messages.{IfError, Message, cannot_evaluate_if}
use tp2cc.Source.{Location}
use tp2cc.Preproc.IfExpr.{IfEval, eval_if, refused, value}
use tp2cc.Preproc.Macro.{Defines}
use tp2cc.Preproc.Cond.Frames.{innermost, report_refusal-ifdefs}
use tp2cc.Preproc.State.{IfdefFrame, Lexer, accepting, all_accepting, report}
use tp2cc.Preproc.Cond.{
  conditional, else_branch, else_frame, elseif, elseif_frame, holds, if_expr, on_else, on_elseif,
  on_if, push_frame, report_refusal,
}

-- Which branches are accepted: those that the `{$elseif}` directives with these expressions open,
-- and the one of the `{$else}` behind them.
abbrev pub accepts : Location → List Bytes → Lexer → List Bool
accepts loc [] lx = innermost (conditional else_branch [] loc lx).ifdefs ∷ []
accepts loc (e ∷ es) lx =
    let lx' = conditional elseif e loc lx in innermost lx'.ifdefs ∷ accepts loc es lx'

-- The same from the opening `{$if}` on.
abbrev pub group_accepts : Location → Bytes → List Bytes → Lexer → List Bool
group_accepts loc e es lx =
    let lx' = conditional if_expr e loc lx in innermost lx'.ifdefs ∷ accepts loc es lx'

-- The first condition that holds, and the last branch if none does.
abbrev pub first_only : Bool → List Bool → List Bool
first_only taken [] = not taken ∷ []
first_only taken (c ∷ cs) = (not taken && c) ∷ first_only (taken || c) cs

abbrev pub NoneOf : List Bool → Type 0
NoneOf [] = Unit
NoneOf (b ∷ bs) = (b ≡ false) × NoneOf bs

abbrev pub conditions : Defines → List Bytes → List Bool
conditions ds es = map (λ e. holds (eval_if ds e)) es

report_refusal-defines :
    (loc : Location) (m : IfError → Message) (v : IfEval) (lx : Lexer)
    → (report_refusal loc m v lx).defines ≡ lx.defines
unfolding report_refusal report
report_refusal-defines loc m (value b) lx = refl
report_refusal-defines loc m (refused e) lx = refl

-- One `{$elseif}` of a group that is still open.
elseif_step :
    (e : Bytes) (loc : Location) (lx : Lexer) (f : IfdefFrame) (fs : List IfdefFrame)
    → f.in_else ≡ false
    → ((on_elseif (f ∷ fs) e loc lx).defines ≡ lx.defines)
      × ((on_elseif (f ∷ fs) e loc lx).ifdefs
          ≡ elseif_frame
              (all_accepting fs)
              (all_accepting fs && not f.any_taken && holds (eval_if lx.defines e))
              f
            ∷ fs)
unfolding on_elseif
elseif_step e loc lx f fs o = elim (Bool-cases (all_accepting fs && not f.any_taken)) [
  | inl yes_evaluated ↦ rw (o, yes_evaluated) (report_refusal-defines _ _ _ lx, refl)
  | inr not_evaluated ↦ rw (o, not_evaluated) (refl, refl)
]

-- The frame that an `{$elseif}` leaves in an accepted region, for a condition that is `h`.
elseif_frame_lem :
    (f : IfdefFrame) (parent h : Bool)
    → parent ≡ true
    → let f' = elseif_frame parent (parent && not f.any_taken && h) f in
      (f'.accepting ≡ (not f.any_taken && h))
      × (f'.any_taken ≡ (f.any_taken || h))
      × (f'.in_else ≡ f.in_else)
unfolding elseif_frame
elseif_frame_lem f parent h p = ground arith

elseif_frame_rejected :
    (f : IfdefFrame) (parent h : Bool)
    → parent ≡ false
    → let f' = elseif_frame parent (parent && not f.any_taken && h) f in
      (f'.accepting ≡ false) × (f'.in_else ≡ f.in_else)
unfolding elseif_frame
elseif_frame_rejected f parent h p = ground arith

else_accepts :
    (loc : Location) (lx : Lexer) (f : IfdefFrame) (fs : List IfdefFrame)
    → f.in_else ≡ false
    → innermost (on_else (f ∷ fs) loc lx).ifdefs ≡ (all_accepting fs && not f.any_taken)
unfolding on_else else_frame
else_accepts loc lx f fs o = rw o refl

-- The frame that an `{$if}` pushes.
abbrev if_frame : Lexer → Bytes → IfdefFrame
if_frame lx e =
    let taken = accepting lx && holds (eval_if lx.defines e) in
    record { accepting = taken; any_taken = taken; in_else = false }

on_if_step :
    (e : Bytes) (loc : Location) (lx : Lexer)
    → ((on_if e loc lx).defines ≡ lx.defines)
      × ((on_if e loc lx).ifdefs ≡ if_frame lx e ∷ lx.ifdefs)
unfolding on_if push_frame accepting
on_if_step e loc lx = elim (Bool-cases (all_accepting lx.ifdefs)) [
  | inl a ↦
      let kept = report_refusal-ifdefs loc cannot_evaluate_if (eval_if lx.defines e) lx in
      rw (a, kept, a) (report_refusal-defines _ _ _ lx, refl)
  | inr r ↦ rw r (refl, refl)
]

module _ (loc : Location) where
  accepts-first_only :
      (es : List Bytes) (lx : Lexer) (f : IfdefFrame) (fs : List IfdefFrame)
      → lx.ifdefs ≡ f ∷ fs
      → f.in_else ≡ false
      → all_accepting fs ≡ true
      → accepts loc es lx ≡ first_only f.any_taken (conditions lx.defines es)
  unfolding conditional
  accepts-first_only [] lx f fs i o p =
      ap (λ (b : Bool). b ∷ [])
        (ap (λ l. innermost (on_else l loc lx).ifdefs) i
          ∙ else_accepts loc lx f fs o
          ∙ ap (λ b. b && not f.any_taken) p)
  accepts-first_only (e ∷ es) lx f fs i o p =
      let lx' = conditional elseif e loc lx in
      let h = holds (eval_if lx.defines e) in
      let f' = elseif_frame (all_accepting fs) (all_accepting fs && not f.any_taken && h) f in
      let opened = ap (λ l. on_elseif l e loc lx) i in
      let (d, g) = elseif_step e loc lx f fs o in
      let frames : lx'.ifdefs ≡ f' ∷ fs = ap (λ (l : Lexer). l.ifdefs) opened ∙ g in
      let kept : lx'.defines ≡ lx.defines = ap (λ (l : Lexer). l.defines) opened ∙ d in
      let (a, t, n) = elseif_frame_lem f (all_accepting fs) h p in
      let ih = accepts-first_only es lx' f' fs frames (n ∙ o) p in
      ap₂ (λ (b : Bool) (bs : List Bool). b ∷ bs) (ap innermost frames ∙ a)
        (ih ∙ ap₂ (λ (b : Bool) (ds : Defines). first_only b (conditions ds es)) t kept)

  -- A group inside a rejected region.
  accepts-none :
      (es : List Bytes) (lx : Lexer) (f : IfdefFrame) (fs : List IfdefFrame)
      → lx.ifdefs ≡ f ∷ fs
      → f.in_else ≡ false
      → all_accepting fs ≡ false
      → NoneOf (accepts loc es lx)
  unfolding conditional
  accepts-none [] lx f fs i o p = (
    ap (λ l. innermost (on_else l loc lx).ifdefs) i
        ∙ else_accepts loc lx f fs o
        ∙ ap (λ b. b && not f.any_taken) p,
    tt,
  )
  accepts-none (e ∷ es) lx f fs i o p =
      let lx' = conditional elseif e loc lx in
      let h = holds (eval_if lx.defines e) in
      let f' = elseif_frame (all_accepting fs) (all_accepting fs && not f.any_taken && h) f in
      let opened = ap (λ l. on_elseif l e loc lx) i in
      let frames : lx'.ifdefs ≡ f' ∷ fs =
        ap (λ (l : Lexer). l.ifdefs) opened ∙ (elseif_step e loc lx f fs o).1 in
      let (a, n) = elseif_frame_rejected f (all_accepting fs) h p in
      (ap innermost frames ∙ a, accepts-none es lx' f' fs frames (n ∙ o) p)

  -- In an accepted region exactly the first branch whose condition holds is accepted, and the
  -- `{$else}` branch if no condition holds.
  pub group_accepts-first_only :
      (e : Bytes) (es : List Bytes) (lx : Lexer)
      → accepting lx ≡ true
      → group_accepts loc e es lx ≡ first_only false (conditions lx.defines (e ∷ es))
  unfolding conditional accepting
  group_accepts-first_only e es lx a =
      let (d, g) = on_if_step e loc lx in
      let lx' = on_if e loc lx in
      let first : (accepting lx && holds (eval_if lx.defines e)) ≡ holds (eval_if lx.defines e) =
        ap (λ b. b && holds (eval_if lx.defines e)) a in
      ap₂ (λ (b : Bool) (bs : List Bool). b ∷ bs) (ap innermost g ∙ first)
        (accepts-first_only es lx' (if_frame lx e) lx.ifdefs g refl a
          ∙ ap₂ (λ (b : Bool) (ds : Defines). first_only b (conditions ds es)) first d)

  -- In a rejected region no branch of a group is accepted.
  group_accepts-NoneOf :
      (e : Bytes) (es : List Bytes) (lx : Lexer)
      → accepting lx ≡ false
      → NoneOf (group_accepts loc e es lx)
  unfolding conditional accepting
  group_accepts-NoneOf e es lx r =
      let (d, g) = on_if_step e loc lx in
      (
        ap innermost g ∙ ap (λ b. b && holds (eval_if lx.defines e)) r,
        accepts-none es (on_if e loc lx) (if_frame lx e) lx.ifdefs g refl r,
      )
