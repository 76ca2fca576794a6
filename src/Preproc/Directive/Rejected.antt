-- ===== src/Preproc/Directive/Rejected.antt =====
-- Directives in a rejected region.
use tp2cc.Preproc.Cond.Frames.{AreNested, all_accepting-innermost, conditional-AreNested, innermost}
use mathlib.Core.Path.{subst}
use tp2cc.Prelude.{
  Bool-cases, Bytes, List, Option, [], arith, false, inl, inr, none, refl, some, suc, zero, ℕ, ◌∷◌,
  ◌≡◌,
}
use tp2cc.Source.{Location}
use tp2cc.Preproc.State.{IfdefFrame, Lexer, accepting, all_accepting, report}
use tp2cc.Preproc.Cond.Skipped.{
  Motion, MovesFrames, Unchanged, Unchanged-refl, Unchanged-trans, closes, conditional-Effect,
  motion, opens, stays,
}
use tp2cc.Preproc.Include.Stack.{do_include-ifdefs}
use tp2cc.Preproc.Include.{Files}
use tp2cc.Preproc.Directive.{
  Head, PlainHead, cond_head, dispatch, find_head, handle_directive, heads, include, interfaces,
  long_strings, mode, on_interfaces, on_long_strings, on_typed_address, packenum_value, plain,
  plain_head, set_packenum, split_directive, typed_address,
}

-- The bodies of the directives that are met, with their places.
abbrev pub Bodies : Type 0
Bodies = List (Bytes × Location)

abbrev pub run : Files → Bodies → Lexer → Lexer
run files [] lx = lx
run files ((body, loc) ∷ bs) lx = run files bs (handle_directive files body loc lx)

abbrev head_of : Bytes → Option Head
head_of body = find_head (split_directive body).0 heads

abbrev pub move_depth : Motion → ℕ → Option ℕ
move_depth opens n = some (suc n)
move_depth stays zero = none
move_depth stays (suc n) = some (suc n)
move_depth closes zero = none
move_depth closes (suc n) = some n

-- The number of groups that are open behind a directive; `none` if it would end or change a group
-- that was open before the first one.
abbrev pub step_depth : Option Head → ℕ → Option ℕ
step_depth (some (cond_head h)) n = move_depth (motion h) n
step_depth other n = some n

abbrev pub depth : Bodies → ℕ → Option ℕ
depth [] n = some n
depth ((body, loc) ∷ bs) n = elim (step_depth (head_of body) n) [
  | none ↦ none
  | some m ↦ depth bs m
]

-- `n` frames on top of the frames `base`.
abbrev Above : List IfdefFrame → ℕ → List IfdefFrame → Type 0
Above base zero fs = fs ≡ base
Above base (suc n) fs = (f : IfdefFrame) × (gs : List IfdefFrame) × (fs ≡ f ∷ gs) × Above base n gs

some_eq : {a b : ℕ} → some a ≡ some b → a ≡ b
some_eq e = cc

Above-rejects :
    (base : List IfdefFrame) (n : ℕ) (fs : List IfdefFrame)
    → all_accepting base ≡ false
    → Above base n fs
    → all_accepting fs ≡ false
unfolding all_accepting
Above-rejects base zero fs r a = rw a r
Above-rejects base (suc n) fs r (f, gs, e, a) =
    let inner : all_accepting gs ≡ false = Above-rejects base n gs r a in
    rw (e, inner) (ground arith)

Above-move :
    (base : List IfdefFrame) (m : Motion) (n k : ℕ) (fs fs' : List IfdefFrame)
    → move_depth m n ≡ some k
    → MovesFrames m fs fs'
    → Above base n fs
    → Above base k fs'
Above-move base opens n k fs fs' d (f, e) a =
    subst (λ j. Above base j fs') (some_eq d) (f, fs, e, a)
Above-move base stays zero k fs fs' d e a = cc
Above-move base stays (suc n) k fs fs' d e (g, gs, i, a) =
    let (f, e') = subst (λ l. MovesFrames stays l fs') i e in
    subst (λ j. Above base j fs') (some_eq d) (f, gs, e', a)
Above-move base closes zero k fs fs' d e a = cc
Above-move base closes (suc n) k fs fs' d e (g, gs, i, a) =
    let e' = subst (λ l. MovesFrames closes l fs') i e in
    subst (λ j. Above base j fs') (some_eq d) (rw e' a)

module _ (files : Files) (base : List IfdefFrame) (rejecting : all_accepting base ≡ false) where
  -- One directive in a rejected region.
  dispatch_rejected :
      (h : Option Head) (rest : Bytes) (loc : Location) (lx : Lexer) (n k : ℕ)
      → step_depth h n ≡ some k
      → Above base n lx.ifdefs
      → Unchanged lx (dispatch files h rest loc lx)
        × Above base k (dispatch files h rest loc lx).ifdefs
  unfolding dispatch
  dispatch_rejected none rest loc lx n k d a =
      (Unchanged-refl lx, subst (λ j. Above base j lx.ifdefs) (some_eq d) a)
  dispatch_rejected (some (cond_head h)) rest loc lx n k d a =
      let (u, m) = conditional-Effect h rest loc lx in (u, Above-move base (motion h) n k _ _ d m a)
  dispatch_rejected (some (plain_head h)) rest loc lx n k d a =
      let r : accepting lx ≡ false =
        unfold accepting in Above-rejects base n lx.ifdefs rejecting a in
      rw r (Unchanged-refl lx, subst (λ j. Above base j lx.ifdefs) (some_eq d) a)

  run_rejected :
      (bs : Bodies) (lx : Lexer) (n k : ℕ)
      → depth bs n ≡ some k
      → Above base n lx.ifdefs
      → Unchanged lx (run files bs lx) × Above base k (run files bs lx).ifdefs
  unfolding handle_directive
  run_rejected [] lx n k d a =
      (Unchanged-refl lx, subst (λ j. Above base j lx.ifdefs) (some_eq d) a)
  run_rejected ((body, loc) ∷ bs) lx n k d a =
      go (step_depth (head_of body) n) refl d (run_rejected bs (handle_directive files body loc lx))
    where
      go :
          (o : Option ℕ)
          → step_depth (head_of body) n ≡ o
          → (elim o [ none ↦ none | some m ↦ depth bs m ]) ≡ some k
          → ((m j : ℕ)
              → depth bs m ≡ some j
              → Above base m (handle_directive files body loc lx).ifdefs
              → Unchanged
                  (handle_directive files body loc lx)
                  (run files bs (handle_directive files body loc lx))
                × Above base j (run files bs (handle_directive files body loc lx)).ifdefs)
          → Unchanged lx (run files bs (handle_directive files body loc lx))
            × Above base k (run files bs (handle_directive files body loc lx)).ifdefs
      go none e f ih = cc
      go (some m) e f ih =
          let (u, b) = dispatch_rejected (head_of body) (split_directive body).1 loc lx n m e a in
          let (v, c) = ih m k f b in (Unchanged-trans u v, c)

-- In a rejected region, directives that open and end whole groups have no effect but reports: the
-- input, the inputs below it, the symbols, the switches and the frames are those from before.
pub run_skips :
    (files : Files) (bs : Bodies) (lx : Lexer)
    → accepting lx ≡ false
    → depth bs 0 ≡ some 0
    → Unchanged lx (run files bs lx) × ((run files bs lx).ifdefs ≡ lx.ifdefs)
unfolding accepting
run_skips files bs lx r d = run_rejected files lx.ifdefs r bs lx 0 0 d refl

-- A plain directive does not touch the frames.
plain-ifdefs :
    (files : Files) (h : PlainHead) (rest : Bytes) (loc : Location) (lx : Lexer)
    → (plain files h rest loc lx).ifdefs ≡ lx.ifdefs
unfolding plain report on_typed_address on_long_strings on_interfaces set_packenum
plain-ifdefs files include rest loc lx = do_include-ifdefs files rest loc lx
plain-ifdefs files typed_address rest loc lx = ground arith
plain-ifdefs files long_strings rest loc lx = ground arith
plain-ifdefs files interfaces rest loc lx = ground arith
plain-ifdefs files (packenum_value head) rest loc lx = ground arith
plain-ifdefs files mode rest loc lx = ground arith
plain-ifdefs files _ rest loc lx = refl

dispatch-AreNested :
    (files : Files) (h : Option Head) (rest : Bytes) (loc : Location) (lx : Lexer)
    → AreNested lx.ifdefs
    → AreNested (dispatch files h rest loc lx).ifdefs
unfolding dispatch
dispatch-AreNested files none rest loc lx n = n
dispatch-AreNested files (some (cond_head h)) rest loc lx n = conditional-AreNested h rest loc lx n
dispatch-AreNested files (some (plain_head h)) rest loc lx n = elim (Bool-cases (accepting lx)) [
  | inl a ↦ rw a (rw plain-ifdefs n)
  | inr r ↦ rw r n
]

-- Every directive keeps nested frames nested, so that the innermost frame alone decides whether
-- tokens are accepted.
pub handle_directive-AreNested :
    (files : Files) (body : Bytes) (loc : Location) (lx : Lexer)
    → AreNested lx.ifdefs
    → AreNested (handle_directive files body loc lx).ifdefs
      × (accepting (handle_directive files body loc lx)
          ≡ innermost (handle_directive files body loc lx).ifdefs)
unfolding handle_directive accepting
handle_directive-AreNested files body loc lx n =
    let kept = dispatch-AreNested files (head_of body) (split_directive body).1 loc lx n in
    (kept, all_accepting-innermost _ kept)
