-- ===== src/Next/Weight.antt =====
-- A measure of what the lexer has still to read. A byte that can open a directive weighs `k`, which
-- pays for the file that the directive may include.
use tp2cc.Prelude.{
  Bytes, List, Option, [], ap, arith, codes, if_ind, if◌then◌else◌, inl, inr, none, some, suc, ℕ,
  ◌&&◌, ◌+◌, ◌<◌, ◌==◌, ◌||◌, ◌∷◌, ◌≡◌, ◌≤◌, ◌⊎◌,
}
use tp2cc.Text.{skip_bom}
use tp2cc.Source.{Input, Location, SourceFile, open_input}
use tp2cc.Source.Suffix.{Inside, Suffix, beyond, whole}
use tp2cc.Preproc.State.{Lexer, accepting, report}
use tp2cc.Preproc.Cond.Skipped.{conditional-Effect}
use tp2cc.Preproc.Include.{Files, push_input}
use tp2cc.Preproc.Include.Stack.{Included, builtin, do_include-Included, loaded, reported}
use tp2cc.Preproc.Directive.{
  Head, PlainHead, cond_head, dispatch, handle_directive, include, interfaces, long_strings, mode,
  on_interfaces, on_long_strings, on_typed_address, packenum_value, plain, plain_head, set_packenum,
  typed_address,
}

module _ (k : ℕ) where
  abbrev pub byte_weight : ℕ → ℕ
  byte_weight c = if c == b'{' || c == b'(' then k else 1

  abbrev pub weight : Bytes → ℕ
  weight [] = 0
  weight (c ∷ s) = byte_weight c + weight s

  -- One more for each input, so that popping one counts.
  abbrev pub below_weight : List Input → ℕ
  below_weight [] = 0
  below_weight (i ∷ is) = suc (weight i.rest) + below_weight is

  abbrev pub total : Lexer → ℕ
  total lx = suc (weight lx.input.rest) + below_weight lx.below

  -- Files that include nothing themselves, as they hold no opening byte: one would weigh `k`.
  abbrev pub IsFlat : Files → Type 0
  IsFlat files = (path contents : Bytes) → files.load path ≡ some contents → weight contents < k

  module _ (big : 13 ≤ k) where
    pub Suffix-weight : {s r : Bytes} → Suffix s r → weight s ≤ weight r
    Suffix-weight whole = omega arith
    Suffix-weight (beyond t) = omega (arith, Suffix-weight t)

    pub Inside-weight : (s r : Bytes) → Inside s r → weight s < weight r
    unfolding Inside
    Inside-weight s [] i = absurd i
    Inside-weight s (c ∷ r) i = ground (arith, Suffix-weight i)

    skip_bom-weight : (s : Bytes) → weight (skip_bom s) ≤ weight s
    unfolding skip_bom
    skip_bom-weight (a ∷ b ∷ c ∷ s) =
        if_ind (λ t. weight t ≤ weight (a ∷ b ∷ c ∷ s)) (a == 0xef && b == 0xbb && c == 0xbf)
          (λ _. omega arith) (λ _. omega arith)
    skip_bom-weight _ = omega arith

    push_input-total :
        (f : SourceFile) (lx : Lexer)
        → weight f.contents < k
        → total (push_input f lx) ≤ total lx + k
    unfolding push_input open_input
    push_input-total f lx h = omega (arith, skip_bom-weight f.contents)

    Included-total :
        {files : Files} {lx lx' : Lexer}
        → IsFlat files
        → Included files lx lx'
        → total lx' ≤ total lx + k
    unfolding report
    Included-total flat (reported d) = omega arith
    Included-total {lx} flat (builtin f e) = push_input-total f lx (small e)
      where
        small :
            (f.contents ≡ codes "'1970-01-01'") ⊎ (f.contents ≡ codes "'00:00:00'")
            → weight f.contents < k
        small (inl e) = rw e (omega arith)
        small (inr e) = rw e (omega arith)
    Included-total {lx} flat (loaded f e) = push_input-total f lx (flat f.path f.contents e)

    module _ (files : Files) (flat : IsFlat files) where
      plain-total :
          (h : PlainHead) (rest : Bytes) (loc : Location) (lx : Lexer)
          → total (plain files h rest loc lx) ≤ total lx + k
      unfolding plain report on_typed_address on_long_strings on_interfaces set_packenum
      plain-total include rest loc lx = Included-total flat (do_include-Included files rest loc lx)
      plain-total typed_address rest loc lx = ground arith
      plain-total long_strings rest loc lx = ground arith
      plain-total interfaces rest loc lx = ground arith
      plain-total (packenum_value head) rest loc lx = ground arith
      plain-total mode rest loc lx = ground arith
      plain-total _ rest loc lx = omega arith

      dispatch-total :
          (h : Option Head) (rest : Bytes) (loc : Location) (lx : Lexer)
          → total (dispatch files h rest loc lx) ≤ total lx + k
      unfolding dispatch
      dispatch-total none rest loc lx = omega arith
      dispatch-total (some (cond_head h)) rest loc lx =
          let u = (conditional-Effect h rest loc lx).0 in
          omega
            (arith, ap (λ (i : Input). weight i.rest) u.same_input, ap below_weight u.same_below)
      dispatch-total (some (plain_head h)) rest loc lx =
          if_ind (λ lx'. total lx' ≤ total lx + k) (accepting lx) (λ _. plain-total h rest loc lx)
            (λ _. omega arith)

      -- A directive adds one flat file at most.
      pub handle_directive-total :
          (body : Bytes) (loc : Location) (lx : Lexer)
          → total (handle_directive files body loc lx) ≤ total lx + k
      unfolding handle_directive
      handle_directive-total body loc lx = dispatch-total _ _ loc lx
