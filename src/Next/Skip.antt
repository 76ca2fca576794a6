-- ===== src/Next/Skip.antt =====
-- `skip_ws_and_comments` ends: each of its rounds leaves less to read.
use tp2cc.Next.Blanks.{brace_depth-Suffix, skip_second, until_brace-Suffix, until_star_paren-Suffix}
use tp2cc.Text.{is_space}
use tp2cc.Prelude.{
  Bool, Bool-cases, Bytes, List, Option, [], ap, arith, false, if_ind, if◌then◌else◌, inl, inr,
  is_empty, ltb, none, refl, some, suc, sym, true, zero, ℕ, ◌&&◌, ◌+◌, ◌<◌, ◌==◌, ◌∷◌, ◌≡◌, ◌≢◌,
  ◌≤◌,
}
use tp2cc.Source.{Input, consume, get, here, peek, span}
use tp2cc.Source.Suffix.{
  Inside, Inside-trans, Suffix, Suffix-trans, get-Inside_nonempty, get-Suffix, span-Inside_nonempty,
}
use tp2cc.Preproc.State.{Lexer}
use tp2cc.Preproc.Include.{Files}
use tp2cc.Next.{
  at_comment, brace_comment, brace_depth, directive_at_brace, directive_at_paren, is_not_newline,
  pop_from, pop_input_if_eof, set_input, skip_bytes, skip_step, skip_ws_and_comments, until_brace,
  until_star_paren,
}
use tp2cc.Next.Weight.{
  Inside-weight, IsFlat, Suffix-weight, below_weight, byte_weight, handle_directive-total, total,
  weight,
}

module _ (k : ℕ) (big : 13 ≤ k) where
  brace_comment-total :
      (is : List Input) (depth : ℕ) (lx : Lexer)
      → lx.below ≡ is
      → total k (brace_comment is depth lx) ≤ total k lx
  unfolding brace_comment
  brace_comment-total [] depth lx e =
      omega (arith, Suffix-weight k big (brace_depth-Suffix lx.input.rest depth lx.input refl))
  brace_comment-total (i ∷ is) depth lx e =
      let run = brace_depth lx.input.rest depth lx.input in
      let shorter = Suffix-weight k big (brace_depth-Suffix lx.input.rest depth lx.input refl) in
      let popped = record lx { input = i; below = is } in
      if_ind (λ lx'. total k lx' ≤ total k lx) (ltb 0 run.0 && is_empty run.1.rest)
        (λ _. omega (arith, brace_comment-total is run.0 popped refl, ap (below_weight k) e))
        (λ _. omega (arith, shorter))

  opened_weight :
      (inp : Input) (open_byte second : ℕ)
      → byte_weight k open_byte ≡ k
      → byte_weight k second ≡ 1
      → peek inp.rest 0 ≡ open_byte
      → peek inp.rest 1 ≡ second
      → open_byte ≢ 0
      → second ≢ 0
      → weight k (skip_bytes 2 inp).rest + k + 1 ≤ weight k inp.rest
  unfolding skip_bytes get peek consume
  opened_weight inp open_byte second w v p q nz mz = go inp.rest p q
    where
      go :
          (r : Bytes)
          → peek r 0 ≡ open_byte
          → peek r 1 ≡ second
          → weight k (skip_bytes 2 (record inp { rest = r })).rest + k + 1 ≤ weight k r
      go [] p q = absurd (nz (sym p))
      go (c ∷ []) p q = absurd (mz (sym q))
      go (c ∷ d ∷ r) p q = rw (p, q, w, v) (omega arith)

  -- The lexer that a step gives has less than `n` to read.
  abbrev Shrinks : ℕ → Option Lexer → Type 0
  Shrinks n none = Unit
  Shrinks n (some lx) = total k lx < n

  pop_from-total :
      (is : List Input) (lx m : Lexer)
      → lx.below ≡ is
      → pop_from is lx ≡ some m
      → total k m < total k lx
  unfolding pop_from
  pop_from-total [] lx m e p = cc
  pop_from-total (i ∷ is) lx m e p =
      let popped : record lx { input = i; below = is } ≡ m = cc in
      rw (← popped) (omega (arith, ap (below_weight k) e))

  pub pop-total : (lx m : Lexer) → pop_input_if_eof lx ≡ some m → total k m < total k lx
  unfolding pop_input_if_eof
  pop-total lx m p = elim (Bool-cases (is_empty lx.input.rest)) [
    | inl e ↦ pop_from-total lx.below lx m refl (rw e at p)
    | inr n ↦ absurd (differ (rw n at p))
  ]
    where
      differ : none ≡ some m → ⊥
      differ h = cc

  pub nonempty : (r : Bytes) → (peek r 0 == 0) ≡ false → is_empty r ≡ false
  unfolding peek
  nonempty [] h = cc
  nonempty (c ∷ r) h = refl

  module _ (files : Files) (flat : IsFlat k files) where
    directive_at_brace-total :
        (lx : Lexer)
        → peek lx.input.rest 0 ≡ b'{'
        → peek lx.input.rest 1 ≡ b'$'
        → total k (directive_at_brace files lx) < total k lx
    unfolding directive_at_brace
    directive_at_brace-total lx p q =
        let body = skip_bytes 2 lx.input in
        let run = until_brace body.rest body in
        omega (
          arith,
          handle_directive-total k big files flat run.0 (here lx.input) (set_input run.1 lx),
          Suffix-weight k big (until_brace-Suffix body.rest body refl),
          opened_weight lx.input b'{' b'$' refl refl p q (omega arith) (omega arith),
        )

    directive_at_paren-total :
        (lx : Lexer)
        → peek lx.input.rest 0 ≡ b'('
        → peek lx.input.rest 1 ≡ b'*'
        → total k (directive_at_paren files lx) < total k lx
    unfolding directive_at_paren
    directive_at_paren-total lx p q =
        let body = skip_bytes 3 lx.input in
        let run = until_star_paren body.rest body in
        omega (
          arith,
          handle_directive-total k big files flat run.0 (here lx.input) (set_input run.1 lx),
          Suffix-weight k big (until_star_paren-Suffix body.rest body refl),
          Suffix-weight k big (third lx.input),
          opened_weight lx.input b'(' b'*' refl refl p q (omega arith) (omega arith),
        )
      where
        third : (inp : Input) → Suffix (skip_bytes 3 inp).rest (skip_bytes 2 inp).rest
        third inp = unfold skip_bytes in get-Suffix (get (get inp).1).1

    at_comment-Shrinks :
        (lx : Lexer) → is_empty lx.input.rest ≡ false → Shrinks (total k lx) (at_comment files lx)
    unfolding at_comment
    at_comment-Shrinks lx n =
        let r = lx.input.rest in
        let one = get-Inside_nonempty lx.input n in
        if_ind (Shrinks (total k lx)) (is_space (peek r 0)) (λ _. smaller lx (get lx.input).1 one)
          (λ _.
            if_ind (Shrinks (total k lx)) (peek r 0 == b'/' && peek r 1 == b'/')
              (λ s.
                smaller lx (span is_not_newline r lx.input).1
                  (span-Inside_nonempty is_not_newline lx.input n (not_newline _ _ s)))
              (λ _.
                if_ind (Shrinks (total k lx)) (peek r 0 == b'{' && peek r 1 == b'$')
                  (λ d. directive_at_brace-total lx (ground arith) (ground arith))
                  (λ _.
                    if_ind (Shrinks (total k lx)) (peek r 0 == b'{')
                      (λ _.
                        le_lt (brace_comment-total lx.below 1 (set_input (get lx.input).1 lx) refl)
                          (smaller lx (get lx.input).1 one))
                      (λ _.
                        if_ind (Shrinks (total k lx))
                          (peek r 0 == b'(' && (peek r 1 == b'*' && peek r 2 == b'$'))
                          (λ d. directive_at_paren-total lx (ground arith) (ground arith))
                          (λ _.
                            if_ind (Shrinks (total k lx)) (peek r 0 == b'(' && peek r 1 == b'*')
                              (λ _.
                                smaller lx
                                  (until_star_paren (skip_bytes 2 lx.input).rest
                                    (skip_bytes 2 lx.input)).1
                                  (star lx.input n))
                              (λ _. tt))))))
      where
        smaller :
            (lx : Lexer) (inp : Input)
            → Inside inp.rest lx.input.rest
            → total k (set_input inp lx) < total k lx
        smaller lx inp i = omega (arith, Inside-weight k big inp.rest lx.input.rest i)

        le_lt : {a b c : ℕ} → a ≤ b → b < c → a < c
        le_lt h l = omega arith

        not_newline : (c : ℕ) (d : Bool) → (c == b'/' && d) ≡ true → is_not_newline c ≡ true
        not_newline c d s = unfold is_not_newline in ground arith

        star :
            (inp : Input)
            → is_empty inp.rest ≡ false
            → Inside (until_star_paren (skip_bytes 2 inp).rest (skip_bytes 2 inp)).1.rest inp.rest
        star inp n =
            let second : Suffix (skip_bytes 2 inp).rest (get inp).1.rest = skip_second inp in
            Inside-trans _ _ inp.rest
              (Suffix-trans (until_star_paren-Suffix _ (skip_bytes 2 inp) refl) second)
              (get-Inside_nonempty inp n)

    skip_step-Shrinks : (lx : Lexer) → Shrinks (total k lx) (skip_step files lx)
    unfolding skip_step
    skip_step-Shrinks lx = go (pop_input_if_eof lx) refl
      where
        go :
            (o : Option Lexer)
            → pop_input_if_eof lx ≡ o
            → Shrinks (total k lx) (elim o [
              | some popped ↦ some popped
              | none ↦ if peek lx.input.rest 0 == 0 then none else at_comment files lx
            ])
        go (some m) e = pop-total lx m e
        go none e =
            if_ind (Shrinks (total k lx)) (peek lx.input.rest 0 == 0) (λ _. tt)
              (λ n. at_comment-Shrinks lx (nonempty lx.input.rest n))

    -- If every file that can be included is flat, `skip_ws_and_comments` stops with more fuel than
    -- the weight of what is left to read. It leaves no more than that to read, and stops where a
    -- step has nothing more to skip.
    pub skip_ws-total :
        (fuel : ℕ) (lx : Lexer)
        → total k lx < fuel
        → (lx' : Lexer) × (skip_ws_and_comments files fuel lx ≡ some lx')
          × (total k lx' ≤ total k lx)
          × (skip_step files lx' ≡ none)
    unfolding skip_ws_and_comments
    skip_ws-total zero lx h = elim h [ ]
    skip_ws-total (suc fuel) lx h =
        go (skip_step files lx) refl (skip_step-Shrinks lx) (skip_ws-total fuel)
      where
        go :
            (o : Option Lexer)
            → skip_step files lx ≡ o
            → Shrinks (total k lx) (skip_step files lx)
            → ((m : Lexer)
                → total k m < fuel
                → (lx' : Lexer) × (skip_ws_and_comments files fuel m ≡ some lx')
                  × (total k lx' ≤ total k m)
                  × (skip_step files lx' ≡ none))
            → (lx' : Lexer) × ((elim o [
              | none ↦ some lx
              | some m ↦ skip_ws_and_comments files fuel m
            ])
                ≡ some lx')
              × (total k lx' ≤ total k lx)
              × (skip_step files lx' ≡ none)
        go none e s ih = (lx, refl, omega arith, e)
        go (some m) e s ih =
            let smaller : total k m < total k lx = rw e at s in
            let (lx', f, t, stop) = ih m (omega arith) in (lx', f, omega arith, stop)
