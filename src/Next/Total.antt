-- ===== src/Next/Total.antt =====
-- The lexer ends: `next` returns a token with fuel for what is left to read, and each token but
-- the last one leaves less to read.
use tp2cc.Prelude.{
  Option, [], arith, false, if_ind, if◌then◌else◌, inl, inr, is_empty, none, refl, some, suc, zero,
  ℕ, ◌<◌, ◌==◌, ◌||◌, ◌≡◌, ◌≤◌, ◌⊎◌,
}
use tp2cc.Text.{is_digit, is_ident_start}
use tp2cc.Source.{get, here, peek}
use tp2cc.Source.Suffix.{get-Inside_nonempty}
use tp2cc.Token.{Token, eof, token}
use tp2cc.Scan.{Scanned}
use tp2cc.Scan.Progress.{Reads, scan_number-Reads, scan_punctuation-Reads, scan_word-Reads}
use tp2cc.Scan.Number.{scan_number}
use tp2cc.Scan.Word.{scan_identifier_or_keyword}
use tp2cc.Scan.Punctuation.{scan_punctuation}
use tp2cc.Scan.Strings.{scan_string}
use tp2cc.Scan.Strings.Total.{ReadsInside, scan_string-ReadsInside}
use tp2cc.Preproc.State.{Lexer, accepting}
use tp2cc.Preproc.Include.{Files}
use tp2cc.Next.{
  Round, again, emit, emit_string, goes_on, next, next_step, pop_input_if_eof, returns, round_of,
  scan_token, set_input, skip_rejected, skip_string,
}
use tp2cc.Next.Weight.{Inside-weight, IsFlat, total}
use tp2cc.Next.Skip.{pop-total, skip_ws-total}

module _ (k : ℕ) (big : 13 ≤ k) where
  -- A token, and a lexer with less to read than `lx`.
  abbrev Gives : Lexer → Option (Token × Lexer) → Type 0
  Gives lx o = (t : Token) × (lx' : Lexer) × (o ≡ some (t, lx')) × (total k lx' < total k lx)

  emit-Gives : (lx : Lexer) (s : Scanned) → Reads lx.input s → Gives lx (some (emit s lx))
  emit-Gives lx s i = (
    s.token,
    (emit s lx).1,
    refl,
    omega (arith, Inside-weight k big s.input.rest lx.input.rest i),
  )

  emit_string-Gives :
      (lx : Lexer) (o : Option Scanned) → ReadsInside lx.input.rest o → Gives lx (emit_string lx o)
  unfolding emit_string
  emit_string-Gives lx o (s, e, i) = rw e (emit-Gives lx s i)

  scan_token-Gives : (lx : Lexer) → is_empty lx.input.rest ≡ false → Gives lx (scan_token lx)
  unfolding scan_token
  scan_token-Gives lx n =
      let c = peek lx.input.rest 0 in
      if_ind (Gives lx) (is_ident_start c)
        (λ w. emit-Gives lx (scan_identifier_or_keyword lx.input) (scan_word-Reads lx.input w))
        (λ _.
          if_ind (Gives lx) (is_digit c || (c == b'$' || (c == b'%' || c == b'&')))
            (λ d. emit-Gives lx (scan_number lx.input) (scan_number-Reads lx.input n d))
            (λ _.
              if_ind (Gives lx) (c == b'\'' || c == b'#')
                (λ q.
                  emit_string-Gives lx (scan_string lx.input) (scan_string-ReadsInside lx.input q))
                (λ _.
                  emit-Gives lx (scan_punctuation lx.input) (scan_punctuation-Reads lx.input n))))

  abbrev Passes : Lexer → Option Lexer → Type 0
  Passes lx o = (lx' : Lexer) × (o ≡ some lx') × (total k lx' < total k lx)

  skip_string-Passes :
      (lx : Lexer) (o : Option Scanned) → ReadsInside lx.input.rest o → Passes lx (skip_string lx o)
  unfolding skip_string
  skip_string-Passes lx o (s, e, i) =
      rw e ((emit s lx).1, refl, omega (arith, Inside-weight k big s.input.rest lx.input.rest i))

  skip_rejected-Passes :
      (lx : Lexer) → is_empty lx.input.rest ≡ false → Passes lx (skip_rejected lx)
  unfolding skip_rejected
  skip_rejected-Passes lx n =
      let c = peek lx.input.rest 0 in
      if_ind (Passes lx) (c == b'\'' || c == b'#')
        (λ q. skip_string-Passes lx (scan_string lx.input) (scan_string-ReadsInside lx.input q))
        (λ _. (
          set_input (get lx.input).1 lx,
          refl,
          omega (arith, Inside-weight k big _ _ (get-Inside_nonempty lx.input n)),
        ))

  -- The end of the input, or less than `n` left to read.
  abbrev pub Progress : ℕ → Token → Lexer → Type 0
  Progress n t lx = (t.kind ≡ eof) ⊎ (total k lx < n)

  abbrev Advances : ℕ → Option Round → Type 0
  Advances n none = ⊥
  Advances n (some (returns t lx)) = Progress n t lx
  Advances n (some (goes_on lx)) = total k lx < n

  round_of-Advances :
      (lx : Lexer) (o : Option (Token × Lexer)) → Gives lx o → Advances (total k lx) (round_of o)
  round_of-Advances lx o (t, lx', e, h) = rw e (inr h)

  again-Advances : (lx : Lexer) (o : Option Lexer) → Passes lx o → Advances (total k lx) (again o)
  again-Advances lx o (lx', e, h) = rw e h

  next_step-Advances : (lx : Lexer) → Advances (total k lx) (next_step lx)
  unfolding next_step
  next_step-Advances lx = go (pop_input_if_eof lx) refl
    where
      go :
          (o : Option Lexer)
          → pop_input_if_eof lx ≡ o
          → Advances (total k lx) (elim o [
            | some popped ↦ some (goes_on popped)
            | none ↦
                if is_empty lx.input.rest
                then some (returns (token eof (here lx.input) []) lx)
                else if accepting lx
                then round_of (scan_token lx)
                else again (skip_rejected lx)
          ])
      go (some m) e = pop-total k big lx m e
      go none e =
          if_ind (Advances (total k lx)) (is_empty lx.input.rest) (λ _. inl refl)
            (λ n.
              if_ind (Advances (total k lx)) (accepting lx)
                (λ _. round_of-Advances lx (scan_token lx) (scan_token-Gives lx n))
                (λ _. again-Advances lx (skip_rejected lx) (skip_rejected-Passes lx n)))

  module _ (files : Files) (flat : IsFlat k files) where
    -- The result of the loop: a token.
    abbrev Ends : ℕ → Option (Token × Lexer) → Type 0
    Ends n o = (t : Token) × (lx' : Lexer) × (o ≡ some (t, lx')) × Progress n t lx'

    Ends-mono : {m n : ℕ} (o : Option (Token × Lexer)) → m ≤ n → Ends m o → Ends n o
    Ends-mono o h (t, lx, e, inl end) = (t, lx, e, inl end)
    Ends-mono o h (t, lx, e, inr less) = (t, lx, e, inr (omega arith))

    next-Ends :
        (fuel : ℕ) (lx : Lexer) → suc (total k lx) < fuel → Ends (total k lx) (next files fuel lx)
    unfolding next
    next-Ends zero lx h = elim h [ ]
    next-Ends (suc fuel) lx h =
        let (m, e, le, _) = skip_ws-total k big files flat fuel lx (omega arith) in
        Ends-mono _ le
          (rw (e, next) (go m (next_step m) (next_step-Advances m) (next-Ends fuel) (omega arith)))
      where
        go :
            (m : Lexer) (o : Option Round)
            → Advances (total k m) o
            → ((l : Lexer) → suc (total k l) < fuel → Ends (total k l) (next files fuel l))
            → total k m < fuel
            → Ends (total k m) (elim o [
              | none ↦ none
              | some (returns t l) ↦ some (t, l)
              | some (goes_on l) ↦ next files fuel l
            ])
        go m none a ih h = absurd a
        go m (some (returns t l)) a ih h = (t, l, refl, a)
        go m (some (goes_on l)) a ih h = Ends-mono _ (omega arith) (ih l (omega arith))

  -- If every file that can be included is flat, which is lighter than `k` (13 at least), `next`
  -- returns a token with two more fuel than the weight of what is left to read. Behind each token
  -- but the end of the input less is left to read than before.
  pub next-total :
      (files : Files)
      → IsFlat k files
      → (lx : Lexer)
      → (t : Token) × (lx' : Lexer) × (next files (suc (suc (total k lx))) lx ≡ some (t, lx'))
        × Progress (total k lx) t lx'
  next-total files flat lx = next-Ends files flat (suc (suc (total k lx))) lx (omega arith)
