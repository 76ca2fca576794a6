-- ===== src/Scan/Progress.antt =====
-- Every scanner reads a byte at least of the token that starts at its input.
use tp2cc.Scan.Number.Whole.{exponent-PieceWhole, fraction-PieceWhole}
use tp2cc.Prelude.{
  Bool, Bytes, Option, arith, false, if_ind, is_empty, none, refl, some, true, ℕ, ◌==◌, ◌||◌, ◌≡◌,
}
use tp2cc.Text.{is_digit, is_ident_cont, is_ident_start}
use tp2cc.Source.{Input, Location, get, here, peek, span}
use tp2cc.Source.Suffix.{
  Inside, Inside-trans, Suffix, Suffix-of_append, Suffix-trans, get-Inside_nonempty, get-Suffix,
  span-Inside, span-Suffix, whole,
}
use tp2cc.Token.{Tok}
use tp2cc.Scan.{Scanned}
use tp2cc.Scan.Digits.{Accumulator}
use tp2cc.Scan.Number.{decimal_token, exponent, fraction, scan_decimal, scan_number, scan_prefixed}
use tp2cc.Scan.Word.{scan_identifier_or_keyword}
use tp2cc.Scan.Punctuation.{punctuation_token, scan_punctuation}

abbrev pub Reads : Input → Scanned → Type 0
Reads inp s = Inside s.input.rest inp.rest

pub scan_word-Reads :
    (inp : Input)
    → is_ident_start (peek inp.rest 0) ≡ true
    → Reads inp (scan_identifier_or_keyword inp)
unfolding scan_identifier_or_keyword is_ident_cont
scan_word-Reads inp h = span-Inside is_ident_cont inp refl (unfold is_ident_cont in rw h refl)

punctuation_token-Suffix :
    (loc : Location) (c : ℕ) (behind : Input) (o : Option (Tok × Bool))
    → Suffix (punctuation_token loc c behind o).input.rest behind.rest
unfolding punctuation_token
punctuation_token-Suffix loc c behind (some (kind, true)) = get-Suffix behind
punctuation_token-Suffix loc c behind (some (kind, false)) = whole
punctuation_token-Suffix loc c behind none = whole

pub scan_punctuation-Reads :
    (inp : Input) → is_empty inp.rest ≡ false → Reads inp (scan_punctuation inp)
unfolding scan_punctuation
scan_punctuation-Reads inp h =
    Inside-trans _ _ inp.rest (punctuation_token-Suffix (here inp) (get inp).0 (get inp).1 _)
      (get-Inside_nonempty inp h)

scan_prefixed-Reads :
    (base : ℕ) (test : ℕ → Bool) (val : ℕ → ℕ) (inp : Input)
    → is_empty inp.rest ≡ false
    → Reads inp (scan_prefixed base test val inp)
unfolding scan_prefixed
scan_prefixed-Reads base test val inp h =
    Inside-trans _ _ inp.rest (span-Suffix test (get inp).1) (get-Inside_nonempty inp h)

decimal_token-input :
    (real : Bool) (loc : Location) (text : Bytes) (sum : Accumulator) (last : Input)
    → (decimal_token real loc text sum last).input ≡ last
unfolding decimal_token
decimal_token-input true loc text sum last = refl
decimal_token-input false loc text sum last = refl

scan_decimal-Reads :
    (inp : Input) → is_digit (peek inp.rest 0) ≡ true → Reads inp (scan_decimal inp)
unfolding scan_decimal is_digit
scan_decimal-Reads inp h =
    let run = span is_digit inp.rest inp in
    let f = fraction run.1 in
    let e = exponent f.input in
    rw decimal_token-input (
      Inside-trans _ _ inp.rest
        (Suffix-trans (Suffix-of_append e.text (exponent-PieceWhole f.input))
          (Suffix-of_append f.text (fraction-PieceWhole run.1)))
        (span-Inside is_digit inp refl h))

pub scan_number-Reads :
    (inp : Input)
    → is_empty inp.rest ≡ false
    → (is_digit (peek inp.rest 0)
        || (peek inp.rest 0 == b'$' || (peek inp.rest 0 == b'%' || peek inp.rest 0 == b'&')))
      ≡ true
    → Reads inp (scan_number inp)
unfolding scan_number
scan_number-Reads inp n h =
    if_ind (Reads inp) (peek inp.rest 0 == b'$') (λ _. scan_prefixed-Reads _ _ _ inp n)
      (λ a.
        if_ind (Reads inp) (peek inp.rest 0 == b'%') (λ _. scan_prefixed-Reads _ _ _ inp n)
          (λ b.
            if_ind (Reads inp) (peek inp.rest 0 == b'&') (λ _. scan_prefixed-Reads _ _ _ inp n)
              (λ c. scan_decimal-Reads inp (digit a b c h))))
  where
    digit :
        {p q r s : Bool}
        → q ≡ false
        → r ≡ false
        → s ≡ false
        → (p || (q || (r || s))) ≡ true
        → p ≡ true
    digit a b c t = ground arith
