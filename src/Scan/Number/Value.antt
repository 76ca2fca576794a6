-- ===== src/Scan/Number/Value.antt =====
-- What a numeric token says: its text is what was read, and its value is what the text denotes.
use tp2cc.Token.{int_lit}
use tp2cc.Scan.Digits.{accumulate, no_digits, u64}
use tp2cc.Scan.Digits.Exact.{accumulate_exact, numeral}
use tp2cc.Text.{hex_val, is_digit, is_hex}
use tp2cc.Messages.{integer_exceeds_64_bits}
use tp2cc.Prelude.{
  ==→eq, Bool, Bool-cases, Bytes, [], ap, append-nil, arith, false, if◌then◌else◌, inl, inr, leb,
  refl, true, ℕ, ◌++◌, ◌<◌, ◌==◌, ◌||◌, ◌∙◌, ◌∷◌, ◌≡◌, ◌≤◌, ◌⊎◌,
}
use tp2cc.Source.{Input, get, here, peek, report_error, span}
use tp2cc.Source.Span.{All, span-All}
use tp2cc.Scan.{Scanned}
use tp2cc.Scan.Number.{
  Piece, decimal_token, digit_val, exponent, fraction, is_binary, is_octal, overflow_report,
  scan_decimal, scan_number, scan_prefixed,
}

-- The number that a literal's text denotes: `$` hexadecimal, `%` binary, `&` octal, else decimal.
pub denoted : Bytes → ℕ
denoted [] = 0
denoted (c ∷ ds) =
    if c == b'$'
    then numeral 16 hex_val ds 0
    else if c == b'%'
    then numeral 2 digit_val ds 0
    else if c == b'&'
    then numeral 8 digit_val ds 0
    else numeral 10 digit_val (c ∷ ds) 0

-- What the value and the reports of an integer token have to be.
abbrev pub HasValue : Scanned → Input → ℕ → Type 0
HasValue s inp n =
    (s.diags ≡ (if leb u64 n then report_error (here inp) integer_exceeds_64_bits ∷ [] else []))
    × ((u64 ≤ n) ⊎ (s.token.int_value ≡ n))

pub get-peek : (inp : Input) → (get inp).0 ≡ peek inp.rest 0
unfolding get peek
get-peek inp = go inp.rest
  where
    go : (r : Bytes) → (get (record inp { rest = r })).0 ≡ peek r 0
    go [] = refl
    go (c ∷ r) = refl

pub get-peek_second : (inp : Input) → peek (get inp).1.rest 0 ≡ peek inp.rest 1
unfolding get peek
get-peek_second inp = go inp.rest
  where
    go : (r : Bytes) → peek (get (record inp { rest = r })).1.rest 0 ≡ peek r 1
    go [] = refl
    go (c ∷ r) = refl

HasValue-of_exact :
    (base : ℕ) (val : ℕ → ℕ) (ds : Bytes) (s : Scanned) (inp : Input)
    → 0 < base
    → s.diags ≡ overflow_report (here inp) (accumulate u64 base val ds no_digits).overflow
    → s.token.int_value ≡ (accumulate u64 base val ds no_digits).value
    → HasValue s inp (numeral base val ds 0)
HasValue-of_exact base val ds s inp b d v =
    let (flag, value) = accumulate_exact u64 base val ds b (omega arith) in
    (
      d ∙ ap (overflow_report (here inp)) flag,
      elim value [ inl big ↦ inl big | inr fits ↦ inr (v ∙ fits) ],
    )

scan_prefixed-HasValue :
    (base : ℕ) (test : ℕ → Bool) (val : ℕ → ℕ) (inp : Input)
    → 0 < base
    → HasValue
        (scan_prefixed base test val inp)
        inp
        (numeral base val (span test (get inp).1.rest (get inp).1).0 0)
unfolding scan_prefixed
scan_prefixed-HasValue base test val inp b =
    HasValue-of_exact base val (span test (get inp).1.rest (get inp).1).0
      (scan_prefixed base test val inp) inp b refl refl

denoted_digits : (ds : Bytes) → All is_digit ds → denoted ds ≡ numeral 10 digit_val ds 0
unfolding denoted numeral is_digit
denoted_digits [] h = refl
denoted_digits (c ∷ ds) h = ground arith

piece_untaken :
    (inp : Input)
    → ((fraction inp).taken ≡ false → (fraction inp).text ≡ [])
      × ((exponent inp).taken ≡ false → (exponent inp).text ≡ [])
piece_untaken inp = (of_fraction, of_exponent)
  where
    of_fraction : (fraction inp).taken ≡ false → (fraction inp).text ≡ []
    of_fraction h = unfold fraction in ground arith

    of_exponent : (exponent inp).taken ≡ false → (exponent inp).text ≡ []
    of_exponent h = unfold exponent in ground arith

abbrev decimal_of : Bool → Bytes → Bytes → Input → Input → Scanned
decimal_of real ds text last inp =
    decimal_token real (here inp) text (accumulate u64 10 digit_val ds no_digits) last

decimal_token-HasValue :
    (real : Bool) (ds text : Bytes) (last inp : Input)
    → (real ≡ false → text ≡ ds)
    → All is_digit ds
    → (decimal_of real ds text last inp).token.kind ≡ int_lit
    → HasValue
        (decimal_of real ds text last inp)
        inp
        (denoted (decimal_of real ds text last inp).token.text)
unfolding decimal_token
decimal_token-HasValue true ds text last inp e a k = cc
decimal_token-HasValue false ds text last inp e a k =
    rw (e refl, denoted_digits ds a)
      (HasValue-of_exact 10 digit_val ds (decimal_of false ds text last inp) inp (omega arith) refl
        refl)

decimal_text :
    (f e : Piece) (ds : Bytes)
    → (f.taken ≡ false → f.text ≡ [])
    → (e.taken ≡ false → e.text ≡ [])
    → (f.taken || e.taken) ≡ false
    → ds ++ (f.text ++ e.text) ≡ ds
decimal_text f e ds hf he h = rw (hf (ground arith), he (ground arith)) (append-nil ds)

scan_decimal-HasValue :
    (inp : Input)
    → (scan_decimal inp).token.kind ≡ int_lit
    → HasValue (scan_decimal inp) inp (denoted (scan_decimal inp).token.text)
unfolding scan_decimal
scan_decimal-HasValue inp k =
    let run = span is_digit inp.rest inp in
    let f = fraction run.1 in
    let e = exponent f.input in
    decimal_token-HasValue (f.taken || e.taken) run.0 _ e.input inp
      (decimal_text f e run.0 (piece_untaken run.1).0 (piece_untaken f.input).1)
      (span-All is_digit inp.rest inp) k

scan_prefixed-denoted :
    (base : ℕ) (test : ℕ → Bool) (val : ℕ → ℕ) (inp : Input)
    → 0 < base
    → ((ds : Bytes) → denoted (peek inp.rest 0 ∷ ds) ≡ numeral base val ds 0)
    → HasValue
        (scan_prefixed base test val inp)
        inp
        (denoted (scan_prefixed base test val inp).token.text)
unfolding scan_prefixed
scan_prefixed-denoted base test val inp b h =
    let ds = (span test (get inp).1.rest (get inp).1).0 in
    rw (ap (λ (c : ℕ). denoted (c ∷ ds)) (get-peek inp) ∙ h ds)
      (scan_prefixed-HasValue base test val inp b)

denoted_prefix :
    (c : ℕ) (ds : Bytes)
    → (c == b'$' ≡ true → denoted (c ∷ ds) ≡ numeral 16 hex_val ds 0)
      × (c == b'%' ≡ true → denoted (c ∷ ds) ≡ numeral 2 digit_val ds 0)
      × (c == b'&' ≡ true → denoted (c ∷ ds) ≡ numeral 8 digit_val ds 0)
unfolding denoted
denoted_prefix c ds = (λ h. rw h refl, λ h. rw (==→eq c b'%' h) refl, λ h. rw (==→eq c b'&' h) refl)

-- An integer token has the value that its text denotes; the report that it exceeds 64 bits is
-- made exactly when that value is 2^64 or more, and no other report is made.
pub scan_number_value :
    (inp : Input)
    → (scan_number inp).token.kind ≡ int_lit
    → HasValue (scan_number inp) inp (denoted (scan_number inp).token.text)
unfolding scan_number
scan_number_value inp k = elim (Bool-cases (peek inp.rest 0 == b'$')) [
  | inl h ↦
      rw h (
        scan_prefixed-denoted 16 is_hex hex_val inp (omega arith) (λ ds. (denoted_prefix _ ds).0 h))
  | inr h ↦ elim (Bool-cases (peek inp.rest 0 == b'%')) [
    | inl l ↦
        rw (h, l)
          (scan_prefixed-denoted 2 is_binary digit_val inp (omega arith)
            (λ ds. (denoted_prefix _ ds).1 l))
    | inr l ↦ elim (Bool-cases (peek inp.rest 0 == b'&')) [
      | inl m ↦
          rw (h, l, m)
            (scan_prefixed-denoted 8 is_octal digit_val inp (omega arith)
              (λ ds. (denoted_prefix _ ds).2 m))
      | inr m ↦ rw (h, l, m) (scan_decimal-HasValue inp (rw (h, l, m) at k))
    ]
  ]
]
