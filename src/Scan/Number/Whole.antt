-- ===== src/Scan/Number/Whole.antt =====
-- The text of a numeric token is what was read.
use tp2cc.Scan.Digits.{Accumulator}
use tp2cc.Text.{hex_val, is_digit, is_hex}
use tp2cc.Prelude.{
  Bool, Bool-cases, Bytes, [], ap, append_assoc, arith, false, inl, inr, not, refl, true, ℕ, ◌&&◌,
  ◌++◌, ◌==◌, ◌||◌, ◌∙◌, ◌∷◌, ◌≡◌, ◌≢◌,
}
use tp2cc.Source.{Input, Location, get, peek, span}
use tp2cc.Source.Span.{span-append}
use tp2cc.Scan.{Scanned}
use tp2cc.Scan.Number.{
  Piece, decimal_token, digit_val, exponent, exponent_sign, fraction, is_binary, is_octal,
  scan_decimal, scan_number, scan_prefixed,
}

pub get-append : (inp : Input) → peek inp.rest 0 ≢ 0 → (get inp).0 ∷ (get inp).1.rest ≡ inp.rest
unfolding get peek
get-append inp = go inp.rest
  where
    go :
        (r : Bytes)
        → peek r 0 ≢ 0
        → (get (record inp { rest = r })).0 ∷ (get (record inp { rest = r })).1.rest ≡ r
    go [] h = absurd (h refl)
    go (c ∷ r) h = refl

abbrev pub Whole : Scanned → Input → Type 0
Whole s inp = s.token.text ++ s.input.rest ≡ inp.rest

pub scan_prefixed-Whole :
    (base : ℕ) (test : ℕ → Bool) (val : ℕ → ℕ) (inp : Input)
    → peek inp.rest 0 ≢ 0
    → Whole (scan_prefixed base test val inp) inp
unfolding scan_prefixed
scan_prefixed-Whole base test val inp h =
    let first = get inp in
    ap (◌∷◌ first.0) (span-append test first.1.rest first.1 refl) ∙ get-append inp h

abbrev pub PieceWhole : Piece → Input → Type 0
PieceWhole p inp = p.text ++ p.input.rest ≡ inp.rest

pub exponent_sign-PieceWhole : (inp : Input) → PieceWhole (exponent_sign inp) inp
unfolding exponent_sign
exponent_sign-PieceWhole inp =
    elim (Bool-cases (peek inp.rest 0 == b'+' || peek inp.rest 0 == b'-')) [
      | inl h ↦ rw h (get-append inp (ground arith))
      | inr h ↦ rw h refl
    ]

pub fraction-PieceWhole : (inp : Input) → PieceWhole (fraction inp) inp
unfolding fraction
fraction-PieceWhole inp =
    elim (Bool-cases (peek inp.rest 0 == b'.' && not (peek inp.rest 1 == b'.'))) [
      | inl h ↦ rw h (
          ap (◌∷◌ (get inp).0) (span-append is_digit (get inp).1.rest (get inp).1 refl)
          ∙ get-append inp (ground arith))
      | inr h ↦ rw h refl
    ]

pub exponent-PieceWhole : (inp : Input) → PieceWhole (exponent inp) inp
unfolding exponent
exponent-PieceWhole inp =
    let sign = exponent_sign (get inp).1 in
    elim (Bool-cases (peek inp.rest 0 == b'e' || peek inp.rest 0 == b'E')) [
      | inl h ↦ rw h (
          ap (◌∷◌ (get inp).0) (
            append_assoc sign.text _ _
            ∙ ap (◌++◌ sign.text) (span-append is_digit sign.input.rest sign.input refl)
            ∙ exponent_sign-PieceWhole (get inp).1)
          ∙ get-append inp (ground arith))
      | inr h ↦ rw h refl
    ]

pub decimal_token-Whole :
    (real : Bool) (loc : Location) (text : Bytes) (sum : Accumulator) (last inp : Input)
    → text ++ last.rest ≡ inp.rest
    → Whole (decimal_token real loc text sum last) inp
unfolding decimal_token
decimal_token-Whole true loc text sum last inp h = h
decimal_token-Whole false loc text sum last inp h = h

pub scan_decimal-Whole : (inp : Input) → Whole (scan_decimal inp) inp
unfolding scan_decimal
scan_decimal-Whole inp =
    let run = span is_digit inp.rest inp in
    let f = fraction run.1 in
    let e = exponent f.input in
    decimal_token-Whole (f.taken || e.taken) _ _ _ e.input inp (
      append_assoc run.0 _ _
      ∙ ap (◌++◌ run.0) (
          append_assoc f.text _ _
          ∙ ap (◌++◌ f.text) (exponent-PieceWhole f.input)
          ∙ fraction-PieceWhole run.1)
      ∙ span-append is_digit inp.rest inp refl)

-- A numeric token is a piece of the source: its text and what is left make up the input.
pub scan_number-append :
    (inp : Input) → (scan_number inp).token.text ++ (scan_number inp).input.rest ≡ inp.rest
unfolding scan_number
scan_number-append inp = elim (Bool-cases (peek inp.rest 0 == b'$')) [
  | inl h ↦ rw h (scan_prefixed-Whole 16 is_hex hex_val inp (ground arith))
  | inr h ↦ elim (Bool-cases (peek inp.rest 0 == b'%')) [
    | inl k ↦ rw (h, k) (scan_prefixed-Whole 2 is_binary digit_val inp (ground arith))
    | inr k ↦ elim (Bool-cases (peek inp.rest 0 == b'&')) [
      | inl l ↦ rw (h, k, l) (scan_prefixed-Whole 8 is_octal digit_val inp (ground arith))
      | inr l ↦ rw (h, k, l) (scan_decimal-Whole inp)
    ]
  ]
]
