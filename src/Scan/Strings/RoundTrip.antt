-- ===== src/Scan/Strings/RoundTrip.antt =====
-- Every byte string can be written as a literal, and `scan_string` reads it back.
use tp2cc.Prelude.{
  ==→eq, Bool-cases, Bytes, Option, [], append-nil, append_assoc, arith, false, if◌then◌else◌, inl,
  inr, length, refl, some, suc, ℕ, ◌++◌, ◌+◌, ◌-◌, ◌==◌, ◌∙◌, ◌∷◌, ◌≡◌, ◌≤◌,
}
use tp2cc.Text.{is_digit}
use tp2cc.Source.{Input, Location, consume, get, here, peek, span}
use tp2cc.Scan.{Scanned}
use tp2cc.Scan.Digits.{accumulate}
use tp2cc.Scan.Number.{digit_val}
use tp2cc.Scan.Strings.{
  close_quoted, closed, escape, escape_code, pieces, quoted, scan_string, string_token,
}

-- One byte inside quotes: quotes are doubled, and a line end leaves the quotes for `#10`.
abbrev pub quote_byte : ℕ → Bytes → Bytes
quote_byte c rest =
    if c == b'\n'
    then b'\'' ∷ b'#' ∷ b'1' ∷ b'0' ∷ b'\'' ∷ rest
    else if c == b'\''
    then b'\'' ∷ b'\'' ∷ rest
    else c ∷ rest

-- The rest of a literal behind its opening quote, with `rest` behind the literal.
unfoldable pub quote_onto : Bytes → Bytes → Bytes
quote_onto [] rest = b'\'' ∷ rest
quote_onto (c ∷ s) rest = quote_byte c (quote_onto s rest)

-- No piece of a literal starts here.
abbrev pub NoPiece : Bytes → Type 0
NoPiece rest = ((peek rest 0 == b'\'') ≡ false) × ((peek rest 0 == b'#') ≡ false)

-- The scanner answers with the string `out`, no report, and `rest` left to read.
abbrev pub Reads : Location → Bytes → Bytes → Option Scanned → Type 0
Reads loc out rest m =
    (last : Input) × (m ≡ some (string_token loc out last [])) × (last.rest ≡ rest)

quoted_plain :
    (c : ℕ) (t : Bytes) (inp : Input) (out : Bytes)
    → (c == b'\n') ≡ false
    → (c == b'\'') ≡ false
    → quoted (c ∷ t) inp out ≡ quoted t (consume c t inp) (out ++ c ∷ [])
unfolding quoted
quoted_plain c [] inp out h k = rw (h, k) refl
quoted_plain c (d ∷ t) inp out h k = rw (h, k) refl

quoted-closed :
    (t : Bytes) (inp : Input) (out : Bytes)
    → (peek t 0 == b'\'') ≡ false
    → quoted (b'\'' ∷ t) inp out
      ≡ record { ending = closed; out = out; input = consume b'\'' t inp }
unfolding quoted peek
quoted-closed [] inp out h = refl
quoted-closed (d ∷ t) inp out h = rw h refl

-- The state of the scanner inside quotes, with `t` to read.
abbrev inside : ℕ → Location → Bytes → Input → Bytes → Option Scanned
inside fuel loc t inp out =
    let q = quoted t inp out in
    close_quoted q.ending loc q [] (λ p. pieces fuel loc p.input p.out [])

pieces_quote :
    (fuel : ℕ) (loc : Location) (t : Bytes) (inp : Input) (out : Bytes)
    → inp.rest ≡ b'\'' ∷ t
    → pieces (suc fuel) loc inp out [] ≡ inside fuel loc t (consume b'\'' t inp) out
unfolding pieces get peek
pieces_quote fuel loc t inp out e = rw e refl

pieces_newline :
    (fuel : ℕ) (loc : Location) (t : Bytes) (inp : Input) (out : Bytes)
    → inp.rest ≡ b'#' ∷ b'1' ∷ b'0' ∷ b'\'' ∷ t
    → (next : Input) × (pieces (suc fuel) loc inp out []
        ≡ pieces fuel loc next (out ++ b'\n' ∷ []) [])
      × (next.rest ≡ b'\'' ∷ t)
unfolding pieces get peek escape escape_code span accumulate is_digit digit_val
pieces_newline fuel loc t inp out e = ((escape inp).input, rw e refl, rw e refl)

pieces_done :
    (fuel : ℕ) (loc : Location) (inp : Input) (out : Bytes)
    → NoPiece inp.rest
    → Reads loc out inp.rest (pieces (suc fuel) loc inp out [])
unfolding pieces
pieces_done fuel loc inp out (h, k) = rw (h, k) (inp, refl, refl)

inside_done :
    (fuel : ℕ) (loc : Location) (inp : Input) (out rest : Bytes)
    → NoPiece rest
    → Reads loc out rest (inside (suc fuel) loc (b'\'' ∷ rest) inp out)
unfolding close_quoted consume
inside_done fuel loc inp out rest n =
    rw (quoted-closed rest inp out n.0) (pieces_done fuel loc (consume b'\'' rest inp) out n)

inside_newline :
    (fuel : ℕ) (loc : Location) (t : Bytes) (inp : Input) (out : Bytes)
    → (next : Input) × (inside (suc (suc fuel)) loc (b'\'' ∷ b'#' ∷ b'1' ∷ b'0' ∷ b'\'' ∷ t) inp out
        ≡ inside fuel loc t next (out ++ b'\n' ∷ []))
unfolding close_quoted consume peek
inside_newline fuel loc t inp out =
    let code = b'#' ∷ b'1' ∷ b'0' ∷ b'\'' ∷ t in
    let (next, step, left) = pieces_newline (suc fuel) loc t (consume b'\'' code inp) out refl in
    (
      consume b'\'' t next,
      rw (quoted-closed code inp out refl)
          (step ∙ pieces_quote fuel loc t next (out ++ b'\n' ∷ []) left),
    )

inside_doubled :
    (fuel : ℕ) (loc : Location) (t : Bytes) (inp : Input) (out : Bytes)
    → (next : Input) × (inside fuel loc (b'\'' ∷ b'\'' ∷ t) inp out
        ≡ inside fuel loc t next (out ++ b'\'' ∷ []))
unfolding quoted
inside_doubled fuel loc t inp out = (consume b'\'' t (consume b'\'' (b'\'' ∷ t) inp), refl)

inside-quote_onto :
    (s : Bytes) (fuel : ℕ) (loc : Location) (inp : Input) (out rest : Bytes)
    → NoPiece rest
    → length (quote_onto s rest) ≤ fuel
    → Reads loc (out ++ s) rest (inside fuel loc (quote_onto s rest) inp out)
unfolding quote_onto
inside-quote_onto [] fuel loc inp out rest n f =
    let positive : fuel ≡ suc (fuel - 1) = omega arith in
    rw (append-nil, positive) (inside_done (fuel - 1) loc inp out rest n)
inside-quote_onto (c ∷ s) fuel loc inp out rest n f = elim (Bool-cases (c == b'\n')) [
  | inl newline ↦
      let is_newline = ==→eq c b'\n' newline in
      let enough : 5 + length (quote_onto s rest) ≤ fuel = ground arith in
      let two : fuel ≡ suc (suc (fuel - 2)) = omega arith in
      let (next, step) = inside_newline (fuel - 2) loc (quote_onto s rest) inp out in
      rw (is_newline, two, step, ← append_assoc out (b'\n' ∷ []) s)
        (inside-quote_onto s (fuel - 2) loc next (out ++ b'\n' ∷ []) rest n (omega arith))
  | inr other ↦ elim (Bool-cases (c == b'\'')) [
    | inl quote ↦
        let is_quote = ==→eq c b'\'' quote in
        let (next, step) = inside_doubled fuel loc (quote_onto s rest) inp out in
        rw (is_quote, step, ← append_assoc out (b'\'' ∷ []) s)
          (inside-quote_onto s fuel loc next (out ++ b'\'' ∷ []) rest n (ground arith))
    | inr plain ↦
        rw
          (
            other,
            plain,
            quoted_plain c (quote_onto s rest) inp out other plain,
            ← append_assoc out (c ∷ []) s,
          )
          (inside-quote_onto s fuel loc _ (out ++ c ∷ []) rest n (ground arith))
  ]
]

-- A literal written with doubled quotes, and `#10` for a line end, is read back as the string that
-- it was written for, whatever its bytes are, if no further piece follows the literal. There is no
-- report, and the input behind the token is what follows the literal.
pub scan_string-quote_onto :
    (s rest : Bytes) (inp : Input)
    → NoPiece rest
    → inp.rest ≡ b'\'' ∷ quote_onto s rest
    → Reads (here inp) s rest (scan_string inp)
unfolding scan_string
scan_string-quote_onto s rest inp n e =
    rw (pieces_quote (length inp.rest) (here inp) (quote_onto s rest) inp [] e)
      (inside-quote_onto s (length inp.rest) (here inp) _ [] rest n (rw e (omega arith)))
