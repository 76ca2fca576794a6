-- ===== src/Scan/Strings/Total.antt =====
-- `scan_string` ends: its fuel is enough. It leaves a suffix of its input, a proper one if a piece
-- of a literal starts there.
use tp2cc.Prelude.{
  Bool, Bool-cases, Bytes, List, Option, [], arith, false, if_ind, inl, inr, length, refl, some,
  suc, true, zero, ℕ, ◌++◌, ◌<◌, ◌==◌, ◌||◌, ◌∷◌, ◌≡◌, ◌≢◌,
}
use tp2cc.Text.{is_digit, is_hex}
use tp2cc.Source.{Diag, Input, Location, consume, get, here, peek}
use tp2cc.Source.Suffix.{
  Inside, Inside-Suffix, Inside-length, Inside-trans, Suffix, Suffix-length, Suffix-trans, beyond,
  get-Inside, get-Suffix, span-Suffix, whole,
}
use tp2cc.Scan.{Scanned}
use tp2cc.Scan.Digits.{Accumulator}
use tp2cc.Scan.Strings.{
  Ending, Quoted, at_end, at_newline, close_quoted, closed, escape, escape_code, pieces, quoted,
  scan_string,
}

quoted-Suffix :
    (r : Bytes) (inp : Input) (out : Bytes) → inp.rest ≡ r → Suffix (quoted r inp out).input.rest r
unfolding quoted consume
quoted-Suffix [] inp out e = rw e whole
quoted-Suffix (c ∷ []) inp out e =
    if_ind Left (c == b'\n') (λ _. rw e whole)
      (λ _. if_ind Left (c == b'\'') (λ _. beyond whole) (λ _. beyond whole))
  where
    Left : Quoted → Type 0
    Left q = Suffix q.input.rest (c ∷ [])
quoted-Suffix (c ∷ d ∷ r) inp out e =
    let behind = consume c (d ∷ r) inp in
    let doubled = quoted-Suffix r (consume d r behind) (out ++ b'\'' ∷ []) refl in
    let plain = quoted-Suffix (d ∷ r) behind (out ++ c ∷ []) refl in
    if_ind Left (c == b'\n') (λ _. rw e whole)
      (λ _.
        if_ind Left (c == b'\'')
          (λ _. if_ind Left (d == b'\'') (λ _. beyond (beyond doubled)) (λ _. beyond whole))
          (λ _. beyond plain))
  where
    Left : Quoted → Type 0
    Left q = Suffix q.input.rest (c ∷ d ∷ r)

escape_code-input :
    (loc : Location) (sum : Accumulator) (inp : Input) → (escape_code loc sum inp).input ≡ inp
unfolding escape_code
escape_code-input loc sum inp = ground arith

escape-Inside : (inp : Input) → peek inp.rest 0 ≢ 0 → Inside (escape inp).input.rest inp.rest
unfolding escape
escape-Inside inp h =
    let digits = (get inp).1 in
    elim (Bool-cases (peek digits.rest 0 == b'$')) [
      | inl k ↦
          rw (k, escape_code-input)
            (Inside-trans _ _ inp.rest
              (Suffix-trans (span-Suffix is_hex (get digits).1) (get-Suffix digits))
              (get-Inside inp h))
      | inr k ↦
          rw (k, escape_code-input)
            (Inside-trans _ _ inp.rest (span-Suffix is_digit digits) (get-Inside inp h))
    ]

-- A result that leaves a suffix of `r` unread.
abbrev pub ReadsFrom : Bytes → Option Scanned → Type 0
ReadsFrom r m = (s : Scanned) × (m ≡ some s) × Suffix s.input.rest r

ReadsFrom-Suffix : {r t : Bytes} (o : Option Scanned) → Suffix r t → ReadsFrom r o → ReadsFrom t o
ReadsFrom-Suffix o u (s, e, k) = (s, e, Suffix-trans k u)

close_quoted-ReadsFrom :
    (e : Ending) (r : Bytes) (loc : Location) (q : Quoted) (diags : List Diag)
    (more : Quoted → Option Scanned)
    → Suffix q.input.rest r
    → ReadsFrom q.input.rest (more q)
    → ReadsFrom r (close_quoted e loc q diags more)
unfolding close_quoted
close_quoted-ReadsFrom closed r loc q diags more h m = ReadsFrom-Suffix _ h m
close_quoted-ReadsFrom at_end r loc q diags more h m = (_, refl, h)
close_quoted-ReadsFrom at_newline r loc q diags more h m = (_, refl, h)

-- A result that leaves a suffix of all but the first byte.
abbrev pub ReadsInside : Bytes → Option Scanned → Type 0
ReadsInside r m = (s : Scanned) × (m ≡ some s) × Inside s.input.rest r

ReadsInside-of : (t r : Bytes) (o : Option Scanned) → Inside t r → ReadsFrom t o → ReadsInside r o
ReadsInside-of t r o i (s, e, k) = (s, e, Inside-trans _ t r k i)

abbrev pub starts_piece : Bytes → Bool
starts_piece r = peek r 0 == b'\'' || peek r 0 == b'#'

module _ (fuel : ℕ) (loc : Location)
    (ih : (i : Input) (o : Bytes) (ds : List Diag)
      → length i.rest < fuel
      → ReadsFrom i.rest (pieces fuel loc i o ds)) where
  pieces-ReadsInside :
      (inp : Input) (out : Bytes) (diags : List Diag)
      → length inp.rest < suc fuel
      → starts_piece inp.rest ≡ true
      → ReadsInside inp.rest (pieces (suc fuel) loc inp out diags)
  unfolding pieces
  pieces-ReadsInside inp out diags h p =
      let behind = (get inp).1 in
      let q = quoted behind.rest behind out in
      let e = escape inp in
      if_ind (ReadsInside inp.rest) (peek inp.rest 0 == b'\'')
        (λ quote.
          let shorter = get-Inside inp (ground arith) in
          let kept = quoted-Suffix behind.rest behind out refl in
          let fits : length q.input.rest < fuel =
            omega (arith, Inside-length _ _ shorter, Suffix-length kept) in
          ReadsInside-of behind.rest _ _ shorter (
            close_quoted-ReadsFrom q.ending behind.rest loc q diags _ kept
              (ih q.input q.out diags fits)))
        (λ other.
          if_ind (ReadsInside inp.rest) (peek inp.rest 0 == b'#')
            (λ hash.
              let shorter = escape-Inside inp (ground arith) in
              ReadsInside-of e.input.rest _ _ shorter (
                ih e.input (out ++ e.code ∷ []) (diags ++ e.diags)
                  (omega (arith, Inside-length _ _ shorter))))
            (λ none_of. absurd (ground arith)))

  pieces_stops :
      (inp : Input) (out : Bytes) (diags : List Diag)
      → starts_piece inp.rest ≡ false
      → ReadsFrom inp.rest (pieces (suc fuel) loc inp out diags)
  unfolding pieces
  pieces_stops inp out diags p =
      if_ind (ReadsFrom inp.rest) (peek inp.rest 0 == b'\'') (λ quote. absurd (ground arith))
        (λ other.
          if_ind (ReadsFrom inp.rest) (peek inp.rest 0 == b'#') (λ hash. absurd (ground arith))
            (λ _. (_, refl, whole)))

pieces-ReadsFrom :
    (fuel : ℕ) (loc : Location) (inp : Input) (out : Bytes) (diags : List Diag)
    → length inp.rest < fuel
    → ReadsFrom inp.rest (pieces fuel loc inp out diags)
pieces-ReadsFrom zero loc inp out diags h = elim h [ ]
pieces-ReadsFrom (suc fuel) loc inp out diags h =
    let ih = pieces-ReadsFrom fuel loc in
    elim (Bool-cases (starts_piece inp.rest)) [
      | inl p ↦
          let (s, e, i) = pieces-ReadsInside fuel loc ih inp out diags h p in
          (s, e, Inside-Suffix _ _ i)
      | inr n ↦ pieces_stops fuel loc ih inp out diags n
    ]

-- `scan_string` returns a token on every input, and what it leaves to read is a suffix of the
-- input.
pub scan_string-total : (inp : Input) → ReadsFrom inp.rest (scan_string inp)
unfolding scan_string
scan_string-total inp = pieces-ReadsFrom (suc (length inp.rest)) (here inp) inp [] [] (omega arith)

-- At a quote or a `#`, `scan_string` returns a token and reads at least one byte.
pub scan_string-ReadsInside :
    (inp : Input) → starts_piece inp.rest ≡ true → ReadsInside inp.rest (scan_string inp)
unfolding scan_string
scan_string-ReadsInside inp =
    let n = length inp.rest in
    pieces-ReadsInside n (here inp) (pieces-ReadsFrom n (here inp)) inp [] [] (omega arith)
