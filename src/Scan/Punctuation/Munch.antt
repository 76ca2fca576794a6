-- ===== src/Scan/Punctuation/Munch.antt =====
-- The operators, and that the scanner takes the longest one.
use tp2cc.Scan.Number.Whole.{get-append}
use tp2cc.Scan.Number.Value.{get-peek, get-peek_second}
use tp2cc.Source.{Input, Location, get, here, peek}
use tp2cc.Prelude.{
  ==→eq, Bool, Bool-cases, Bytes, List, Option, [], ap, arith, codes, false, inl, inr, none, refl,
  same, some, true, ℕ, ◌++◌, ◌==◌, ◌∙◌, ◌∷◌, ◌≡◌, ◌≢◌,
}
use tp2cc.Token.{
  Tok, assign, at_at, at_sign, caret, colon, comma, dot, dot_dot, eq, find_keyword, gt, gt_eq,
  kw_shl, kw_shr, lbrack, lparen, lt, lt_eq, minus, not_eq, plus, rbrack, rparen, semi, slash, star,
  star_star, sym_diff,
}
use tp2cc.Scan.Punctuation.{punctuation, punctuation_token, scan_punctuation}

-- Pascal's operators and separators.
unfoldable pub operator_table : List (Bytes × Tok)
operator_table =
    (codes "**", star_star)
    ∷ (codes "<=", lt_eq)
    ∷ (codes "<>", not_eq)
    ∷ (codes "<<", kw_shl)
    ∷ (codes ">=", gt_eq)
    ∷ (codes "><", sym_diff)
    ∷ (codes ">>", kw_shr)
    ∷ (codes ":=", assign)
    ∷ (codes "@@", at_at)
    ∷ (codes "..", dot_dot)
    ∷ (codes "+", plus)
    ∷ (codes "-", minus)
    ∷ (codes "*", star)
    ∷ (codes "/", slash)
    ∷ (codes "=", eq)
    ∷ (codes "<", lt)
    ∷ (codes ">", gt)
    ∷ (codes ":", colon)
    ∷ (codes ";", semi)
    ∷ (codes ",", comma)
    ∷ (codes "(", lparen)
    ∷ (codes ")", rparen)
    ∷ (codes "[", lbrack)
    ∷ (codes "]", rbrack)
    ∷ (codes "^", caret)
    ∷ (codes "@", at_sign)
    ∷ (codes ".", dot)
    ∷ []

-- The longest operator that `c` and `d` start with.
abbrev pub longest : Option Tok → Option Tok → Option (Tok × Bool)
longest (some kind) single = some (kind, true)
longest none (some kind) = some (kind, false)
longest none none = none

-- To split on the value of a byte among a few.
abbrev Each : (ℕ → Type 0) → Bytes → Type 0
Each P [] = Unit
Each P (k ∷ ks) = P k × Each P ks

abbrev Avoids : ℕ → Bytes → Type 0
Avoids c [] = Unit
Avoids c (k ∷ ks) = ((c == k) ≡ false) × Avoids c ks

one_of : (P : ℕ → Type 0) (c : ℕ) (ks : Bytes) → Each P ks → (Avoids c ks → P c) → P c
one_of P c [] each other = other tt
one_of P c (k ∷ ks) each other = elim (Bool-cases (c == k)) [
  | inl h ↦ rw (==→eq c k h) each.0
  | inr h ↦ one_of P c ks each.1 (λ n. other (h, n))
]

-- The bytes that an operator may start with.
abbrev first_bytes : Bytes
first_bytes = codes "+-*/=<>:;,()[]^@."

abbrev TakesLongest : ℕ → ℕ → Type 0
TakesLongest d c =
    punctuation c d
    ≡ longest (find_keyword (c ∷ d ∷ []) operator_table) (find_keyword (c ∷ []) operator_table)

punctuation_known : (d : ℕ) → Each (TakesLongest d) first_bytes
unfolding punctuation operator_table find_keyword same
punctuation_known d = ground arith

punctuation_other : (c d : ℕ) → Avoids c first_bytes → TakesLongest d c
unfolding punctuation operator_table find_keyword same
punctuation_other c d n = ground arith

abbrev is_double : Option (Tok × Bool) → Bool
is_double (some (kind, double)) = double
is_double none = false

SingleAtEnd : ℕ → Type 0
SingleAtEnd c = is_double (punctuation c 0) ≡ false

-- Behind the last byte of the input no operator has a second one.
punctuation_at_end : (c : ℕ) → SingleAtEnd c
unfolding punctuation SingleAtEnd
punctuation_at_end c = one_of SingleAtEnd c first_bytes (ground arith) (λ n. ground arith)

single : (c d : ℕ) → is_double (punctuation c d) ≡ true → d ≢ 0
unfolding SingleAtEnd
single c d double nul =
    let end : is_double (punctuation c 0) ≡ true = rw nul at double in cc (punctuation_at_end c)

punctuation_token-append :
    (loc : Location) (c : ℕ) (behind : Input) (o : Option (Tok × Bool))
    → (is_double o ≡ true → peek behind.rest 0 ≢ 0)
    → (punctuation_token loc c behind o).token.text ++ (punctuation_token loc c behind o).input.rest
      ≡ c ∷ behind.rest
unfolding punctuation_token
punctuation_token-append loc c behind (some (kind, true)) h =
    ap (◌∷◌ c) (get-append behind (h refl))
punctuation_token-append loc c behind (some (kind, false)) h = refl
punctuation_token-append loc c behind none h = refl

punctuation-longest :
    (c d : ℕ)
    → punctuation c d
      ≡ longest (find_keyword (c ∷ d ∷ []) operator_table) (find_keyword (c ∷ []) operator_table)
punctuation-longest c d =
    one_of (TakesLongest d) c first_bytes (punctuation_known d) (punctuation_other c d)

-- Behind a first byte that is no NUL: the token is the longest operator that the input starts with,
-- or an error token of one byte with its report if there is none; the text and what is left to read
-- make up the input.
pub scan_punctuation-longest :
    (inp : Input)
    → peek inp.rest 0 ≢ 0
    → ((scan_punctuation inp).token.text ++ (scan_punctuation inp).input.rest ≡ inp.rest)
      × (scan_punctuation inp
          ≡ punctuation_token (here inp) (peek inp.rest 0) (get inp).1 (
              longest
                (find_keyword (peek inp.rest 0 ∷ peek inp.rest 1 ∷ []) operator_table)
                (find_keyword (peek inp.rest 0 ∷ []) operator_table)))
unfolding scan_punctuation
scan_punctuation-longest inp h =
    let first = get inp in
    let behind = peek first.1.rest 0 in
    (
      punctuation_token-append (here inp) first.0 first.1 (punctuation first.0 behind)
            (single first.0 behind)
          ∙ get-append inp h,
      rw (punctuation-longest first.0 behind, get-peek inp, get-peek_second inp) refl,
    )
