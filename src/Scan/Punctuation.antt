-- ===== src/Scan/Punctuation.antt =====
-- `Lexer::scan_punctuation`.
pub mod Munch
use tp2cc.Messages.{unexpected_character}
use tp2cc.Prelude.{Bool, Option, [], false, if◌then◌else◌, none, some, true, ℕ, ◌==◌, ◌∷◌}
use tp2cc.Source.{Input, Location, get, here, peek, report_error}
use tp2cc.Token.{
  Tok, assign, at_at, at_sign, caret, colon, comma, dot, dot_dot, eq, error, gt, gt_eq, kw_shl,
  kw_shr, lbrack, lparen, lt, lt_eq, minus, not_eq, plus, rbrack, rparen, semi, slash, star,
  star_star, sym_diff, token,
}
use tp2cc.Scan.{Scanned}

-- The `switch` on the first byte `c`, with the byte `d` behind it (0 at the end): the kind and
-- whether `d` belongs to the token. `none` is the default case.
unfoldable pub punctuation : ℕ → ℕ → Option (Tok × Bool)
punctuation c d =
    if c == b'+'
    then some (plus, false)
    else if c == b'-'
    then some (minus, false)
    else if c == b'*'
    then some (if d == b'*' then (star_star, true) else (star, false))
    else if c == b'/'
    then some (slash, false)
    else if c == b'='
    then some (eq, false)
    else if c == b'<'
    then some (
        if d == b'='
        then (lt_eq, true)
        else if d == b'>'
        then (not_eq, true)
        else if d == b'<'
        then (kw_shl, true)
        else (lt, false))
    else if c == b'>'
    then some (
        if d == b'='
        then (gt_eq, true)
        else if d == b'<'
        then (sym_diff, true)
        else if d == b'>'
        then (kw_shr, true)
        else (gt, false))
    else if c == b':'
    then some (if d == b'=' then (assign, true) else (colon, false))
    else if c == b';'
    then some (semi, false)
    else if c == b','
    then some (comma, false)
    else if c == b'('
    then some (lparen, false)
    else if c == b')'
    then some (rparen, false)
    else if c == b'['
    then some (lbrack, false)
    else if c == b']'
    then some (rbrack, false)
    else if c == b'^'
    then some (caret, false)
    else if c == b'@'
    then some (if d == b'@' then (at_at, true) else (at_sign, false))
    else if c == b'.'
    then some (if d == b'.' then (dot_dot, true) else (dot, false))
    else none

unfoldable pub punctuation_token : Location → ℕ → Input → Option (Tok × Bool) → Scanned
punctuation_token loc c behind (some (kind, true)) =
    let second = get behind in
    record { token = token kind loc (c ∷ second.0 ∷ []); input = second.1; diags = [] }
punctuation_token loc c behind (some (kind, false)) = record {
  token = token kind loc (c ∷ []);
  input = behind;
  diags = [];
}
punctuation_token loc c behind none = record {
  token = token error loc (c ∷ []);
  input = behind;
  diags = report_error loc (unexpected_character c) ∷ [];
}

unfoldable pub scan_punctuation : Input → Scanned
scan_punctuation inp =
    let first = get inp in
    punctuation_token (here inp) first.0 first.1 (punctuation first.0 (peek first.1.rest 0))
