-- ===== src/Scan/Strings.antt =====
-- `Lexer::scan_string`: pieces in quotes and `#NN` character codes, one behind the other.
pub mod Total
pub mod RoundTrip
use tp2cc.Messages.{char_escape_out_of_range, newline_in_string, unterminated_string}
use tp2cc.Prelude.{
  Bytes, List, Option, [], if◌then◌else◌, length, ltb, none, some, suc, zero, ℕ, ◌++◌, ◌==◌, ◌||◌,
  ◌∷◌,
}
use tp2cc.Text.{hex_val, is_digit, is_hex}
use tp2cc.Source.{Diag, Input, Location, consume, get, here, peek, report_error, span}
use tp2cc.Token.{string_lit, token}
use tp2cc.Scan.{Scanned}
use tp2cc.Scan.Digits.{Accumulator, accumulate, no_digits, u32}
use tp2cc.Scan.Number.{digit_val}

-- How the loop over one quoted piece ends.
pub data Ending : Type 0 where
  closed at_end at_newline : Ending

pub record Quoted : Type 0 where
  pub ending : Ending
  pub out : Bytes
  pub input : Input

-- The loop behind an opening quote; a doubled quote stands for one.
unfoldable pub quoted : Bytes → Input → Bytes → Quoted
quoted [] inp out = record { ending = at_end; out = out; input = inp }
quoted (c ∷ []) inp out =
    if c == b'\n'
    then record { ending = at_newline; out = out; input = inp }
    else if c == b'\''
    then record { ending = closed; out = out; input = consume c [] inp }
    else record { ending = at_end; out = out ++ c ∷ []; input = consume c [] inp }
quoted (c ∷ d ∷ r) inp out =
    let behind = consume c (d ∷ r) inp in
    let doubled = quoted r (consume d r behind) (out ++ b'\'' ∷ []) in
    let plain = quoted (d ∷ r) behind (out ++ c ∷ []) in
    let quote : Quoted =
      if d == b'\'' then doubled else record { ending = closed; out = out; input = behind } in
    if c == b'\n'
    then record { ending = at_newline; out = out; input = inp }
    else if c == b'\''
    then quote
    else plain

pub record Escape : Type 0 where
  pub code : ℕ
  pub input : Input
  pub diags : List Diag

-- The number behind `#`, from the accumulated digits: out of range it becomes 0.
unfoldable pub escape_code : Location → Accumulator → Input → Escape
escape_code loc sum inp =
    if sum.overflow || ltb 0xff sum.value
    then record { code = 0; input = inp; diags = report_error loc char_escape_out_of_range ∷ [] }
    else record { code = sum.value; input = inp; diags = [] }

-- `inp` stands at `#`.
unfoldable pub escape : Input → Escape
escape inp =
    let digits = (get inp).1 in
    let hex = (get digits).1 in
    let hex_run = span is_hex hex.rest hex in
    let run = span is_digit digits.rest digits in
    if peek digits.rest 0 == b'$'
    then escape_code (here inp) (accumulate u32 16 hex_val hex_run.0 no_digits) hex_run.1
    else escape_code (here inp) (accumulate u32 10 digit_val run.0 no_digits) run.1

abbrev pub string_token : Location → Bytes → Input → List Diag → Scanned
string_token loc out inp diags = record {
  token = token string_lit loc out;
  input = inp;
  diags = diags;
}

-- What follows a quoted piece: the next piece, or an early return with a report.
unfoldable pub close_quoted :
    Ending → Location → Quoted → List Diag → (Quoted → Option Scanned) → Option Scanned
close_quoted closed loc q diags more = more q
close_quoted at_end loc q diags more =
    some (string_token loc q.out q.input (diags ++ report_error loc unterminated_string ∷ []))
close_quoted at_newline loc q diags more =
    some (string_token loc q.out q.input (diags ++ report_error loc newline_in_string ∷ []))

-- The outer loop. `none` means that the fuel ran out.
unfoldable pub pieces : ℕ → Location → Input → Bytes → List Diag → Option Scanned
pieces zero loc inp out diags = none
pieces (suc fuel) loc inp out diags =
    let behind = (get inp).1 in
    let q = quoted behind.rest behind out in
    let from_quote = close_quoted q.ending loc q diags (λ p. pieces fuel loc p.input p.out diags) in
    let e = escape inp in
    let from_escape = pieces fuel loc e.input (out ++ e.code ∷ []) (diags ++ e.diags) in
    if peek inp.rest 0 == b'\''
    then from_quote
    else if peek inp.rest 0 == b'#'
    then from_escape
    else some (string_token loc out inp diags)

-- Each round reads a byte at least, so that this fuel is enough.
unfoldable pub scan_string : Input → Option Scanned
scan_string inp = pieces (suc (length inp.rest)) (here inp) inp [] []
