-- ===== src/Scan/Number.antt =====
-- `Lexer::scan_number`.
pub mod Whole
pub mod Value
use tp2cc.Messages.{integer_exceeds_64_bits}
use tp2cc.Prelude.{
  Bool, Bytes, List, [], false, if◌then◌else◌, not, true, within, ℕ, ◌&&◌, ◌++◌, ◌-◌, ◌==◌, ◌||◌,
  ◌∷◌,
}
use tp2cc.Text.{hex_val, is_digit, is_hex}
use tp2cc.Source.{Diag, Input, Location, get, here, peek, report_error, span}
use tp2cc.Token.{int_lit, real_lit, token}
use tp2cc.Scan.{Scanned}
use tp2cc.Scan.Digits.{Accumulator, accumulate, no_digits, u64}

unfoldable pub digit_val : ℕ → ℕ
digit_val d = d - b'0'

unfoldable pub is_binary : ℕ → Bool
is_binary d = d == b'0' || d == b'1'

unfoldable pub is_octal : ℕ → Bool
is_octal d = within b'0' b'7' d

abbrev pub overflow_report : Location → Bool → List Diag
overflow_report loc overflow =
    if overflow then report_error loc integer_exceeds_64_bits ∷ [] else []

-- One of the branches `$`, `%` and `&`, which differ in the base and in the digits.
unfoldable pub scan_prefixed : ℕ → (ℕ → Bool) → (ℕ → ℕ) → Input → Scanned
scan_prefixed base test val inp =
    let first = get inp in
    let run = span test first.1.rest first.1 in
    let sum = accumulate u64 base val run.0 no_digits in
    record {
      token = record {
        kind = int_lit;
        loc = here inp;
        text = first.0 ∷ run.0;
        int_value = sum.value;
      };
      input = run.1;
      diags = overflow_report (here inp) sum.overflow;
    }

-- An optional piece of a real literal: whether it is there, its text, and the input behind it.
pub record Piece : Type 0 where
  pub taken : Bool
  pub text : Bytes
  pub input : Input

abbrev pub no_piece : Input → Piece
no_piece inp = record { taken = false; text = []; input = inp }

-- `..` is a token of its own and no decimal point.
unfoldable pub fraction : Input → Piece
fraction inp =
    let point = get inp in
    let run = span is_digit point.1.rest point.1 in
    let piece : Piece = record { taken = true; text = point.0 ∷ run.0; input = run.1 } in
    if peek inp.rest 0 == b'.' && not (peek inp.rest 1 == b'.') then piece else no_piece inp

unfoldable pub exponent_sign : Input → Piece
exponent_sign inp =
    let sign = get inp in
    let piece : Piece = record { taken = true; text = sign.0 ∷ []; input = sign.1 } in
    if peek inp.rest 0 == b'+' || peek inp.rest 0 == b'-' then piece else no_piece inp

unfoldable pub exponent : Input → Piece
exponent inp =
    let mark = get inp in
    let sign = exponent_sign mark.1 in
    let run = span is_digit sign.input.rest sign.input in
    let piece : Piece = record {
      taken = true;
      text = mark.0 ∷ (sign.text ++ run.0);
      input = run.1;
    } in
    if peek inp.rest 0 == b'e' || peek inp.rest 0 == b'E' then piece else no_piece inp

-- The two returns at the end: a real literal, or an integer with its value.
unfoldable pub decimal_token : Bool → Location → Bytes → Accumulator → Input → Scanned
decimal_token true loc text sum inp = record {
  token = token real_lit loc text;
  input = inp;
  diags = [];
}
decimal_token false loc text sum inp = record {
  token = record { kind = int_lit; loc = loc; text = text; int_value = sum.value };
  input = inp;
  diags = overflow_report loc sum.overflow;
}

unfoldable pub scan_decimal : Input → Scanned
scan_decimal inp =
    let run = span is_digit inp.rest inp in
    let f = fraction run.1 in
    let e = exponent f.input in
    decimal_token (f.taken || e.taken) (here inp) (run.0 ++ (f.text ++ e.text))
      (accumulate u64 10 digit_val run.0 no_digits) e.input

unfoldable pub scan_number : Input → Scanned
scan_number inp =
    if peek inp.rest 0 == b'$'
    then scan_prefixed 16 is_hex hex_val inp
    else if peek inp.rest 0 == b'%'
    then scan_prefixed 2 is_binary digit_val inp
    else if peek inp.rest 0 == b'&'
    then scan_prefixed 8 is_octal digit_val inp
    else scan_decimal inp
