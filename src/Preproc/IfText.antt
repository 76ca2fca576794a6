-- ===== src/Preproc/IfText.antt =====
-- What `struct IfExprParser` reads from the text: characters, words, integers, identifiers and the
-- values of symbols.
pub mod Progress
use tp2cc.Messages.{IfError, no_reason}
use tp2cc.Prelude.{
  Bool, Bytes, Option, [], codes, false, if◌then◌else◌, is_empty, none, some, true, ℕ, ◌%◌, ◌&&◌,
  ◌*◌, ◌+◌, ◌-◌, ◌==◌, ◌^◌, ◌||◌, ◌∷◌,
}
use tp2cc.Text.{is_alnum, is_digit, lower, lower_char, skip_blanks}

-- `IfExprParser::Value`
pub data Value : Type 0 where
  bool_value : Bool → Value
  int_value : ℕ → Value

-- The field `b`, which is false in an integer.
abbrev pub truth : Value → Bool
truth (bool_value b) = b
truth (int_value i) = false

-- `kind == Value::Kind::Bool`
abbrev pub is_bool : Value → Bool
is_bool (bool_value b) = true
is_bool (int_value i) = false

-- The parser's fields that change.
pub record Parse : Type 0 where
  pub rest : Bytes
  pub ok : Bool
  pub error : IfError

abbrev pub first_error : IfError → IfError → IfError
first_error no_reason e = e
first_error old e = old

unfoldable pub fail : IfError → Parse → Parse
fail e s = record s { ok = false; error = first_error s.error e }

abbrev pub move : Bytes → Parse → Parse
move r s = record s { rest = r }

-- The longest prefix that passes the test, and what follows it.
unfoldable pub take_while : (ℕ → Bool) → Bytes → Bytes × Bytes
take_while test [] = ([], [])
take_while test (c ∷ s) =
    let more = take_while test s in if test c then (c ∷ more.0, more.1) else ([], c ∷ s)

unfoldable pub is_word : ℕ → Bool
is_word c = is_alnum c || c == b'_'

unfoldable pub match_char_in : ℕ → Bytes → Bool × Bytes
match_char_in c [] = (false, [])
match_char_in c (d ∷ s) = if d == c then (true, s) else (false, d ∷ s)

unfoldable pub match_char : ℕ → Bytes → Bool × Bytes
match_char c s = match_char_in c (skip_blanks s)

-- The comparison with the lowercase word `w`, and the word boundary behind it.
unfoldable pub word_at : Bytes → Bytes → Option Bytes
word_at [] [] = some []
word_at [] (c ∷ s) = if is_word c then none else some (c ∷ s)
word_at (w ∷ ws) [] = none
word_at (w ∷ ws) (c ∷ s) = if lower_char c == w then word_at ws s else none

unfoldable pub matched : Bytes → Option Bytes → Bool × Bytes
matched s none = (false, s)
matched s (some behind) = (true, behind)

unfoldable pub match_word : Bytes → Bytes → Bool × Bytes
match_word w s = matched (skip_blanks s) (word_at w (skip_blanks s))

abbrev pub i64 : ℕ
i64 = 2 ^ 64

-- `value = value * 10 + (src[pos] - '0')`
unfoldable pub int_digits : Bytes → ℕ → ℕ
int_digits [] value = value
int_digits (d ∷ ds) value = int_digits ds ((value * 10 + (d - b'0')) % i64)

unfoldable pub negate : ℕ → ℕ
negate v = (i64 - v) % i64

-- `read_int` on a source with no blank in front: the sign is read already.
unfoldable pub int_behind_sign : Bool → Bytes → Bytes → Option ℕ × Bytes
int_behind_sign negative start s =
    let run = take_while is_digit s in
    let value = int_digits run.0 0 in
    if is_empty run.0
    then (none, start)
    else (some (if negative then negate value else value), run.1)

unfoldable pub int_at : Bytes → Option ℕ × Bytes
int_at [] = (none, [])
int_at (c ∷ s) =
    if c == b'-'
    then int_behind_sign true (c ∷ s) s
    else if c == b'+'
    then int_behind_sign false (c ∷ s) s
    else int_behind_sign false (c ∷ s) (c ∷ s)

unfoldable pub read_int : Bytes → Option ℕ × Bytes
read_int s = int_at (skip_blanks s)

unfoldable pub read_ident : Bytes → Bytes × Bytes
read_ident s = let run = take_while is_word (skip_blanks s) in (lower run.0, run.1)

unfoldable pub at_eof : Bytes → Bool
at_eof s = is_empty (skip_blanks s)

unfoldable pub macro_int : Option ℕ × Bytes → Option Value
macro_int (none, s) = none
macro_int (some v, s) = if at_eof s then some (int_value v) else none

-- Each test goes on where the one before it stopped, also if that one read its word.
unfoldable pub parse_macro_value : Bytes → Option Value
parse_macro_value text =
    let t = match_word (codes "true") text in
    let f = match_word (codes "false") t.1 in
    if t.0 && at_eof t.1
    then some (bool_value true)
    else if f.0 && at_eof f.1
    then some (bool_value false)
    else macro_int (read_int f.1)
