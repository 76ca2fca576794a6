-- ===== src/Next.antt =====
-- `Lexer::skip_ws_and_comments` and `Lexer::next`, over the whole input stack. A source file may
-- include itself for ever, so the two loops take fuel; `none` means that it ran out.
pub mod Blanks
pub mod Weight
pub mod Skip
pub mod Total
use tp2cc.Prelude.{
  Bool, Bytes, List, Option, [], if◌then◌else◌, is_empty, ltb, none, not, some, suc, zero, ℕ, ◌&&◌,
  ◌++◌, ◌==◌, ◌||◌, ◌∷◌,
}
use tp2cc.Text.{is_digit, is_ident_start, is_space}
use tp2cc.Source.{Input, consume, get, here, peek, span}
use tp2cc.Token.{Token, eof, token}
use tp2cc.Scan.{Scanned}
use tp2cc.Scan.Number.{scan_number}
use tp2cc.Scan.Strings.{closed, scan_string}
use tp2cc.Scan.Word.{scan_identifier_or_keyword}
use tp2cc.Scan.Punctuation.{scan_punctuation}
use tp2cc.Preproc.State.{Lexer, accepting}
use tp2cc.Preproc.Include.{Files}
use tp2cc.Preproc.Directive.{handle_directive}

abbrev pub set_input : Input → Lexer → Lexer
set_input inp lx = record lx { input = inp }

unfoldable pub pop_from : List Input → Lexer → Option Lexer
pop_from [] lx = none
pop_from (i ∷ is) lx = some (record lx { input = i; below = is })

-- `pop_input_if_eof()`: the lexer with the input popped, if there is one to pop.
unfoldable pub pop_input_if_eof : Lexer → Option Lexer
pop_input_if_eof lx = if is_empty lx.input.rest then pop_from lx.below lx else none

-- The body of a brace directive: up to `}`, which is read too.
unfoldable pub until_brace : Bytes → Input → Bytes × Input
until_brace [] inp = ([], inp)
until_brace (c ∷ r) inp =
    let more = until_brace r (consume c r inp) in
    if c == b'}' then ([], consume c r inp) else (c ∷ more.0, more.1)

-- The body of a `(*` directive or comment: up to `*)`, which is read too.
unfoldable pub until_star_paren : Bytes → Input → Bytes × Input
until_star_paren [] inp = ([], inp)
until_star_paren (c ∷ []) inp = (c ∷ [], consume c [] inp)
until_star_paren (c ∷ d ∷ r) inp =
    let behind = consume c (d ∷ r) inp in
    let more = until_star_paren (d ∷ r) behind in
    if c == b'*' && d == b')' then ([], consume d r behind) else (c ∷ more.0, more.1)

-- `get()`, `n` times.
unfoldable pub skip_bytes : ℕ → Input → Input
skip_bytes zero inp = inp
skip_bytes (suc n) inp = skip_bytes n (get inp).1

-- The loop over a nested brace comment within one input: the depth that is left, and the input at
-- its end, at a NUL byte, or behind the brace that closes the comment.
unfoldable pub brace_depth : Bytes → ℕ → Input → ℕ × Input
brace_depth [] depth inp = (depth, inp)
brace_depth (c ∷ r) zero inp = (zero, inp)
brace_depth (c ∷ r) (suc depth) inp =
    let deeper = brace_depth r (suc (suc depth)) (consume c r inp) in
    let closed = brace_depth r depth (consume c r inp) in
    let same_depth = brace_depth r (suc depth) (consume c r inp) in
    if c == 0
    then (suc depth, inp)
    else if c == b'{'
    then deeper
    else if c == b'}'
    then closed
    else same_depth

-- Where an included file ends inside the comment, the comment goes on behind the include.
unfoldable pub brace_comment : List Input → ℕ → Lexer → Lexer
brace_comment [] depth lx = set_input (brace_depth lx.input.rest depth lx.input).1 lx
brace_comment (i ∷ is) depth lx =
    let run = brace_depth lx.input.rest depth lx.input in
    let outer = brace_comment is run.0 (record lx { input = i; below = is }) in
    if ltb 0 run.0 && is_empty run.1.rest then outer else set_input run.1 lx

unfoldable pub is_not_newline : ℕ → Bool
is_not_newline c = not (c == b'\n')

-- A scanner's result put back into the lexer.
abbrev pub emit : Scanned → Lexer → Token × Lexer
emit s lx = (s.token, record lx { input = s.input; reports = lx.reports ++ s.diags })

unfoldable pub emit_string : Lexer → Option Scanned → Option (Token × Lexer)
emit_string lx none = none
emit_string lx (some s) = some (emit s lx)

-- In a rejected region: a literal is passed over whole, its reports kept, or else one byte.
unfoldable pub skip_string : Lexer → Option Scanned → Option Lexer
skip_string lx none = none
skip_string lx (some s) = some (emit s lx).1

-- The scanner for the first byte of a token.
unfoldable pub scan_token : Lexer → Option (Token × Lexer)
scan_token lx =
    let c = peek lx.input.rest 0 in
    if is_ident_start c
    then some (emit (scan_identifier_or_keyword lx.input) lx)
    else if is_digit c || (c == b'$' || (c == b'%' || c == b'&'))
    then some (emit (scan_number lx.input) lx)
    else if c == b'\'' || c == b'#'
    then emit_string lx (scan_string lx.input)
    else some (emit (scan_punctuation lx.input) lx)

unfoldable pub skip_rejected : Lexer → Option Lexer
skip_rejected lx =
    let c = peek lx.input.rest 0 in
    if c == b'\'' || c == b'#'
    then skip_string lx (scan_string lx.input)
    else some (set_input (get lx.input).1 lx)

-- What a round of the loop of `next` does behind `skip_ws_and_comments`: it returns a token, or
-- goes on.
pub data Round : Type 0 where
  returns : Token → Lexer → Round
  goes_on : Lexer → Round

abbrev pub round_of : Option (Token × Lexer) → Option Round
round_of none = none
round_of (some (t, lx)) = some (returns t lx)

abbrev pub again : Option Lexer → Option Round
again none = none
again (some lx) = some (goes_on lx)

unfoldable pub next_step : Lexer → Option Round
next_step lx = elim (pop_input_if_eof lx) [
  | some popped ↦ some (goes_on popped)
  | none ↦
      if is_empty lx.input.rest
      then some (returns (token eof (here lx.input) []) lx)
      else if accepting lx
      then round_of (scan_token lx)
      else again (skip_rejected lx)
]

module _ (files : Files) where
  -- `handle_directive_at_brace`
  unfoldable pub directive_at_brace : Lexer → Lexer
  directive_at_brace lx =
      let body = skip_bytes 2 lx.input in
      let run = until_brace body.rest body in
      handle_directive files run.0 (here lx.input) (set_input run.1 lx)

  -- `handle_directive_at_paren`
  unfoldable pub directive_at_paren : Lexer → Lexer
  directive_at_paren lx =
      let body = skip_bytes 3 lx.input in
      let run = until_star_paren body.rest body in
      handle_directive files run.0 (here lx.input) (set_input run.1 lx)

  unfoldable pub at_comment : Lexer → Option Lexer
  at_comment lx =
      let r = lx.input.rest in
      let paren = skip_bytes 2 lx.input in
      if is_space (peek r 0)
      then some (set_input (get lx.input).1 lx)
      else if peek r 0 == b'/' && peek r 1 == b'/'
      then some (set_input (span is_not_newline r lx.input).1 lx)
      else if peek r 0 == b'{' && peek r 1 == b'$'
      then some (directive_at_brace lx)
      else if peek r 0 == b'{'
      then some (brace_comment lx.below 1 (set_input (get lx.input).1 lx))
      else if peek r 0 == b'(' && (peek r 1 == b'*' && peek r 2 == b'$')
      then some (directive_at_paren lx)
      else if peek r 0 == b'(' && peek r 1 == b'*'
      then some (set_input (until_star_paren paren.rest paren).1 lx)
      else none

  -- One round of the loop of `skip_ws_and_comments`: `none` is the `return`.
  unfoldable pub skip_step : Lexer → Option Lexer
  skip_step lx = elim (pop_input_if_eof lx) [
    | some popped ↦ some popped
    | none ↦ if peek lx.input.rest 0 == 0 then none else at_comment lx
  ]

  unfoldable pub skip_ws_and_comments : ℕ → Lexer → Option Lexer
  skip_ws_and_comments zero lx = none
  skip_ws_and_comments (suc fuel) lx = elim (skip_step lx) [
    | none ↦ some lx
    | some lx' ↦ skip_ws_and_comments fuel lx'
  ]

  unfoldable pub next : ℕ → Lexer → Option (Token × Lexer)
  next zero lx = none
  next (suc fuel) lx = elim (skip_ws_and_comments fuel lx) [
    | none ↦ none
    | some lx' ↦ elim (next_step lx') [
      | none ↦ none
      | some (returns t lx'') ↦ some (t, lx'')
      | some (goes_on lx'') ↦ next fuel lx''
    ]
  ]
