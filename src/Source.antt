-- ===== src/Source.antt =====
-- Source text and diagnostics: src/source.h, src/diag.cc, and the input handling of `Lexer`
-- (`peek`, `get`, `at_eof_of_current`, `here`). An `Input` holds the bytes from `pos` on
-- (`rest`) in place of the whole contents and `pos`, as nothing reads what lies before `pos`.
pub mod Span
pub mod Suffix
use tp2cc.Messages.{Message}
use tp2cc.Prelude.{
  Bool, Bytes, List, [], false, if◌then◌else◌, suc, true, zero, ℕ, ◌%◌, ◌+◌, ◌==◌, ◌^◌, ◌∷◌,
}
use tp2cc.Text.{skip_bom}

-- `struct SourceFile`
pub record SourceFile : Type 0 where
  pub path : Bytes
  pub contents : Bytes

-- `struct Location`; the file is known by its path.
pub record Location : Type 0 where
  pub path : Bytes
  pub line : ℕ
  pub col : ℕ

-- `error` counts in `g_errors`, `warning` in `g_warnings`.
pub data Severity : Type 0 where
  error_severity warning_severity : Severity

pub record Diag : Type 0 where
  pub severity : Severity
  pub where_at : Location
  pub message : Message

abbrev pub report_error : Location → Message → Diag
report_error loc m = record { severity = error_severity; where_at = loc; message = m }

abbrev pub report_warning : Location → Message → Diag
report_warning loc m = record { severity = warning_severity; where_at = loc; message = m }

abbrev is_error : Severity → Bool
is_error error_severity = true
is_error warning_severity = false

-- `error_count()` after these reports.
unfoldable pub error_count : List Diag → ℕ
error_count [] = 0
error_count (d ∷ ds) = (if is_error d.severity then 1 else 0) + error_count ds

-- `Lexer::Input`
pub record Input : Type 0 where
  pub path : Bytes
  pub rest : Bytes
  pub line : ℕ
  pub col : ℕ

-- `uint32_t` increment
unfoldable pub next_u32 : ℕ → ℕ
next_u32 n = (n + 1) % 2 ^ 32

-- `Input{.file = file, .pos = initial_input_pos(*file), .line = 1, .col = 1}`
unfoldable pub open_input : SourceFile → Input
unfolding skip_bom
open_input f = record { path = f.path; rest = skip_bom f.contents; line = 1; col = 1 }

-- `peek(ahead)` on what is left to read: 0 behind the end.
unfoldable pub peek : Bytes → ℕ → ℕ
peek [] n = 0
peek (c ∷ s) zero = c
peek (c ∷ s) (suc n) = peek s n

-- The effect of `get()` that reads `c` and leaves `r`.
unfoldable pub consume : ℕ → Bytes → Input → Input
unfolding next_u32
consume c r inp = record inp {
  rest = r;
  line = if c == b'\n' then next_u32 inp.line else inp.line;
  col = if c == b'\n' then 1 else next_u32 inp.col;
}

get_from : Bytes → Input → ℕ × Input
unfolding consume
get_from [] inp = (0, inp)
get_from (c ∷ r) inp = (c, consume c r inp)

-- `get()`: the byte read, or 0 at the end with no change.
unfoldable pub get : Input → ℕ × Input
unfolding get_from
get inp = get_from inp.rest inp

abbrev pub here : Input → Location
here inp = record { path = inp.path; line = inp.line; col = inp.col }

-- `while (!at_eof_of_current() && test(peek())) text.push_back(get());`, read from `rest`.
unfoldable pub span : (ℕ → Bool) → Bytes → Input → Bytes × Input
unfolding consume
span test [] inp = ([], inp)
span test (c ∷ r) inp =
    let more = span test r (consume c r inp) in if test c then (c ∷ more.0, more.1) else ([], inp)
