-- ===== src/Scan/Word.antt =====
-- `Lexer::scan_identifier_or_keyword`.
pub mod Case
use tp2cc.Prelude.{Option, [], none, some}
use tp2cc.Text.{is_ident_cont, lower}
use tp2cc.Source.{Input, here, span}
use tp2cc.Token.{Tok, find_keyword, ident, keyword_table, token}
use tp2cc.Scan.{Scanned}

-- The kind that the table gives to a lowercased word.
unfoldable pub word_kind : Option Tok → Tok
word_kind (some kind) = kind
word_kind none = ident

unfoldable pub scan_identifier_or_keyword : Input → Scanned
scan_identifier_or_keyword inp =
    let run = span is_ident_cont inp.rest inp in
    let key = lower run.0 in
    record {
      token = token (word_kind (find_keyword key keyword_table)) (here inp) key;
      input = run.1;
      diags = [];
    }
