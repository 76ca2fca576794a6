-- ===== src/Tests/Lexing.antt =====
-- The scanners, the blanks and `next` on small inputs.
use tp2cc.Scan.Number.Whole.{scan_number-append}
use tp2cc.Prelude.{Bytes, arith, codes, leb, refl, same, some, suc, ◌++◌, ◌∷◌, ◌≡◌, ◌≤◌, ◌⊎◌}
use tp2cc.Text.{
  hex_val, is_alnum, is_digit, is_hex, is_ident_cont, is_ident_start, is_space, lower, lower_char,
  skip_blanks, skip_bom, trim, trim_front,
}
use tp2cc.Source.{Input, consume, error_count, get, here, next_u32, open_input, peek, span}
use tp2cc.Source.Span.{All, Stops}
use tp2cc.Token.{Token, find_keyword, int_lit, keyword_table}
use tp2cc.Scan.Digits.{accumulate, accumulate_digit, no_digits}
use tp2cc.Scan.Digits.Exact.{accumulate_exact, numeral}
use tp2cc.Scan.Number.{
  decimal_token, digit_val, exponent, exponent_sign, fraction, is_binary, is_octal, scan_decimal,
  scan_number, scan_prefixed,
}
use tp2cc.Scan.Number.Value.{HasValue, denoted, scan_number_value}
use tp2cc.Scan.Strings.{close_quoted, escape, escape_code, pieces, quoted, scan_string}
use tp2cc.Scan.Strings.Total.{ReadsFrom, scan_string-total}
use tp2cc.Scan.Strings.RoundTrip.{Reads, quote_onto, scan_string-quote_onto}
use tp2cc.Scan.Word.{scan_identifier_or_keyword, word_kind}
use tp2cc.Scan.Word.Case.{scan_word_case, scan_word_maximal}
use tp2cc.Scan.Punctuation.{punctuation, punctuation_token, scan_punctuation}
use tp2cc.Scan.Punctuation.Munch.{longest, operator_table, scan_punctuation-longest}
use tp2cc.Preproc.State.{Lexer}
use tp2cc.Next.{next}
use tp2cc.Next.Weight.{total}
use tp2cc.Next.Total.{Progress, next-total}
use tp2cc.Tests.Samples.{input_of, lexer_of, small_files, small_files-IsFlat}

program : Unit {0}
unfolding same is_ident_start is_digit is_ident_cont is_hex hex_val is_alnum lower_char lower
    is_space trim_front trim skip_blanks skip_bom error_count next_u32 open_input peek consume get
    span keyword_table find_keyword accumulate_digit accumulate digit_val is_binary is_octal
    scan_prefixed fraction exponent_sign exponent decimal_token scan_decimal scan_number quoted
    escape_code escape close_quoted pieces scan_string quote_onto word_kind
    scan_identifier_or_keyword punctuation punctuation_token scan_punctuation
program = tt

accumulate_exact_example :
    ((accumulate 256 10 hex_val (codes "300") no_digits).overflow
      ≡ leb 256 (numeral 10 hex_val (codes "300") 0))
    × ((256 ≤ numeral 10 hex_val (codes "300") 0)
        ⊎ ((accumulate 256 10 hex_val (codes "300") no_digits).value
            ≡ numeral 10 hex_val (codes "300") 0))
accumulate_exact_example = accumulate_exact 256 10 hex_val (codes "300") (omega arith) (omega arith)

scan_number-append_example :
    (scan_number (input_of "$fF;")).token.text ++ (scan_number (input_of "$fF;")).input.rest
    ≡ codes "$fF;"
scan_number-append_example = scan_number-append (input_of "$fF;")

hex_is_int : (scan_number (input_of "$fF;")).token.kind ≡ int_lit
unfolding program
hex_is_int = refl

scan_number_value_example :
    HasValue
      (scan_number (input_of "$fF;"))
      (input_of "$fF;")
      (denoted (scan_number (input_of "$fF;")).token.text)
scan_number_value_example = scan_number_value (input_of "$fF;") hex_is_int

abbrev quoted_input : Input
quoted_input = record (input_of "") { rest = b'\'' ∷ quote_onto (codes "it's\n") (codes ";") }

scan_string-quote_onto_example :
    Reads (here quoted_input) (codes "it's\n") (codes ";") (scan_string quoted_input)
unfolding program
scan_string-quote_onto_example =
    scan_string-quote_onto (codes "it's\n") (codes ";") quoted_input (refl, refl) refl

scan_string-total_example : ReadsFrom (codes "'a'#10;") (scan_string (input_of "'a'#10;"))
scan_string-total_example = scan_string-total (input_of "'a'#10;")

scan_word_case_example :
    ((scan_identifier_or_keyword (record (input_of "") { rest = lower (codes "BeGin;") })).token
      ≡ (scan_identifier_or_keyword (record (input_of "") { rest = codes "BeGin;" })).token)
    × (lower
          (scan_identifier_or_keyword (record (input_of "") { rest = codes "BeGin;" })).token.text
        ≡ (scan_identifier_or_keyword (record (input_of "") { rest = codes "BeGin;" })).token.text)
scan_word_case_example = scan_word_case (codes "BeGin;") (input_of "")

scan_word_maximal_example :
    (run : Bytes) × (run ++ (scan_identifier_or_keyword (input_of "Abc9 x")).input.rest
      ≡ codes "Abc9 x")
    × ((scan_identifier_or_keyword (input_of "Abc9 x")).token.text ≡ lower run)
    × All is_ident_cont run
    × Stops is_ident_cont (scan_identifier_or_keyword (input_of "Abc9 x")).input.rest
scan_word_maximal_example = scan_word_maximal (input_of "Abc9 x")

scan_punctuation-longest_example :
    ((scan_punctuation (input_of ":=1")).token.text
        ++ (scan_punctuation (input_of ":=1")).input.rest
      ≡ codes ":=1")
    × (scan_punctuation (input_of ":=1")
        ≡ punctuation_token (here (input_of ":=1")) b':' (get (input_of ":=1")).1 (
            longest
              (find_keyword (codes ":=") operator_table)
              (find_keyword (codes ":") operator_table)))
unfolding program
scan_punctuation-longest_example = scan_punctuation-longest (input_of ":=1") (omega arith)

next-total_example :
    (t : Token) × (lx' : Lexer) × (next small_files
        (suc (suc (total 13 (lexer_of "{$i a}"))))
        (lexer_of "{$i a}")
      ≡ some (t, lx'))
    × Progress 13 (omega arith) (total 13 (lexer_of "{$i a}")) t lx'
next-total_example = next-total 13 (omega arith) small_files small_files-IsFlat (lexer_of "{$i a}")
