-- ===== src/Scan.antt =====
-- The token scanners of `Lexer`, each on the input that is open. A scanner returns its token, the
-- input behind it, and its reports in the order in which they are made.
pub mod Digits
pub mod Number
pub mod Strings
pub mod Word
pub mod Punctuation
pub mod Progress
use tp2cc.Prelude.{List}
use tp2cc.Source.{Diag, Input}
use tp2cc.Token.{Token, token}

pub record Scanned : Type 0 where
  pub token : Token
  pub input : Input
  pub diags : List Diag
