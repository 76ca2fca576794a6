-- ===== src/Preproc.antt =====
-- Conditional compilation: the part of `Lexer` that runs directives. `Macro` has the symbols,
-- `IfExpr` the `{$if}` expressions, `State` the lexer's state, `Cond` the conditional directives,
-- `Include` the include stack, and `Directive` the whole of `handle_directive`.
pub mod IfText
pub mod Macro
pub mod IfExpr
pub mod State
pub mod Cond
pub mod Include
pub mod Directive
