-- ===== src/Lib.antt =====
-- tp2cc: a translator of Turbo/Free Pascal sources to C++. The front of the translator reads units
-- with a preprocessing lexer; the unit graph finds the units that a program uses and puts them in
-- order; the emitter writes C++ files, with a Makefile that builds them.
--
-- Paths are from the repository's root.
--   Prelude     shared names, Boolean tests, lists and byte strings over the native numbers
--   Text        src/lexer.cc: character classes, trim, lower, the byte order mark
--   Messages    the texts of the reports, as data
--   Source      src/source.h, src/diag.cc, src/lexer.h: files, locations, reports, the open input
--               (peek, get, here)
--   Token       src/token.h: the kinds of tokens, the keyword table
--   Scan        src/lexer.cc: accumulate_digit (Digits), scan_number (Number), scan_string
--               (Strings), scan_identifier_or_keyword (Word), scan_punctuation (Punctuation)
--   Preproc     src/lexer.cc: define and undefine (Macro), IfExprParser and eval_if_expr (IfText,
--               IfExpr), the fields of Lexer (State), the conditional directives (Cond),
--               do_include (Include), handle_directive (Directive)
--   Next        src/lexer.cc: skip_ws_and_comments and next
--   RuntimeUnits src/runtime_units.cc: the tables of the runtime's units and their lookup
--   Makefile    src/emit_makefile.cc: the whole writer
--   Units       src/units.cc: the table of units, the search for a unit's file (Search), topo_sort
--               (Topo), the spread of failures at the end of discover_from_entry (Failures)
--   Runtime     include/tp2cc_rt/prelude.h: tp2cc_add_checked, tp2cc_wrap_add and their kin,
--               tp2cc_int_div, tp2cc_int_mod, tp2cc_range_check_assign (Integers), p_shl and p_shr
--               (Shifts), p_insert, p_delete, p_copy, p_pos on short strings (ShortStrings),
--               tp2cc_parse_pascal_integer (Val), tp2cc_pack_local_tm_as_dos_filetime and
--               tp2cc_unpack_dos_filetime_to_local_tm (FileTime, without tm_isdst)
--   Emit        src/emit_support.cc: the primitive types (Primitives), bit widths and checked sums
--               (Bits), constant shifts (Shift), the names of identifiers and helpers (Names),
--               character literals (Literals, with the string literals of src/emit.cc);
--               src/emit_analysis.cc: eval_const_int_expr_impl (Const),
--               convert_const_int_value (Const.Cast); src/emit_stmts.cc and src/emit_values.cc: an
--               assignment under {$R+}, constants included (Assign)
--   Tests       runs of the code, and the theorems at concrete inputs
--
-- State. A lexer is a record; an operation takes it and returns the new one. The stack of inputs is
-- its top and the list below it. An input is what is left to read of its file, with its line and
-- column. A report is a value that is added to a list. The file system is a parameter (`Files`, and
-- `listing` for directories), and so is what make does to a line of a recipe (`expand`);
-- std::filesystem::path is a POSIX path in bytes.
--
-- Numbers. Lines and columns wrap at 2^32, literals are counted with the overflow of 64 bits, the
-- integers of conditional expressions wrap at 2^64 where the source has undefined behaviour.
--
-- A value of a C++ integer type of the runtime is the integer that it stands for; a cast goes through
-- the bit pattern, whose number is reduced by the width's power of 2. A short string is its length
-- and its array, a function of the index; the loops over the array are recursion on their rounds.
--
-- The emitter computes on constants what the runtime computes on variables, so the constant
-- operations of Emit are set beside the operations of Runtime. An operand of the constant evaluator
-- that is a call or a name is a leaf with the result of that case. `bind_binary_operation` gives the
-- kind of an operation as a part of the expression.
--
-- Fuel. The recursion of IfExprParser on parentheses has the length of the text, its loops the
-- length of what is left and one more. `next` takes its fuel as an argument: the weight of all that
-- is left to read, where a byte that may open a directive weighs as much as an included file. That
-- measure serves files that include no other, as a file that includes itself is read forever.
-- `topo_sort` has the number of units, the spread of failures that and one more. The
-- results below say where this is enough.
--
-- Not modelled: the parser (src/parser.cc), the type registry (src/typereg.cc), the parsing sessions
-- of src/units.cc, the command line (src/main.cc), and of the emitter (src/emit*.cc) and the runtime
-- headers what the list above does not name. Floating-point numbers have no counterpart here.
pub mod Prelude
pub mod Text
pub mod Messages
pub mod Source
pub mod Token
pub mod Scan
pub mod Preproc
pub mod Next
pub mod Emit
pub mod RuntimeUnits
pub mod Makefile
pub mod Units
pub mod Runtime
mod Tests
