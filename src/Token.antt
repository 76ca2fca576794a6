-- ===== src/Token.antt =====
-- Tokens: src/token.h, and the keyword table of src/lexer.cc.
use tp2cc.Prelude.{Bytes, List, Option, [], codes, if◌then◌else◌, none, same, some, ℕ, ◌∷◌}
use tp2cc.Source.{Location}

-- `enum class Tok`
pub data Tok : Type 0 where
  eof error ident int_lit real_lit string_lit plus minus star slash eq lt gt lt_eq gt_eq : Tok
  not_eq sym_diff star_star assign caret lbrack rbrack dot dot_dot comma lparen rparen : Tok
  colon semi at_sign at_at kw_absolute kw_abstract kw_and kw_array kw_as kw_asm kw_assembler : Tok
  kw_begin kw_break kw_case kw_cdecl kw_class kw_const kw_constructor kw_continue : Tok
  kw_default kw_destructor kw_dispose kw_div kw_do kw_downto kw_else kw_end kw_except : Tok
  kw_exit kw_export kw_exports kw_external kw_fail kw_false kw_far kw_file kw_finalization : Tok
  kw_finally kw_for kw_forward kw_function kw_goto kw_if kw_implementation kw_in kw_index : Tok
  kw_inherited kw_initialization kw_inline kw_interface kw_interrupt kw_is kw_label : Tok
  kw_library kw_message kw_mod kw_name kw_near kw_new kw_nil kw_not kw_object kw_of kw_on : Tok
  kw_operator kw_or kw_otherwise kw_override kw_packed kw_popstack kw_pascal kw_private : Tok
  kw_procedure kw_program kw_property kw_protected kw_public kw_published kw_raise kw_read : Tok
  kw_record kw_register kw_repeat kw_resident kw_resourcestring kw_result kw_safecall : Tok
  kw_self kw_set kw_shl kw_shortstring kw_shr kw_static kw_stdcall kw_stored kw_string : Tok
  kw_system kw_then kw_threadvar kw_to kw_true kw_try kw_type kw_unit kw_until kw_uses : Tok
  kw_var kw_virtual kw_while kw_with kw_write kw_xor kw_alias kw_cvar : Tok

-- `struct Token`
pub record Token : Type 0 where
  pub kind : Tok
  pub loc : Location
  pub text : Bytes
  pub int_value : ℕ

-- `Token(kind, loc, text)`: the value defaults to 0.
abbrev pub token : Tok → Location → Bytes → Token
token kind loc text = record { kind = kind; loc = loc; text = text; int_value = 0 }

-- `kKeywordTable`, which the constructor copies into `keywords_`.
unfoldable pub keyword_table : List (Bytes × Tok)
keyword_table =
    (codes "and", kw_and)
    ∷ (codes "array", kw_array)
    ∷ (codes "as", kw_as)
    ∷ (codes "asm", kw_asm)
    ∷ (codes "begin", kw_begin)
    ∷ (codes "case", kw_case)
    ∷ (codes "class", kw_class)
    ∷ (codes "const", kw_const)
    ∷ (codes "constructor", kw_constructor)
    ∷ (codes "destructor", kw_destructor)
    ∷ (codes "div", kw_div)
    ∷ (codes "do", kw_do)
    ∷ (codes "downto", kw_downto)
    ∷ (codes "else", kw_else)
    ∷ (codes "end", kw_end)
    ∷ (codes "except", kw_except)
    ∷ (codes "exports", kw_exports)
    ∷ (codes "false", kw_false)
    ∷ (codes "file", kw_file)
    ∷ (codes "finalization", kw_finalization)
    ∷ (codes "finally", kw_finally)
    ∷ (codes "for", kw_for)
    ∷ (codes "function", kw_function)
    ∷ (codes "goto", kw_goto)
    ∷ (codes "if", kw_if)
    ∷ (codes "implementation", kw_implementation)
    ∷ (codes "in", kw_in)
    ∷ (codes "inherited", kw_inherited)
    ∷ (codes "initialization", kw_initialization)
    ∷ (codes "interface", kw_interface)
    ∷ (codes "is", kw_is)
    ∷ (codes "label", kw_label)
    ∷ (codes "library", kw_library)
    ∷ (codes "mod", kw_mod)
    ∷ (codes "nil", kw_nil)
    ∷ (codes "not", kw_not)
    ∷ (codes "object", kw_object)
    ∷ (codes "of", kw_of)
    ∷ (codes "operator", kw_operator)
    ∷ (codes "or", kw_or)
    ∷ (codes "otherwise", kw_otherwise)
    ∷ (codes "packed", kw_packed)
    ∷ (codes "procedure", kw_procedure)
    ∷ (codes "program", kw_program)
    ∷ (codes "raise", kw_raise)
    ∷ (codes "record", kw_record)
    ∷ (codes "repeat", kw_repeat)
    ∷ (codes "resourcestring", kw_resourcestring)
    ∷ (codes "self", kw_self)
    ∷ (codes "set", kw_set)
    ∷ (codes "shl", kw_shl)
    ∷ (codes "shortstring", kw_shortstring)
    ∷ (codes "shr", kw_shr)
    ∷ (codes "string", kw_string)
    ∷ (codes "then", kw_then)
    ∷ (codes "threadvar", kw_threadvar)
    ∷ (codes "to", kw_to)
    ∷ (codes "true", kw_true)
    ∷ (codes "try", kw_try)
    ∷ (codes "type", kw_type)
    ∷ (codes "unit", kw_unit)
    ∷ (codes "until", kw_until)
    ∷ (codes "uses", kw_uses)
    ∷ (codes "var", kw_var)
    ∷ (codes "while", kw_while)
    ∷ (codes "with", kw_with)
    ∷ (codes "xor", kw_xor)
    ∷ []

-- `keywords_.find(key)`
unfoldable pub find_keyword : Bytes → List (Bytes × Tok) → Option Tok
unfolding same
find_keyword key [] = none
find_keyword key ((word, kind) ∷ table) =
    if same key word then some kind else find_keyword key table
