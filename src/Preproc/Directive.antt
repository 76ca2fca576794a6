-- ===== src/Preproc/Directive.antt =====
-- `split_directive` and `Lexer::handle_directive`. The chain of comparisons of the head is the
-- table `heads`, in the order of the source.
pub mod Rejected
use tp2cc.Preproc.IfText.{take_while}
use tp2cc.Prelude.{
  Bool, Bytes, List, Option, [], codes, false, if◌then◌else◌, none, same, some, true, ℕ, ◌==◌, ◌||◌,
  ◌∷◌,
}
use tp2cc.Text.{is_alnum, lower, skip_blanks, trim}
use tp2cc.Messages.{
  Message, illegal_value, t_on_unsupported, typed_address_unsupported, user_message,
}
use tp2cc.Source.{Location, report_error, report_warning}
use tp2cc.Preproc.Macro.{define, undefine}
use tp2cc.Preproc.State.{Lexer, Switches, accepting, com_mode, corba_mode, report}
use tp2cc.Preproc.Cond.{
  CondHead, conditional, else_branch, elseif, endif, if_expr, ifdef, ifndef, ifopt,
}
use tp2cc.Preproc.Include.{Files, do_include}
use tp2cc.Preproc.IfExpr.{value}

-- The heads that act in an accepted region only.
pub data PlainHead : Type 0 where
  define_symbol undef_symbol include : PlainHead
  fatal warning packenum_value : Bytes → PlainHead
  q_on q_off r_on r_off h_on h_off t_off t_on typed_address long_strings : PlainHead
  z1 z2 z4 interfaces mode : PlainHead

pub data Head : Type 0 where
  cond_head : CondHead → Head
  plain_head : PlainHead → Head

unfoldable pub heads : List (Bytes × Head)
heads =
    (codes "ifdef", cond_head ifdef)
    ∷ (codes "ifndef", cond_head ifndef)
    ∷ (codes "if", cond_head if_expr)
    ∷ (codes "ifopt", cond_head ifopt)
    ∷ (codes "elseif", cond_head elseif)
    ∷ (codes "else", cond_head else_branch)
    ∷ (codes "endif", cond_head endif)
    ∷ (codes "ifend", cond_head endif)
    ∷ (codes "define", plain_head define_symbol)
    ∷ (codes "undef", plain_head undef_symbol)
    ∷ (codes "i", plain_head include)
    ∷ (codes "include", plain_head include)
    ∷ (codes "fatal", plain_head (fatal (codes "fatal")))
    ∷ (codes "error", plain_head (fatal (codes "error")))
    ∷ (codes "warning", plain_head (warning (codes "warning")))
    ∷ (codes "message", plain_head (warning (codes "message")))
    ∷ (codes "note", plain_head (warning (codes "note")))
    ∷ (codes "hint", plain_head (warning (codes "hint")))
    ∷ (codes "q+", plain_head q_on)
    ∷ (codes "overflowchecks+", plain_head q_on)
    ∷ (codes "q-", plain_head q_off)
    ∷ (codes "overflowchecks-", plain_head q_off)
    ∷ (codes "r+", plain_head r_on)
    ∷ (codes "rangechecks+", plain_head r_on)
    ∷ (codes "r-", plain_head r_off)
    ∷ (codes "rangechecks-", plain_head r_off)
    ∷ (codes "h+", plain_head h_on)
    ∷ (codes "longstrings+", plain_head h_on)
    ∷ (codes "h-", plain_head h_off)
    ∷ (codes "longstrings-", plain_head h_off)
    ∷ (codes "t-", plain_head t_off)
    ∷ (codes "typedaddress-", plain_head t_off)
    ∷ (codes "t+", plain_head t_on)
    ∷ (codes "typedaddress+", plain_head t_on)
    ∷ (codes "typedaddress", plain_head typed_address)
    ∷ (codes "longstrings", plain_head long_strings)
    ∷ (codes "z1", plain_head z1)
    ∷ (codes "z2", plain_head z2)
    ∷ (codes "z4", plain_head z4)
    ∷ (codes "packenum", plain_head (packenum_value (codes "packenum")))
    ∷ (codes "minenumsize", plain_head (packenum_value (codes "minenumsize")))
    ∷ (codes "interfaces", plain_head interfaces)
    ∷ (codes "mode", plain_head mode)
    ∷ []

unfoldable pub find_head : Bytes → List (Bytes × Head) → Option Head
find_head key [] = none
find_head key ((word, h) ∷ table) = if same key word then some h else find_head key table

-- The bytes of a head.
unfoldable pub is_head_char : ℕ → Bool
is_head_char c = is_alnum c || (c == b'_' || (c == b'+' || c == b'-'))

-- The head in lowercase, and the rest behind the blanks.
unfoldable pub split_directive : Bytes → Bytes × Bytes
split_directive body =
    let run = take_while is_head_char (skip_blanks body) in (lower run.0, skip_blanks run.1)

unfoldable pub parse_packenum_value : Bytes → Option ℕ
parse_packenum_value rest =
    let value = lower (trim rest) in
    if same value (codes "default") || same value (codes "normal")
    then some 4
    else if same value (codes "1")
    then some 1
    else if same value (codes "2")
    then some 2
    else if same value (codes "4")
    then some 4
    else none

unfoldable pub mode_default_packenum : Bytes → Option ℕ
mode_default_packenum rest =
    let mode = lower (trim rest) in
    if same mode (codes "tp")
      || (same mode (codes "tp7") || (same mode (codes "delphi") || same mode (codes "macpas")))
    then some 1
    else if same mode (codes "fpc") || same mode (codes "objfpc")
    then some 4
    else none

abbrev set_switches : (Switches → Switches) → Lexer → Lexer
set_switches f lx = record lx { switches = f lx.switches }

abbrev report_at : Location → Message → Lexer → Lexer
report_at loc m lx = report (report_error loc m) lx

unfoldable pub on_typed_address : Bytes → Location → Lexer → Lexer
on_typed_address rest loc lx =
    let mode = lower (trim rest) in
    if same mode (codes "-")
    then set_switches (λ sw. record sw { t_typed_addresses = false }) lx
    else if same mode (codes "+")
    then report_at loc typed_address_unsupported lx
    else report_at loc (illegal_value (codes "typedaddress") (trim rest)) lx

unfoldable pub on_long_strings : Bytes → Location → Lexer → Lexer
on_long_strings rest loc lx =
    let mode = lower (trim rest) in
    if same mode (codes "on") || same mode (codes "+")
    then set_switches (λ sw. record sw { h_long_strings = true }) lx
    else if same mode (codes "off") || same mode (codes "-")
    then set_switches (λ sw. record sw { h_long_strings = false }) lx
    else report_at loc (illegal_value (codes "longstrings") (trim rest)) lx

unfoldable pub set_packenum : Option ℕ → Lexer → Lexer → Lexer
set_packenum (some n) lx other = set_switches (λ sw. record sw { packenum = n }) lx
set_packenum none lx other = other

-- `default_interface_mode_` is `Com` and never changes.
unfoldable pub on_interfaces : Bytes → Location → Lexer → Lexer
on_interfaces rest loc lx =
    let mode = lower (trim rest) in
    if same mode (codes "corba")
    then set_switches (λ sw. record sw { interface_mode = corba_mode }) lx
    else if same mode (codes "com")
    then set_switches (λ sw. record sw { interface_mode = com_mode }) lx
    else if same mode (codes "default")
    then set_switches (λ sw. record sw { interface_mode = com_mode }) lx
    else report_at loc (illegal_value (codes "interfaces") (trim rest)) lx

module _ (files : Files) where
  unfoldable pub plain : PlainHead → Bytes → Location → Lexer → Lexer
  plain define_symbol rest loc lx = record lx { defines = define rest lx.defines }
  plain undef_symbol rest loc lx = record lx { defines = undefine (trim rest) lx.defines }
  plain include rest loc lx = do_include files rest loc lx
  plain (fatal head) rest loc lx = report_at loc (user_message head (trim rest)) lx
  plain (warning head) rest loc lx = report (report_warning loc (user_message head (trim rest))) lx
  plain q_on rest loc lx = set_switches (λ sw. record sw { q_check = true }) lx
  plain q_off rest loc lx = set_switches (λ sw. record sw { q_check = false }) lx
  plain r_on rest loc lx = set_switches (λ sw. record sw { r_check = true }) lx
  plain r_off rest loc lx = set_switches (λ sw. record sw { r_check = false }) lx
  plain h_on rest loc lx = set_switches (λ sw. record sw { h_long_strings = true }) lx
  plain h_off rest loc lx = set_switches (λ sw. record sw { h_long_strings = false }) lx
  plain t_off rest loc lx = set_switches (λ sw. record sw { t_typed_addresses = false }) lx
  plain t_on rest loc lx = report_at loc t_on_unsupported lx
  plain typed_address rest loc lx = on_typed_address rest loc lx
  plain long_strings rest loc lx = on_long_strings rest loc lx
  plain z1 rest loc lx = set_switches (λ sw. record sw { packenum = 1 }) lx
  plain z2 rest loc lx = set_switches (λ sw. record sw { packenum = 2 }) lx
  plain z4 rest loc lx = set_switches (λ sw. record sw { packenum = 4 }) lx
  plain (packenum_value head) rest loc lx =
      set_packenum (parse_packenum_value rest) lx
        (report_at loc (illegal_value head (trim rest)) lx)
  plain interfaces rest loc lx = on_interfaces rest loc lx
  plain mode rest loc lx = set_packenum (mode_default_packenum rest) lx lx

  -- A head that the table does not have, the empty one included, is accepted in silence.
  unfoldable pub dispatch : Option Head → Bytes → Location → Lexer → Lexer
  dispatch none rest loc lx = lx
  dispatch (some (cond_head h)) rest loc lx = conditional h rest loc lx
  dispatch (some (plain_head h)) rest loc lx = if accepting lx then plain h rest loc lx else lx

  unfoldable pub handle_directive : Bytes → Location → Lexer → Lexer
  handle_directive body loc lx =
      let parts = split_directive body in dispatch (find_head parts.0 heads) parts.1 loc lx
