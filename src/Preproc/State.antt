-- ===== src/Preproc/State.antt =====
-- The fields of `Lexer` (src/lexer.h). The input stack is never empty: its top is `input`, and
-- `below` is the rest, from the top down. `ifdefs` starts with the innermost frame. `keywords_` is
-- the constant table of Token.antt, and `retired_` is not used by the code.
use tp2cc.Prelude.{Bool, List, [], false, true, ℕ, ◌&&◌, ◌++◌, ◌∷◌}
use tp2cc.Source.{Diag, Input, SourceFile, open_input}
use tp2cc.Preproc.Macro.{Defines}

-- `enum class InterfaceMode`
pub data InterfaceMode : Type 0 where
  com_mode corba_mode : InterfaceMode

-- `struct IfdefFrame`
pub record IfdefFrame : Type 0 where
  pub accepting : Bool
  pub any_taken : Bool
  pub in_else : Bool

-- The live switches, which the parser reads through the accessors.
pub record Switches : Type 0 where
  pub q_check : Bool
  pub r_check : Bool
  pub t_typed_addresses : Bool
  pub packenum : ℕ
  pub h_long_strings : Bool
  pub interface_mode : InterfaceMode

pub record Lexer : Type 0 where
  pub input : Input
  pub below : List Input
  pub ifdefs : List IfdefFrame
  pub defines : Defines
  pub switches : Switches
  pub reports : List Diag

-- The initial values of the fields.
abbrev pub default_switches : Switches
default_switches = record {
  q_check = false;
  r_check = false;
  t_typed_addresses = false;
  packenum = 4;
  h_long_strings = false;
  interface_mode = com_mode;
}

-- The constructor `Lexer(root, include_dirs)`.
unfoldable pub new_lexer : SourceFile → Lexer
new_lexer root = record {
  input = open_input root;
  below = [];
  ifdefs = [];
  defines = [];
  switches = default_switches;
  reports = [];
}

-- `set_overflow_check_default` and `set_range_check_default`
unfoldable pub set_overflow_check_default : Bool → Lexer → Lexer
set_overflow_check_default on lx = record lx { switches = record (lx.switches) { q_check = on } }

unfoldable pub set_range_check_default : Bool → Lexer → Lexer
set_range_check_default on lx = record lx { switches = record (lx.switches) { r_check = on } }

unfoldable pub report : Diag → Lexer → Lexer
report d lx = record lx { reports = lx.reports ++ d ∷ [] }

-- The loop of `accepting()`, and of the tests of the frames around the innermost one.
unfoldable pub all_accepting : List IfdefFrame → Bool
all_accepting [] = true
all_accepting (f ∷ fs) = f.accepting && all_accepting fs

unfoldable pub accepting : Lexer → Bool
accepting lx = all_accepting lx.ifdefs
