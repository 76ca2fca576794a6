-- ===== src/Tests/Samples.antt =====
-- Inputs that the tests share.
use Prim.Native.String.{String}
use mathlib.Core.Path.{subst}
use tp2cc.Prelude.{Bytes, List, Option, [], ap, arith, codes, false, none, some, true, ◌<◌, ◌∷◌}
use tp2cc.Source.{Input, Location, here}
use tp2cc.Preproc.State.{IfdefFrame, Lexer, default_switches}
use tp2cc.Preproc.Include.{Files}
use tp2cc.Next.Weight.{IsFlat, weight}

abbrev pub input_of : String → Input
input_of s = record { path = codes "t.pas"; rest = codes s; line = 1; col = 1 }

abbrev pub here_loc : Location
here_loc = here (input_of "")

abbrev pub lexer_of : String → Lexer
lexer_of s = record {
  input = input_of s;
  below = [];
  ifdefs = [];
  defines = (codes "fpc", none) ∷ (codes "ver", some (codes "3")) ∷ [];
  switches = default_switches;
  reports = [];
}

abbrev pub taken_frame : IfdefFrame
taken_frame = record { accepting = true; any_taken = true; in_else = false }

abbrev pub rejected_frame : IfdefFrame
rejected_frame = record { accepting = false; any_taken = true; in_else = true }

abbrev pub in_frames : List IfdefFrame → String → Lexer
in_frames fs s = record (lexer_of s) { ifdefs = fs }

-- Every path holds the same two bytes.
abbrev pub small_files : Files
small_files = record {
  exists = λ p. true;
  load = λ p. some (codes "x;");
  include_dirs = codes "inc" ∷ [];
}

abbrev contents_of : Option Bytes → Bytes
contents_of none = []
contents_of (some c) = c

pub small_files-IsFlat : IsFlat 13 small_files
small_files-IsFlat path contents h =
    subst (λ (c : Bytes). weight 13 c < 13) (ap (λ (o : Option Bytes). contents_of o) h)
      (omega arith)
