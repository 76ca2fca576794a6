-- ===== src/Preproc/Include/Stack.antt =====
-- What an `{$include}` can do to the lexer: push one input, or report.
use tp2cc.Prelude.{
  Bool, Bytes, Option, codes, false, if◌then◌else◌, inl, inr, is_empty, none, refl, same, some,
  true, ◌≡◌, ◌⊎◌,
}
use tp2cc.Text.{lower, trim}
use tp2cc.Messages.{cannot_read_include}
use tp2cc.Source.{Diag, Location, SourceFile, report_error}
use tp2cc.Preproc.State.{Lexer, report}
use tp2cc.Preproc.Include.{
  Files, do_include, enclosed_by, include_file, include_macro, include_named, push_input,
}

-- The two outcomes; a pushed file is a builtin text or one that the file system gave.
pub data Included (files : Files) (lx : Lexer) : Lexer → Type 0 where
  reported : (d : Diag) → Included files lx (report d lx)
  builtin :
      (f : SourceFile)
      → (f.contents ≡ codes "'1970-01-01'") ⊎ (f.contents ≡ codes "'00:00:00'")
      → Included files lx (push_input f lx)
  loaded :
      (f : SourceFile) → files.load f.path ≡ some f.contents → Included files lx (push_input f lx)

module _ (files : Files) where
  if_Included :
      {lx : Lexer} (b : Bool) {x y : Lexer}
      → Included files lx x
      → Included files lx y
      → Included files lx (if b then x else y)
  if_Included true x y = x
  if_Included false x y = y

  include_macro-Included :
      (a : Bytes) (loc : Location) (lx : Lexer) → Included files lx (include_macro files a loc lx)
  unfolding include_macro
  include_macro-Included a loc lx =
      if_Included (same (lower a) (codes "%date%")) (builtin _ (inl refl))
        (if_Included (same (lower a) (codes "%time%")) (builtin _ (inr refl)) (reported _))

  include_file-Included :
      (a : Bytes) (loc : Location) (o : Option Bytes) (lx : Lexer)
      → Included files lx (include_file files a loc o lx)
  unfolding include_file
  include_file-Included a loc none lx = reported _
  include_file-Included a loc (some path) lx = go (files.load path) refl
    where
      go :
          (o : Option Bytes)
          → files.load path ≡ o
          → Included files lx (elim o [
            | none ↦ report (report_error loc (cannot_read_include path)) lx
            | some contents ↦ push_input (record { path = path; contents = contents }) lx
          ])
      go none e = reported _
      go (some contents) e = loaded (record { path = path; contents = contents }) e

  -- `do_include` pushes one input, a builtin text or the contents of a file that was read, or makes
  -- one report; it changes nothing else.
  pub do_include-Included :
      (arg : Bytes) (loc : Location) (lx : Lexer) → Included files lx (do_include files arg loc lx)
  unfolding do_include include_named
  do_include-Included arg loc lx =
      let a = trim arg in
      if_Included (is_empty a) (reported _) (
        if_Included (enclosed_by b'%' a) (include_macro-Included a loc lx)
          (include_file-Included _ loc _ lx))

  Included-ifdefs : {lx lx' : Lexer} → Included files lx lx' → lx'.ifdefs ≡ lx.ifdefs
  unfolding report push_input
  Included-ifdefs (reported d) = refl
  Included-ifdefs (builtin f e) = refl
  Included-ifdefs (loaded f e) = refl

  pub do_include-ifdefs :
      (arg : Bytes) (loc : Location) (lx : Lexer) → (do_include files arg loc lx).ifdefs ≡ lx.ifdefs
  do_include-ifdefs arg loc lx = Included-ifdefs (do_include-Included arg loc lx)
