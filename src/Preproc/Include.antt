-- ===== src/Preproc/Include.antt =====
-- `Lexer::do_include`, and the stack of inputs. The file system is a parameter: `exists` and `load`
-- stand for `std::filesystem::exists` and `SourceFile::load`. Paths are POSIX paths.
use tp2cc.Prelude.{
  Bool, Bytes, List, Option, [], codes, false, if◌then◌else◌, is_empty, leb, length, none, same,
  some, ℕ, ◌&&◌, ◌++◌, ◌==◌, ◌||◌, ◌∷◌,
}
pub mod Stack
use mathlib.Core.List.{reverse}
use tp2cc.Text.{lower, trim}
use tp2cc.Messages.{
  cannot_find_include, cannot_read_include, empty_include, unsupported_include_macro,
}
use tp2cc.Source.{Location, SourceFile, here, open_input, peek, report_error}
use tp2cc.Preproc.State.{Lexer, report}

-- What the lexer reads of the world, and `include_dirs_`.
pub record Files : Type 0 where
  pub exists : Bytes → Bool
  pub load : Bytes → Option Bytes
  pub include_dirs : List Bytes

abbrev pub slash_byte : ℕ
slash_byte = b'/'

-- The part behind the last `/`, given the part read since the last one seen.
unfoldable pub filename_from : Bytes → Bytes → Bytes
filename_from name [] = name
filename_from name (c ∷ s) = filename_from (if c == slash_byte then [] else name ++ c ∷ []) s

-- `path::filename`
unfoldable pub filename : Bytes → Bytes
filename p = filename_from [] p

unfoldable pub has_dot : Bytes → Bool
has_dot [] = false
has_dot (c ∷ s) = c == b'.' || has_dot s

-- `path::has_extension`: a dot that is not the first byte of the name; `..` has none.
unfoldable pub has_extension : Bytes → Bool
has_extension p = elim (filename p) [
  | [] ↦ false
  | c ∷ s ↦ if same (c ∷ s) (codes "..") then false else has_dot s
]

-- `path::is_absolute`
unfoldable pub is_absolute : Bytes → Bool
is_absolute p = peek p 0 == slash_byte

unfoldable pub drop_name : Bytes → Bytes
drop_name [] = []
drop_name (c ∷ s) = if c == slash_byte then c ∷ s else drop_name s

unfoldable pub drop_slashes : Bytes → Bytes
drop_slashes [] = []
drop_slashes (c ∷ s) = if c == slash_byte then drop_slashes s else c ∷ s

-- The directory part without its trailing slashes; of slashes only, the root stays.
unfoldable pub root_or : Bytes → Bytes → Bytes
root_or [] [] = []
root_or (c ∷ s) [] = slash_byte ∷ []
root_or dir (c ∷ s) = c ∷ s

-- `path::parent_path`
unfoldable pub parent_path : Bytes → Bytes
parent_path p = let dir = drop_name (reverse p) in root_or dir (reverse (drop_slashes dir))

-- `dir / p`
unfoldable pub join_path : Bytes → Bytes → Bytes
join_path dir p =
    if is_absolute p
    then p
    else if is_empty dir || peek (reverse dir) 0 == slash_byte
    then dir ++ p
    else dir ++ (slash_byte ∷ p)

-- `a.size() >= 2 && a.front() == q && a.back() == q`
unfoldable pub enclosed_by : ℕ → Bytes → Bool
enclosed_by q a = leb 2 (length a) && (peek a 0 == q && peek (reverse a) 0 == q)

abbrev drop_first : Bytes → Bytes
drop_first [] = []
drop_first (c ∷ s) = s

-- `a.substr(1, a.size() - 2)` of an enclosed text.
unfoldable pub inner : Bytes → Bytes
inner a = reverse (drop_first (reverse (drop_first a)))

-- `stack_.push_back(...)`
unfoldable pub push_input : SourceFile → Lexer → Lexer
push_input f lx = record lx { input = open_input f; below = lx.input ∷ lx.below }

module _ (files : Files) where
  unfoldable pub first_existing : Bytes → List Bytes → Option Bytes
  first_existing p [] = none
  first_existing p (d ∷ ds) =
      let c = join_path d p in if files.exists c then some c else first_existing p ds

  -- The file that `p` names, from a source file at `here`: an absolute path, the directory of the
  -- source file, then the include directories in order.
  unfoldable pub resolve_include : Bytes → Bytes → Option Bytes
  resolve_include here p =
      if is_absolute p && files.exists p
      then some p
      else first_existing p (parent_path here ∷ files.include_dirs)

  unfoldable pub include_file : Bytes → Location → Option Bytes → Lexer → Lexer
  include_file a loc none lx = report (report_error loc (cannot_find_include a)) lx
  include_file a loc (some path) lx = elim (files.load path) [
    | none ↦ report (report_error loc (cannot_read_include path)) lx
    | some contents ↦ push_input (record { path = path; contents = contents }) lx
  ]

  abbrev with_extension : Bytes → Bytes
  with_extension a = if has_extension a then a else a ++ codes ".inc"

  -- The builtin macros `%date%` and `%time%`.
  unfoldable pub include_macro : Bytes → Location → Lexer → Lexer
  include_macro a loc lx =
      let path = lx.input.path ++ (codes ":{$I " ++ (a ++ codes "}")) in
      if same (lower a) (codes "%date%")
      then push_input (record { path = path; contents = codes "'1970-01-01'" }) lx
      else if same (lower a) (codes "%time%")
      then push_input (record { path = path; contents = codes "'00:00:00'" }) lx
      else report (report_error loc (unsupported_include_macro a)) lx

  unfoldable pub include_named : Bytes → Location → Lexer → Lexer
  include_named a loc lx = include_file a loc (resolve_include lx.input.path (with_extension a)) lx

  unfoldable pub do_include : Bytes → Location → Lexer → Lexer
  do_include arg loc lx =
      let a = trim arg in
      if is_empty a
      then report (report_error loc empty_include) lx
      else if enclosed_by b'%' a
      then include_macro a loc lx
      else include_named (if enclosed_by b'\'' a then inner a else a) loc lx
