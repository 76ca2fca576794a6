-- ===== src/Makefile.antt =====
-- The Makefile that is written beside the emitted sources (src/emit_makefile.cc). A stream is
-- the bytes written to it.
pub mod Order
pub mod Sorted
pub mod Shell
use Prim.Native.String.{String}
use tp2cc.Prelude.{
  Bool, Bytes, List, [], codes, false, if◌then◌else◌, is_empty, not, same, ℕ, ◌&&◌, ◌++◌, ◌==◌,
  ◌||◌, ◌∷◌,
}
use tp2cc.Makefile.Order.{less}

-- `EmittedBuildManifest`
pub record EmittedBuildManifest : Type 0 where
  pub cc_sources : List Bytes
  pub headers : List Bytes
  pub pas_sources : List Bytes
  pub tp2cc_program : Bytes
  pub include_dirs : List Bytes
  pub tp2cc_args : List Bytes
  pub program_name : Bytes

-- The `std::sort` and the `std::unique` of `sort_unique`, on the order and the equality of
-- `std::string`. `std::unique` compares with the last item that it has kept.
unfoldable pub insert_sorted : Bytes → List Bytes → List Bytes
insert_sorted x [] = x ∷ []
insert_sorted x (y ∷ ys) =
    let rest = insert_sorted x ys in if less y x then y ∷ rest else x ∷ y ∷ ys

unfoldable pub sort : List Bytes → List Bytes
sort [] = []
sort (x ∷ xs) = insert_sorted x (sort xs)

unfoldable pub unique_from : Bytes → List Bytes → List Bytes
unique_from last [] = last ∷ []
unique_from last (x ∷ xs) = if same last x then unique_from last xs else last ∷ unique_from x xs

unfoldable pub unique : List Bytes → List Bytes
unique [] = []
unique (x ∷ xs) = unique_from x xs

unfoldable pub sort_unique : List Bytes → List Bytes
sort_unique items = unique (sort items)

-- `std::find(...) != end()`
unfoldable pub contains : Bytes → List Bytes → Bool
contains k [] = false
contains k (x ∷ xs) = same k x || contains k xs

-- The loop on `include_dirs`
unfoldable pub push_new_dirs : List Bytes → List Bytes → List Bytes
push_new_dirs seen [] = seen
push_new_dirs seen (dir ∷ dirs) =
    push_new_dirs (if contains dir seen then seen else seen ++ (dir ∷ [])) dirs

-- The loop of `write_list`: a line for each item, every line but the last continued.
unfoldable pub write_items : List Bytes → Bytes
write_items [] = []
write_items (x ∷ xs) =
    codes "  " ++ (x ++ ((if is_empty xs then codes "\n" else codes " \\\n") ++ write_items xs))

unfoldable pub write_list : String → List Bytes → Bytes
write_list name items =
    codes name
    ++ (codes " :=" ++ (if is_empty items then codes "\n" else codes " \\\n" ++ write_items items))

unfoldable pub quote_char : ℕ → Bytes
quote_char c = if c == b'\'' then codes "'\"'\"'" else c ∷ []

unfoldable pub quote_chars : Bytes → Bytes
quote_chars [] = []
quote_chars (c ∷ s) = quote_char c ++ quote_chars s

unfoldable pub shell_quote : Bytes → Bytes
shell_quote s = b'\'' ∷ (quote_chars s ++ (b'\'' ∷ []))

-- `out << ' ' << shell_quote(arg)` for each argument
unfoldable pub write_args : List Bytes → Bytes
write_args [] = []
write_args (arg ∷ args) = b' ' ∷ (shell_quote arg ++ write_args args)

-- `out << " -I" << dir` for each directory
unfoldable pub write_dirs : List Bytes → Bytes
write_dirs [] = []
write_dirs (dir ∷ dirs) = codes " -I" ++ (dir ++ write_dirs dirs)

-- A list of texts, one after the other
abbrev pub lines : List Bytes → Bytes
lines [] = []
lines (x ∷ xs) = x ++ lines xs

abbrev when_not : Bool → Bytes → Bytes
when_not b text = if b then [] else text

-- The rule that runs tp2cc again
unfoldable pub regeneration_rule : List Bytes → List Bytes → Bytes
regeneration_rule pas_sources tp2cc_args =
    if not (is_empty pas_sources) && not (is_empty tp2cc_args)
    then codes "$(CC_SRCS) $(HDRS): $(PAS_SRCS)\n"
      ++ (codes "\t$(TP2CC)" ++ (write_args tp2cc_args ++ codes "\n\n"))
    else []

unfoldable pub emit_makefile : EmittedBuildManifest → Bytes
emit_makefile manifest =
    let no_program = is_empty manifest.program_name in
    lines (
      codes "# generated by tp2cc\n"
      ∷ codes "# Regeneration rules intentionally omit -m so normal Pascal source\n"
      ∷ codes "# updates do not rewrite this generated Makefile and trigger GNU make's\n"
      ∷ codes "# makefile-remake restart path.\n"
      ∷ codes "# The runtime header lives under include/tp2cc_rt both in-tree and\n"
      ∷ codes "# after install; use the concrete include roots captured when tp2cc\n"
      ∷ codes "# generated this file.\n"
      ∷ codes "CXX = g++\n"
      ∷ codes "CC = gcc\n"
      ∷ codes "TP2CC = "
      ∷ (if is_empty manifest.tp2cc_program then codes "tp2cc" else manifest.tp2cc_program)
      ∷ codes "\n"
      ∷ codes "CPPFLAGS = -I."
      ∷ write_dirs (push_new_dirs [] manifest.include_dirs)
      ∷ codes "\n"
      ∷ codes "CXXFLAGS = -std=gnu++20 -O0 -pipe -Wno-narrowing\n"
      ∷ codes "CFLAGS = -std=gnu11 -O0 -pipe\n"
      ∷ codes "EXTRA_OBJS =\n"
      ∷ codes "LDFLAGS =\n"
      ∷ codes "LDLIBS = -lm\n\n"
      ∷ write_list "CC_SRCS" (sort_unique manifest.cc_sources)
      ∷ write_list "HDRS" (sort_unique manifest.headers)
      ∷ write_list "PAS_SRCS" (sort_unique manifest.pas_sources)
      ∷ codes "CC_OBJS := $(CC_SRCS:.cc=.o)\n"
      ∷ when_not no_program (codes "PROGRAM = " ++ (manifest.program_name ++ codes "\n"))
      ∷ codes "\n"
      ∷ codes ".PHONY: all objects clean\n"
      ∷ (if no_program then codes "all: objects\n" else codes "all: $(PROGRAM)\n")
      ∷ codes "objects: $(CC_OBJS)\n\n"
      ∷ regeneration_rule (sort_unique manifest.pas_sources) manifest.tp2cc_args
      ∷ codes "p_%.o: p_%.cc $(HDRS)\n"
      ∷ codes "\t$(CXX) $(CPPFLAGS) $(CXXFLAGS) -c $< -o $@\n\n"
      ∷ when_not no_program (
          codes "$(PROGRAM): $(CC_OBJS) $(EXTRA_OBJS)\n"
          ++ codes "\t$(CXX) $(CXXFLAGS) $(LDFLAGS) $^ $(LDLIBS) -o $@\n\n")
      ∷ codes "clean:\n"
      ∷ codes "\trm -f $(CC_OBJS)"
      ∷ when_not no_program (codes " $(PROGRAM)")
      ∷ codes "\n"
      ∷ [])
