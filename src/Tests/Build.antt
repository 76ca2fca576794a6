-- ===== src/Tests/Build.antt =====
-- The units and the Makefile on small inputs.
use tp2cc.Units.Failures.Spread.{AreMarked, propagate_failures-Fails}
use tp2cc.Units.Topo.Degrees.{degree}
use tp2cc.Units.Topo.Complete.{run_kahn-apart, topo_sort_complete}
use tp2cc.Prelude.{
  Bool, Bool-cases, Bytes, List, Option, [], ap, arith, codes, false, if◌then◌else◌, inl, inr,
  is_empty, ltb, map, none, not, refl, same, same_iff, some, true, ℕ, ◌++◌, ◌<◌, ◌==◌, ◌||◌, ◌∷◌,
  ◌≡◌,
}
use tp2cc.Text.{
  hex_val, is_alnum, is_digit, is_hex, is_ident_cont, is_ident_start, is_space, lower, lower_char,
  skip_blanks, skip_bom, trim, trim_front,
}
use tp2cc.RuntimeUnits.{
  base_unix_exports, dos_exports, first_model, has_runtime_unit_model, linux_exports, models,
  runtime_unit_model, strings_exports, sysutils_exports, unix_exports,
}
use tp2cc.Makefile.{
  contains, emit_makefile, insert_sorted, push_new_dirs, quote_char, quote_chars, regeneration_rule,
  shell_quote, sort, sort_unique, unique, unique_from, write_args, write_dirs, write_items,
  write_list,
}
use tp2cc.Makefile.Order.{less}
use tp2cc.Makefile.Sorted.{StrictlyAscending, sort_unique-StrictlyAscending}
use tp2cc.Makefile.Shell.{IsLiteral, between, words-write_args, words_from}
use tp2cc.Units.{ParsedUnit, UnitNode, Units, find_unit, has_unit, lookup}
use tp2cc.Units.Search.{
  DirectoryEntry, build_unit_path_index, find_path, find_unit_path, has_root, index_entries,
  index_roots, index_unit_search_root, is_unit_file, try_emplace,
}
use tp2cc.Units.Search.First.{find_unit_path-search, search}
use tp2cc.Units.Failures.{
  dependency_failed, fail_dependents, fail_rounds, fails_now, propagate_failures,
}
use tp2cc.Units.Topo.{
  Kahn, add_topo_dependency, add_unit, add_units, add_uses, dependencies_of, dependents, edges_from,
  emit_unit, insert_dependency, kahn, left_edges, lower_degree, no_degrees, raise_degree, release,
  run_kahn, topo_result, topo_sort, unit_graph, zero_degree,
}

program : Unit {0}
unfolding same is_ident_start is_digit is_ident_cont is_hex hex_val is_alnum lower_char lower
    is_space trim_front trim skip_blanks skip_bom dos_exports linux_exports unix_exports
    base_unix_exports strings_exports sysutils_exports models first_model runtime_unit_model
    has_runtime_unit_model insert_sorted sort unique_from unique sort_unique contains push_new_dirs
    write_items write_list quote_char quote_chars shell_quote write_args write_dirs
    regeneration_rule emit_makefile less words_from find_unit has_unit lookup find_path try_emplace
    is_unit_file index_entries has_root index_unit_search_root index_roots build_unit_path_index
    find_unit_path dependencies_of insert_dependency raise_degree add_topo_dependency add_uses
    add_unit no_degrees add_units unit_graph zero_degree dependents lower_degree release emit_unit
    kahn edges_from left_edges topo_result run_kahn topo_sort dependency_failed fails_now
    fail_dependents fail_rounds propagate_failures
program = tt

abbrev names : List Bytes
names = codes "b" ∷ codes "a" ∷ codes "b" ∷ []

sorted_names : sort_unique names ≡ codes "a" ∷ codes "b" ∷ []
unfolding program
sorted_names = refl

sort_unique-StrictlyAscending_example :
    StrictlyAscending (sort_unique names)
    × (contains (codes "a") (sort_unique names) ≡ contains (codes "a") names)
sort_unique-StrictlyAscending_example = sort_unique-StrictlyAscending (codes "a") names

abbrev sample_args : List Bytes
sample_args = codes "-o" ∷ codes "it's here" ∷ [] ∷ []

-- The expansion of a recipe as far as a doubled `$` goes.
abbrev expand_dollars : Bytes → Bytes
expand_dollars [] = []
expand_dollars (c ∷ []) = c ∷ []
expand_dollars (c ∷ d ∷ s) = elim (c == b'$') [
  | true ↦ d ∷ expand_dollars s
  | false ↦ c ∷ expand_dollars (d ∷ s)
]

expand_literal : (line : Bytes) → IsLiteral line → expand_dollars line ≡ line
expand_literal [] h = refl
expand_literal (c ∷ []) h = refl
expand_literal (c ∷ d ∷ s) h =
    rw (no_dollar c h.0, expand_dollars) (ap (λ t. c ∷ t) (expand_literal (d ∷ s) h.1))
  where
    no_dollar : (c : ℕ) → not (c == b'$' || c == b'\n') ≡ true → (c == b'$') ≡ false
    no_dollar c h = ground arith

words-write_args_example :
    words_from between [] (expand_dollars (write_args sample_args)) ≡ some sample_args
words-write_args_example = words-write_args expand_dollars expand_literal sample_args (ground arith)

abbrev listing : Bytes → List DirectoryEntry
listing root =
    record {
      is_regular_file = true;
      extension = codes ".pas";
      stem = codes "Crt";
      path = root ++ codes "/Crt.pas";
    }
    ∷ []

find_unit_path-search_example :
    find_unit_path listing (codes "cwd") (codes "src") (codes "lib" ∷ []) (codes "CRT")
    ≡ search listing (lower (codes "CRT")) (codes "cwd" ∷ codes "src" ∷ codes "lib" ∷ [])
find_unit_path-search_example =
    find_unit_path-search listing (codes "cwd") (codes "src") (codes "lib" ∷ []) (codes "CRT")

abbrev unit_with : Bytes → List Bytes → List Bytes → Bool → Bytes × ParsedUnit
unit_with name declared used is_program = (
  name,
  record {
    name = name;
    ast = some record { interface_uses = declared; impl_uses = used; is_program = is_program };
    ok = true;
  },
)

abbrev sample_units : Units
sample_units =
    unit_with (codes "main") [] (codes "A" ∷ codes "b" ∷ []) true
    ∷ unit_with (codes "a") (codes "B" ∷ []) [] false
    ∷ unit_with (codes "b") [] (codes "a" ∷ []) false
    ∷ []

topo_sort-sample :
    topo_sort sample_units
    ≡ some record { order = codes "b" ∷ codes "a" ∷ codes "main" ∷ []; cycle_edges = [] }
unfolding program
topo_sort-sample = refl

-- Unit b failed; a and main use it.
abbrev failed_units : Units
failed_units =
    unit_with (codes "main") [] (codes "A" ∷ []) true
    ∷ unit_with (codes "a") (codes "B" ∷ []) [] false
    ∷ (codes "b", record { name = codes "b"; ast = none; ok = false })
    ∷ unit_with (codes "c") [] [] false
    ∷ []

abbrev parsed_flags : Option Units → List Bool
parsed_flags none = []
parsed_flags (some units) = map (λ (e : Bytes × ParsedUnit). e.1.ok) units

failures_spread : parsed_flags (propagate_failures failed_units) ≡ false ∷ false ∷ false ∷ true ∷ []
unfolding program
failures_spread = refl

propagate_failures-Fails_example :
    (t : Units) × (propagate_failures failed_units ≡ some t) × AreMarked failed_units failed_units t
propagate_failures-Fails_example = propagate_failures-Fails failed_units

run_kahn-apart_example :
    (r : Kahn) × (run_kahn sample_units ≡ some r)
    × (is_empty r.ready ≡ true)
    × ((u : Bytes)
        → has_unit u sample_units ≡ true
        → contains u r.order ≡ not (ltb 0 (degree u r.indeg)))
unfolding program
run_kahn-apart_example = run_kahn-apart sample_units refl

abbrev main_unit : UnitNode
main_unit = record {
  interface_uses = [];
  impl_uses = codes "A" ∷ codes "b" ∷ [];
  is_program = true;
}

-- A program that uses one unit.
abbrev two_units : Units
two_units =
    unit_with (codes "main") [] (codes "b" ∷ []) true ∷ unit_with (codes "b") [] [] false ∷ []

abbrev rank_of : Bytes → ℕ
rank_of v = if same v (codes "main") then 1 else 0

rank_falls :
    (v d : Bytes)
    → contains d (dependencies_of v (unit_graph two_units).0) ≡ true
    → rank_of d < rank_of v
unfolding program
rank_falls v d h = elim (Bool-cases (same v (codes "main"))) [
  | inl e ↦ ground (arith, same_iff d (codes "b"), same_iff d (codes "main"))
  | inr e ↦ ground arith
]

topo_sort_complete_example : contains (codes "main") (codes "b" ∷ codes "main" ∷ []) ≡ true
unfolding program
topo_sort_complete_example =
    topo_sort_complete two_units
      (record { order = codes "b" ∷ codes "main" ∷ []; cycle_edges = [] }) rank_of (codes "main")
      refl refl rank_falls refl
