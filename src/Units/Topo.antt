-- ===== src/Units/Topo.antt =====
-- `add_topo_dependency` and `topo_sort` of src/units.cc. An unordered map or set is the list of its
-- entries in the order in which they were added; `none` of `kahn` is fuel that ran out.
pub mod Total
pub mod Degrees
pub mod Graph
pub mod Settled
pub mod Edges
pub mod Followed
pub mod Complete
pub mod Order
pub mod Uses
use tp2cc.Prelude.{
  Bool, Bytes, List, Option, [], false, if◌then◌else◌, is_empty, length, ltb, none, not, same, some,
  suc, zero, ℕ, ◌++◌, ◌+◌, ◌-◌, ◌==◌, ◌||◌, ◌∷◌,
}
use tp2cc.Text.{lower}
use tp2cc.Makefile.{contains, sort}
use tp2cc.Units.{UnitNode, Units, has_unit}

abbrev pub Dependencies : Type 0
Dependencies = List (Bytes × List Bytes)

abbrev pub Degrees : Type 0
Degrees = List (Bytes × ℕ)

-- `deps[from]`
unfoldable pub dependencies_of : Bytes → Dependencies → List Bytes
dependencies_of key [] = []
dependencies_of key ((k, ds) ∷ deps) = if same key k then ds else dependencies_of key deps

-- `deps[from].insert(to)`, for a `to` that is new.
unfoldable pub insert_dependency : Bytes → Bytes → Dependencies → Dependencies
insert_dependency from to [] = (from, to ∷ []) ∷ []
insert_dependency from to ((k, ds) ∷ deps) =
    let rest = insert_dependency from to deps in
    if same from k then (k, ds ++ (to ∷ [])) ∷ deps else (k, ds) ∷ rest

-- `indeg[from] += 1`
unfoldable pub raise_degree : Bytes → Degrees → Degrees
raise_degree key [] = (key, 1) ∷ []
raise_degree key ((k, d) ∷ indeg) =
    let rest = raise_degree key indeg in if same key k then (k, d + 1) ∷ indeg else (k, d) ∷ rest

unfoldable pub add_topo_dependency :
    Units → Bytes → Bytes → Dependencies × Degrees → Dependencies × Degrees
add_topo_dependency units from to (deps, indeg) =
    if not (has_unit (lower to) units) || contains (lower to) (dependencies_of from deps)
    then (deps, indeg)
    else (insert_dependency from (lower to) deps, raise_degree from indeg)

unfoldable pub add_uses :
    Units → Bytes → List Bytes → Dependencies × Degrees → Dependencies × Degrees
add_uses units from [] graph = graph
add_uses units from (to ∷ uses) graph =
    add_uses units from uses (add_topo_dependency units from to graph)

unfoldable pub add_unit :
    Units → Bytes → Option UnitNode → Dependencies × Degrees → Dependencies × Degrees
add_unit units name none graph = graph
add_unit units name (some ast) graph =
    let declared = add_uses units name ast.interface_uses graph in
    if ast.is_program then add_uses units name ast.impl_uses declared else declared

-- The two loops that build the graph
unfoldable pub no_degrees : Units → Degrees
no_degrees [] = []
no_degrees ((name, pu) ∷ rest) = (name, 0) ∷ no_degrees rest

unfoldable pub add_units : Units → Units → Dependencies × Degrees → Dependencies × Degrees
add_units units [] graph = graph
add_units units ((name, pu) ∷ rest) graph = add_units units rest (add_unit units name pu.ast graph)

unfoldable pub unit_graph : Units → Dependencies × Degrees
unit_graph units = add_units units units ([], no_degrees units)

-- The units whose degree is 0
unfoldable pub zero_degree : Degrees → List Bytes
zero_degree [] = []
zero_degree ((name, d) ∷ indeg) =
    let rest = zero_degree indeg in if d == 0 then name ∷ rest else rest

-- `reverse[n]`: the units that depend on `n`
unfoldable pub dependents : Bytes → Dependencies → List Bytes
dependents n [] = []
dependents n ((from, tos) ∷ deps) =
    let rest = dependents n deps in if contains n tos then from ∷ rest else rest

-- `--d` where it is positive, and whether the degree came to 0.
unfoldable pub lower_degree : Bytes → Degrees → Degrees × Bool
lower_degree dep [] = ([], false)
lower_degree dep ((k, d) ∷ indeg) =
    let rest = lower_degree dep indeg in
    if same dep k
    then (if ltb 0 d then ((k, d - 1) ∷ indeg, d - 1 == 0) else ((k, d) ∷ indeg, false))
    else ((k, d) ∷ rest.0, rest.1)

-- The state of the loop `while (!ready.empty())`
pub record Kahn : Type 0 where
  pub ready : List Bytes
  pub order : List Bytes
  pub indeg : Degrees

-- The loop on `it->second`
unfoldable pub release : List Bytes → Kahn → Kahn
release [] s = s
release (dep ∷ deps) s =
    let (indeg, became_zero) = lower_degree dep s.indeg in
    release deps
      record s { indeg = indeg; ready = if became_zero then s.ready ++ (dep ∷ []) else s.ready }

unfoldable pub emit_unit : Dependencies → List Bytes → Kahn → Kahn
emit_unit deps [] s = s
emit_unit deps (n ∷ ready) s =
    release (dependents n deps) record s { ready = ready; order = s.order ++ (n ∷ []) }

unfoldable pub kahn : Dependencies → ℕ → Kahn → Option Kahn
kahn deps zero s = if is_empty s.ready then some s else none
kahn deps (suc fuel) s =
    let rest = kahn deps fuel (emit_unit deps (sort s.ready) s) in
    if is_empty s.ready then some s else rest

-- The edges of the units that are left
unfoldable pub edges_from : Bytes → List Bytes → List (Bytes × Bytes)
edges_from name [] = []
edges_from name (dep ∷ deps) = (name, dep) ∷ edges_from name deps

unfoldable pub left_edges : Dependencies → Degrees → List (Bytes × Bytes)
left_edges deps [] = []
left_edges deps ((name, d) ∷ indeg) =
    let rest = left_edges deps indeg in
    if ltb 0 d then edges_from name (dependencies_of name deps) ++ rest else rest

-- `TopoResult`
pub record TopoResult : Type 0 where
  pub order : List Bytes
  pub cycle_edges : List (Bytes × Bytes)

unfoldable pub topo_result : Dependencies → Option Kahn → Option TopoResult
topo_result deps none = none
topo_result deps (some s) = some record { order = s.order; cycle_edges = left_edges deps s.indeg }

unfoldable pub run_kahn : Units → Option Kahn
run_kahn units =
    let (deps, indeg) = unit_graph units in
    kahn deps (length indeg) record { ready = sort (zero_degree indeg); order = []; indeg = indeg }

unfoldable pub topo_sort : Units → Option TopoResult
topo_sort units = topo_result ((unit_graph units).0) (run_kahn units)
