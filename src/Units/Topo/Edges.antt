-- ===== src/Units/Topo/Edges.antt =====
-- What the graph of `topo_sort` keeps while its edges are added.
use tp2cc.Prelude.{
  Bool-cases, Bytes, List, Option, [], arith, false, if_ind, inl, inr, none, not, refl, same,
  same_iff, some, true, ◌&&◌, ◌+◌, ◌||◌, ◌∷◌, ◌≡◌, ◌≤◌,
}
use tp2cc.Text.{lower}
use tp2cc.Makefile.{contains}
use tp2cc.Units.{UnitNode, Units, has_unit}
use tp2cc.Units.Topo.{
  Degrees, Dependencies, add_topo_dependency, add_unit, add_units, add_uses, dependencies_of,
  insert_dependency, no_degrees, raise_degree, unit_graph,
}
use tp2cc.Units.Topo.Degrees.{count, count-append, one_if}
use tp2cc.Units.Topo.Graph.{
  entry_count, entry_count-no_degrees, entry_count-raise_degree, name_count,
}

abbrev Graph : Type 0
Graph = Dependencies × Degrees

-- Induction over the edges: each goes to a unit of the table, and is new.
module _ {ℓ} (P : Graph → Type ℓ) (units : Units)
    (edge : (from to : Bytes) (deps : Dependencies) (indeg : Degrees)
      → has_unit to units ≡ true
      → contains to (dependencies_of from deps) ≡ false
      → P (deps, indeg)
      → P (insert_dependency from to deps, raise_degree from indeg)) where
  add_topo_dependency_ind :
      (from to : Bytes) (g : Graph) → P g → P (add_topo_dependency units from to g)
  unfolding add_topo_dependency
  add_topo_dependency_ind from to (deps, indeg) h =
      if_ind P (not (has_unit (lower to) units) || contains (lower to) (dependencies_of from deps))
        (λ _. h) (λ e. edge from (lower to) deps indeg (ground arith) (ground arith) h)

  add_uses_ind :
      (from : Bytes) (uses : List Bytes) (g : Graph) → P g → P (add_uses units from uses g)
  unfolding add_uses
  add_uses_ind from [] g h = h
  add_uses_ind from (to ∷ uses) g h =
      add_uses_ind from uses (add_topo_dependency units from to g)
        (add_topo_dependency_ind from to g h)

  add_unit_ind :
      (name : Bytes) (ast : Option UnitNode) (g : Graph) → P g → P (add_unit units name ast g)
  unfolding add_unit
  add_unit_ind name none g h = h
  add_unit_ind name (some ast) g h =
      let declared = add_uses_ind name ast.interface_uses g h in
      if_ind P ast.is_program (λ _. add_uses_ind name ast.impl_uses _ declared) (λ _. declared)

  add_units_ind : (rest : Units) (g : Graph) → P g → P (add_units units rest g)
  unfolding add_units
  add_units_ind [] g h = h
  add_units_ind ((name, pu) ∷ rest) g h =
      add_units_ind rest (add_unit units name pu.ast g) (add_unit_ind name pu.ast g h)

pub count-zero : (n : Bytes) (ds : List Bytes) → contains n ds ≡ false → count n ds ≡ 0
unfolding contains
count-zero n [] h = refl
count-zero n (d ∷ ds) h = ground (arith, count-zero n ds)

count-insert_dependency :
    (u d from to : Bytes) (deps : Dependencies)
    → count d (dependencies_of u (insert_dependency from to deps))
      ≡ count d (dependencies_of u deps) + one_if (same u from && same d to)
unfolding insert_dependency dependencies_of
count-insert_dependency u d from to [] = ground arith
count-insert_dependency u d from to ((k, ds) ∷ deps) = ground (
  arith,
  count-insert_dependency u d from to deps,
  count-append d ds (to ∷ []),
  same_iff from k,
  same_iff u from,
  same_iff u k,
)

-- A dependency is listed once, and is a unit of the table; and a unit of the table has an entry.
abbrev pub IsRegular : Units → Bytes → Bytes → Graph → Type 0
IsRegular units u d g =
    (count d (dependencies_of u g.0) ≤ one_if (has_unit d units))
    × (one_if (has_unit u units) ≤ entry_count u g.1)

-- The new edge itself.
new_dependency :
    (units : Units) (u d from to : Bytes) (deps : Dependencies)
    → has_unit to units ≡ true
    → contains to (dependencies_of from deps) ≡ false
    → u ≡ from
    → d ≡ to
    → (count d (dependencies_of u deps) ≡ 0) × (has_unit d units ≡ true)
new_dependency units u d from to deps h c e f =
    rw (e, f) (count-zero to (dependencies_of from deps) c, h)

new_count :
    (units : Units) (u d from to : Bytes) (deps : Dependencies)
    → has_unit to units ≡ true
    → contains to (dependencies_of from deps) ≡ false
    → count d (dependencies_of u deps) ≤ one_if (has_unit d units)
    → count d (dependencies_of u (insert_dependency from to deps)) ≤ one_if (has_unit d units)
new_count units u d from to deps h c r =
    rw (count-insert_dependency u d from to deps) (elim (Bool-cases (same u from && same d to)) [
      | inl b ↦ ground (
        arith,
        new_dependency units u d from to deps h c ((same_iff u from).0 (ground arith))
            ((same_iff d to).0 (ground arith)),
      )
      | inr b ↦ ground arith
    ])

new_edge :
    (units : Units) (u d from to : Bytes) (deps : Dependencies) (indeg : Degrees)
    → has_unit to units ≡ true
    → contains to (dependencies_of from deps) ≡ false
    → IsRegular units u d (deps, indeg)
    → IsRegular units u d (insert_dependency from to deps, raise_degree from indeg)
new_edge units u d from to deps indeg h c r = (
  new_count units u d from to deps h c r.0,
  ground (arith, entry_count-raise_degree u from indeg),
)

has_unit-name_count : (u : Bytes) (units : Units) → one_if (has_unit u units) ≤ name_count u units
unfolding has_unit
has_unit-name_count u [] = omega arith
has_unit-name_count u ((k, pu) ∷ units) = ground (arith, has_unit-name_count u units)

pub unit_graph-IsRegular : (units : Units) (u d : Bytes) → IsRegular units u d (unit_graph units)
unfolding unit_graph dependencies_of
unit_graph-IsRegular units u d =
    add_units_ind (IsRegular units u d) units (new_edge units u d) units ([], no_degrees units)
      (omega arith, omega (arith, entry_count-no_degrees u units, has_unit-name_count u units))
