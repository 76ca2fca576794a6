-- ===== src/Units/Topo/Graph.antt =====
-- The graph that `topo_sort` builds: a unit has as many dependencies as its degree.
use tp2cc.Text.{lower}
use tp2cc.Prelude.{
  Bool, Bytes, List, Option, [], arith, false, if_ind, if◌then◌else◌, length, length-append, map,
  none, not, refl, same, same_iff, some, sym, true, ℕ, ◌&&◌, ◌+◌, ◌==◌, ◌||◌, ◌∷◌, ◌≡◌, ◌≤◌,
}
use tp2cc.Makefile.{contains}
use tp2cc.Units.{UnitNode, Units, has_unit}
use tp2cc.Units.Topo.{
  Degrees, Dependencies, add_topo_dependency, add_unit, add_units, add_uses, dependencies_of,
  insert_dependency, no_degrees, raise_degree, unit_graph, zero_degree,
}
use tp2cc.Units.Topo.Degrees.{contains-same, count, degree, key_count, one_if}

abbrev pub entry_count : Bytes → Degrees → ℕ
entry_count u [] = 0
entry_count u ((k, d) ∷ indeg) = one_if (same u k) + entry_count u indeg

abbrev pub name_count : Bytes → Units → ℕ
name_count u [] = 0
name_count u ((k, pu) ∷ units) = one_if (same u k) + name_count u units

-- What the graph keeps for the unit `u`.
abbrev pub IsCounted : Bytes → Dependencies × Degrees → Type 0
IsCounted u (deps, indeg) =
    (key_count u deps ≤ 1)
    × (entry_count u indeg ≤ 1)
    × (length (dependencies_of u deps) ≡ degree u indeg)

key_count-insert_dependency :
    (u from to : Bytes) (deps : Dependencies)
    → key_count u (insert_dependency from to deps)
      ≡ (if same u from && key_count u deps == 0 then 1 else key_count u deps)
unfolding insert_dependency
key_count-insert_dependency u from to [] = ground arith
key_count-insert_dependency u from to ((k, ds) ∷ deps) = ground (
  arith,
  key_count-insert_dependency u from to deps,
  same_iff from k,
  same_iff u from,
  same_iff u k,
)

length-insert_dependency :
    (u from to : Bytes) (deps : Dependencies)
    → length (dependencies_of u (insert_dependency from to deps))
      ≡ length (dependencies_of u deps) + one_if (same u from)
unfolding insert_dependency dependencies_of
length-insert_dependency u from to [] = ground arith
length-insert_dependency u from to ((k, ds) ∷ deps) = ground (
  arith,
  length-insert_dependency u from to deps,
  length-append ds (to ∷ []),
  same_iff from k,
  same_iff u from,
  same_iff u k,
)

degree-raise_degree :
    (u key : Bytes) (indeg : Degrees)
    → degree u (raise_degree key indeg) ≡ degree u indeg + one_if (same u key)
unfolding raise_degree
degree-raise_degree u key [] = ground arith
degree-raise_degree u key ((k, d) ∷ indeg) =
    ground (arith, degree-raise_degree u key indeg, same_iff key k, same_iff u key, same_iff u k)

pub entry_count-raise_degree :
    (u key : Bytes) (indeg : Degrees)
    → entry_count u (raise_degree key indeg)
      ≡ (if same u key && entry_count u indeg == 0 then 1 else entry_count u indeg)
unfolding raise_degree
entry_count-raise_degree u key [] = ground arith
entry_count-raise_degree u key ((k, d) ∷ indeg) =
    ground
      (arith, entry_count-raise_degree u key indeg, same_iff key k, same_iff u key, same_iff u k)

inserted_IsCounted :
    (u from to : Bytes) (deps : Dependencies) (indeg : Degrees)
    → IsCounted u (deps, indeg)
    → IsCounted u (insert_dependency from to deps, raise_degree from indeg)
inserted_IsCounted u from to deps indeg h = (
  ground (arith, key_count-insert_dependency u from to deps),
  ground (arith, entry_count-raise_degree u from indeg),
  omega (arith, length-insert_dependency u from to deps, degree-raise_degree u from indeg),
)

add_topo_dependency-IsCounted :
    (u : Bytes) (units : Units) (from to : Bytes) (g : Dependencies × Degrees)
    → IsCounted u g
    → IsCounted u (add_topo_dependency units from to g)
unfolding add_topo_dependency
add_topo_dependency-IsCounted u units from to (deps, indeg) h =
    if_ind (IsCounted u)
      (not (has_unit (lower to) units) || contains (lower to) (dependencies_of from deps)) (λ _. h)
      (λ _. inserted_IsCounted u from (lower to) deps indeg h)

add_uses-IsCounted :
    (u : Bytes) (units : Units) (from : Bytes) (uses : List Bytes) (g : Dependencies × Degrees)
    → IsCounted u g
    → IsCounted u (add_uses units from uses g)
unfolding add_uses
add_uses-IsCounted u units from [] g h = h
add_uses-IsCounted u units from (to ∷ uses) g h =
    add_uses-IsCounted u units from uses (add_topo_dependency units from to g)
      (add_topo_dependency-IsCounted u units from to g h)

add_unit-IsCounted :
    (u : Bytes) (units : Units) (name : Bytes) (ast : Option UnitNode) (g : Dependencies × Degrees)
    → IsCounted u g
    → IsCounted u (add_unit units name ast g)
unfolding add_unit
add_unit-IsCounted u units name none g h = h
add_unit-IsCounted u units name (some ast) g h =
    let declared = add_uses-IsCounted u units name ast.interface_uses g h in
    if_ind (IsCounted u) ast.is_program
      (λ _. add_uses-IsCounted u units name ast.impl_uses _ declared) (λ _. declared)

add_units-IsCounted :
    (u : Bytes) (units rest : Units) (g : Dependencies × Degrees)
    → IsCounted u g
    → IsCounted u (add_units units rest g)
unfolding add_units
add_units-IsCounted u units [] g h = h
add_units-IsCounted u units ((name, pu) ∷ rest) g h =
    add_units-IsCounted u units rest (add_unit units name pu.ast g)
      (add_unit-IsCounted u units name pu.ast g h)

pub entry_count-no_degrees :
    (u : Bytes) (units : Units) → entry_count u (no_degrees units) ≡ name_count u units
unfolding no_degrees
entry_count-no_degrees u [] = refl
entry_count-no_degrees u ((k, pu) ∷ units) = omega (arith, entry_count-no_degrees u units)

degree-no_degrees : (u : Bytes) (units : Units) → degree u (no_degrees units) ≡ 0
unfolding no_degrees
degree-no_degrees u [] = refl
degree-no_degrees u ((k, pu) ∷ units) = ground (arith, degree-no_degrees u units)

-- The keys of the table are different, as in a map.
abbrev pub names : Units → List Bytes
names units = map (λ e. e.0) units

abbrev pub are_distinct : List Bytes → Bool
are_distinct [] = true
are_distinct (x ∷ xs) = not (contains x xs) && are_distinct xs

name_count-zero :
    (u : Bytes) (units : Units) → contains u (names units) ≡ false → name_count u units ≡ 0
unfolding contains
name_count-zero u [] h = refl
name_count-zero u ((k, pu) ∷ units) h = ground (arith, name_count-zero u units)

name_count-le :
    (u : Bytes) (units : Units) → are_distinct (names units) ≡ true → name_count u units ≤ 1
name_count-le u [] h = omega arith
name_count-le u ((k, pu) ∷ units) h = ground (
  arith,
  name_count-le u units,
  name_count-zero u units,
  contains-same u k (names units),
  same_iff k u,
  same_iff u k,
)

pub unit_graph-IsCounted :
    (u : Bytes) (units : Units) → are_distinct (names units) ≡ true → IsCounted u (unit_graph units)
unfolding unit_graph dependencies_of
unit_graph-IsCounted u units h =
    add_units-IsCounted u units units ([], no_degrees units)
      (
        omega arith,
        omega (arith, entry_count-no_degrees u units, name_count-le u units h),
        sym (degree-no_degrees u units),
      )

no_zero_degree :
    (u : Bytes) (indeg : Degrees) → entry_count u indeg ≡ 0 → count u (zero_degree indeg) ≡ 0
unfolding zero_degree
no_zero_degree u [] h = refl
no_zero_degree u ((k, d) ∷ indeg) h = ground (arith, no_zero_degree u indeg)

-- The first units that are ready.
pub count-zero_degree :
    (u : Bytes) (indeg : Degrees)
    → entry_count u indeg ≤ 1
    → count u (zero_degree indeg) ≤ one_if (degree u indeg == 0)
unfolding zero_degree
count-zero_degree u [] h = omega arith
count-zero_degree u ((k, d) ∷ indeg) h =
    ground (arith, count-zero_degree u indeg, no_zero_degree u indeg)
