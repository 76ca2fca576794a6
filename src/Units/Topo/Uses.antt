-- ===== src/Units/Topo/Uses.antt =====
-- The graph of `topo_sort` has an edge for each unit that is used.
use mathlib.Core.Path.{subst}
use tp2cc.Prelude.{
  Bool, Bool-cases, Bytes, List, Option, [], ap, arith, if_ind, inl, inr, map, none, not, same,
  same_iff, same_refl, some, sym, true, ◌&&◌, ◌||◌, ◌∙◌, ◌∷◌, ◌≡◌,
}
use tp2cc.Text.{lower}
use tp2cc.Makefile.{contains}
use tp2cc.Units.{ParsedUnit, UnitNode, Units, find_unit, has_unit}
use tp2cc.Units.Topo.{
  Degrees, Dependencies, add_topo_dependency, add_unit, add_units, add_uses, dependencies_of,
  insert_dependency, no_degrees, unit_graph,
}
use tp2cc.Units.Topo.Degrees.{contains-append}

abbrev has_edge : Bytes → Bytes → Dependencies × Degrees → Bool
has_edge u d g = contains d (dependencies_of u g.0)

pub contains-insert_dependency :
    (u d from to : Bytes) (deps : Dependencies)
    → contains d (dependencies_of u (insert_dependency from to deps))
      ≡ (contains d (dependencies_of u deps) || (same u from && same d to))
unfolding insert_dependency dependencies_of contains
contains-insert_dependency u d from to [] = ground arith
contains-insert_dependency u d from to ((k, ds) ∷ deps) = ground (
  arith,
  contains-insert_dependency u d from to deps,
  contains-append d to ds,
  same_iff from k,
  same_iff u from,
  same_iff u k,
)

add_topo_dependency-keeps :
    (u d : Bytes) (units : Units) (from to : Bytes) (g : Dependencies × Degrees)
    → has_edge u d g ≡ true
    → has_edge u d (add_topo_dependency units from to g) ≡ true
unfolding add_topo_dependency
add_topo_dependency-keeps u d units from to (deps, indeg) h =
    if_ind (λ g. has_edge u d g ≡ true)
      (not (has_unit (lower to) units) || contains (lower to) (dependencies_of from deps)) (λ _. h)
      (λ _. ground (arith, contains-insert_dependency u d from (lower to) deps))

add_topo_dependency-adds :
    (units : Units) (from to : Bytes) (g : Dependencies × Degrees)
    → has_unit (lower to) units ≡ true
    → has_edge from (lower to) (add_topo_dependency units from to g) ≡ true
unfolding add_topo_dependency
add_topo_dependency-adds units from to (deps, indeg) h =
    if_ind (λ g. has_edge from (lower to) g ≡ true)
      (not (has_unit (lower to) units) || contains (lower to) (dependencies_of from deps))
      (λ e. ground arith)
      (λ e. ground (
        arith,
        contains-insert_dependency from (lower to) from (lower to) deps,
        same_refl from,
        same_refl (lower to),
      ))

add_uses-keeps :
    (u d : Bytes) (units : Units) (from : Bytes) (uses : List Bytes) (g : Dependencies × Degrees)
    → has_edge u d g ≡ true
    → has_edge u d (add_uses units from uses g) ≡ true
unfolding add_uses
add_uses-keeps u d units from [] g h = h
add_uses-keeps u d units from (to ∷ uses) g h =
    add_uses-keeps u d units from uses (add_topo_dependency units from to g)
      (add_topo_dependency-keeps u d units from to g h)

used_edge :
    (d : Bytes) (units : Units) (from to : Bytes) (g : Dependencies × Degrees)
    → same d (lower to) ≡ true
    → has_unit d units ≡ true
    → has_edge from d (add_topo_dependency units from to g) ≡ true
used_edge d units from to g e h =
    let q = (same_iff d (lower to)).0 e in
    subst (λ x. has_edge from x (add_topo_dependency units from to g) ≡ true) (sym q)
      (add_topo_dependency-adds units from to g (subst (λ x. has_unit x units ≡ true) q h))

add_uses-adds :
    (d : Bytes) (units : Units) (from : Bytes) (uses : List Bytes) (g : Dependencies × Degrees)
    → has_unit d units ≡ true
    → contains d (map lower uses) ≡ true
    → has_edge from d (add_uses units from uses g) ≡ true
unfolding add_uses contains
add_uses-adds d units from [] g h c = cc
add_uses-adds d units from (to ∷ uses) g h c = elim (Bool-cases (same d (lower to))) [
  | inl e ↦
      add_uses-keeps from d units from uses (add_topo_dependency units from to g)
        (used_edge d units from to g e h)
  | inr n ↦ add_uses-adds d units from uses (add_topo_dependency units from to g) h (ground arith)
]

-- The units that a unit waits for: those that its interface uses, and those that a program uses.
abbrev pub waits_for : UnitNode → Bytes → Bool
waits_for ast d =
    contains d (map lower ast.interface_uses)
    || (ast.is_program && contains d (map lower ast.impl_uses))

add_unit-keeps :
    (u d : Bytes) (units : Units) (name : Bytes) (ast : Option UnitNode)
    (g : Dependencies × Degrees)
    → has_edge u d g ≡ true
    → has_edge u d (add_unit units name ast g) ≡ true
unfolding add_unit
add_unit-keeps u d units name none g h = h
add_unit-keeps u d units name (some ast) g h =
    let declared = add_uses-keeps u d units name ast.interface_uses g h in
    if_ind (λ g. has_edge u d g ≡ true) ast.is_program
      (λ _. add_uses-keeps u d units name ast.impl_uses _ declared) (λ _. declared)

add_unit-adds :
    (d : Bytes) (units : Units) (name : Bytes) (ast : UnitNode) (g : Dependencies × Degrees)
    → has_unit d units ≡ true
    → waits_for ast d ≡ true
    → has_edge name d (add_unit units name (some ast) g) ≡ true
unfolding add_unit
add_unit-adds d units name ast g h w =
    let declared = add_uses units name ast.interface_uses g in
    if_ind (λ g. has_edge name d g ≡ true) ast.is_program
      (λ p. elim (Bool-cases (contains d (map lower ast.interface_uses))) [
        | inl c ↦
            add_uses-keeps name d units name ast.impl_uses declared
              (add_uses-adds d units name ast.interface_uses g h c)
        | inr c ↦ add_uses-adds d units name ast.impl_uses declared h (ground arith)
      ])
      (λ p. add_uses-adds d units name ast.interface_uses g h (ground arith))

add_units-keeps :
    (u d : Bytes) (units rest : Units) (g : Dependencies × Degrees)
    → has_edge u d g ≡ true
    → has_edge u d (add_units units rest g) ≡ true
unfolding add_units
add_units-keeps u d units [] g h = h
add_units-keeps u d units ((name, pu) ∷ rest) g h =
    add_units-keeps u d units rest (add_unit units name pu.ast g)
      (add_unit-keeps u d units name pu.ast g h)

found_edge :
    (n d name : Bytes) (units : Units) (g : Dependencies × Degrees) (qu pu : ParsedUnit)
    (ast : UnitNode)
    → has_unit d units ≡ true
    → n ≡ name
    → some qu ≡ some pu
    → pu.ast ≡ some ast
    → waits_for ast d ≡ true
    → has_edge n d (add_unit units name qu.ast g) ≡ true
found_edge n d name units g qu pu ast h e f a w =
    let same_unit : qu ≡ pu = cc in
    let parsed : qu.ast ≡ some ast = ap (λ u. u.ast) same_unit ∙ a in
    subst (λ x. has_edge x d (add_unit units name qu.ast g) ≡ true) (sym e)
      (subst (λ x. has_edge name d (add_unit units name x g) ≡ true) (sym parsed)
        (add_unit-adds d units name ast g h w))

add_units-adds :
    (n d : Bytes) (units rest : Units) (g : Dependencies × Degrees) (pu : ParsedUnit)
    (ast : UnitNode)
    → has_unit d units ≡ true
    → find_unit n rest ≡ some pu
    → pu.ast ≡ some ast
    → waits_for ast d ≡ true
    → has_edge n d (add_units units rest g) ≡ true
unfolding add_units find_unit
add_units-adds n d units [] g pu ast h f a w = absurd (cc)
add_units-adds n d units ((name, qu) ∷ rest) g pu ast h f a w =
    let next = add_unit units name qu.ast g in
    if_ind (λ o. o ≡ some pu → has_edge n d (add_units units rest next) ≡ true) (same n name)
      (λ e p.
        add_units-keeps n d units rest next
          (found_edge n d name units g qu pu ast h ((same_iff n name).0 e) p a w))
      (λ e p. add_units-adds n d units rest next pu ast h p a w) f

pub unit_graph-edge :
    (n d : Bytes) (units : Units) (pu : ParsedUnit) (ast : UnitNode)
    → has_unit d units ≡ true
    → find_unit n units ≡ some pu
    → pu.ast ≡ some ast
    → waits_for ast d ≡ true
    → contains d (dependencies_of n (unit_graph units).0) ≡ true
unfolding unit_graph
unit_graph-edge n d units pu ast h f a w =
    add_units-adds n d units units ([], no_degrees units) pu ast h f a w
