-- ===== src/Units.antt =====
-- The units of a program (src/units.h, src/units.cc): their table, with the unit that the parser
-- gave for each as the lists that its graph reads. A map is the list of its entries.
pub mod Search
pub mod Topo
pub mod Failures
use tp2cc.Prelude.{Bool, Bytes, List, Option, [], false, if◌then◌else◌, none, same, some, ◌||◌, ◌∷◌}
use tp2cc.Text.{lower}

-- What `UnitGraph` reads of `ast::UnitNode`.
pub record UnitNode : Type 0 where
  pub interface_uses : List Bytes
  pub impl_uses : List Bytes
  pub is_program : Bool

-- `ParsedUnit`, the path aside; `ast` is `none` for the null pointer.
pub record ParsedUnit : Type 0 where
  pub name : Bytes
  pub ast : Option UnitNode
  pub ok : Bool

abbrev pub Units : Type 0
Units = List (Bytes × ParsedUnit)

-- `units_.find`
unfoldable pub find_unit : Bytes → Units → Option ParsedUnit
find_unit key [] = none
find_unit key ((k, u) ∷ units) = if same key k then some u else find_unit key units

-- `units_.count`
unfoldable pub has_unit : Bytes → Units → Bool
has_unit key [] = false
has_unit key ((k, u) ∷ units) = same key k || has_unit key units

-- `UnitGraph::lookup`
unfoldable pub lookup : Bytes → Units → Option ParsedUnit
lookup name units = find_unit (lower name) units
