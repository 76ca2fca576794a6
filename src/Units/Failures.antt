-- ===== src/Units/Failures.antt =====
-- The end of `discover_from_entry` in src/units.cc: a unit that uses a failed unit fails too. A
-- round goes over the table; `seen` is what it has behind it, in the order of the table.
pub mod Settled
pub mod Tracks
pub mod Spread
use tp2cc.Prelude.{
  Bool, Bytes, List, Option, [], false, if◌then◌else◌, length, none, not, some, suc, true, zero, ℕ,
  ◌&&◌, ◌++◌, ◌||◌, ◌∷◌,
}
use tp2cc.Text.{lower}
use tp2cc.Units.{ParsedUnit, UnitNode, Units, find_unit}

abbrev pub is_failed : Option ParsedUnit → Bool
is_failed none = false
is_failed (some u) = not u.ok

-- `dependency_failed`
unfoldable pub dependency_failed : Units → List Bytes → Bool
dependency_failed units [] = false
dependency_failed units (dep ∷ uses) =
    is_failed (find_unit (lower dep) units) || dependency_failed units uses

abbrev pub uses_failed : Units → Option UnitNode → Bool
uses_failed units none = false
uses_failed units (some ast) =
    dependency_failed units ast.interface_uses || dependency_failed units ast.impl_uses

-- Whether the round fails this unit.
unfoldable pub fails_now : Units → ParsedUnit → Bool
fails_now units u = u.ok && uses_failed units u.ast

-- The rest of a round: the table, and `changed`.
unfoldable pub fail_dependents : Units → Units → Bool → Units × Bool
fail_dependents seen [] changed = (seen, changed)
fail_dependents seen ((k, u) ∷ rest) changed =
    let failed = fail_dependents (seen ++ ((k, record u { ok = false }) ∷ [])) rest true in
    let kept = fail_dependents (seen ++ ((k, u) ∷ [])) rest changed in
    if fails_now (seen ++ ((k, u) ∷ rest)) u then failed else kept

-- `do … while (changed)`; `none` is fuel that ran out.
unfoldable pub fail_rounds : ℕ → Units → Option Units
fail_rounds zero units = none
fail_rounds (suc fuel) units =
    let round = fail_dependents [] units false in
    let rest = fail_rounds fuel round.0 in if round.1 then rest else some round.0

-- Each round that goes on fails a unit of the table.
unfoldable pub propagate_failures : Units → Option Units
propagate_failures units = fail_rounds (suc (length units)) units
