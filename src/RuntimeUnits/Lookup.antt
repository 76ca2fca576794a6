-- ===== src/RuntimeUnits/Lookup.antt =====
-- What the lookup of a runtime unit finds.
use tp2cc.Prelude.{Bytes, List, Option, [], none, some, ◌∷◌, ◌≡◌}
use tp2cc.RuntimeUnits.{RuntimeUnitModel, first_model}

-- `o`, if it is a unit, is named `low`.
abbrev pub IsNamed : Bytes → Option RuntimeUnitModel → Type 0
IsNamed low none = Unit
IsNamed low (some m) = low ≡ m.name

-- Every unit of the list is found under its own name.
abbrev pub AllFound : List RuntimeUnitModel → List RuntimeUnitModel → Type 0
AllFound all [] = Unit
AllFound all (m ∷ ms) = (first_model m.name all ≡ some m) × AllFound all ms
