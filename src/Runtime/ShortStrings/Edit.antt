-- ===== src/Runtime/ShortStrings/Edit.antt =====
-- Insertion, deletion and the copy of a part.
use tp2cc.Prelude.{length, ℕ, ℤ, ◌+◌, ◌-◌, ◌≤◌}
use tp2cc.Runtime.ShortStrings.{ShortString, clamped, p_insert}

module _ (capacity : ℕ) (src dest : ShortString) (p : ℤ)
    (room : dest.length + src.length ≤ capacity) where
  abbrev result : ShortString
  result = p_insert capacity src dest p

  abbrev at : ℕ
  at = clamped p dest.length - 1
