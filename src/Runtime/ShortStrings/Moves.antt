-- ===== src/Runtime/ShortStrings/Moves.antt =====
-- What the loops leave at each index of the array.
use tp2cc.Prelude.{arith, if◌then◌else◌, leb, ltb, suc, zero, ℕ, ◌&&◌, ◌+◌, ◌-◌, ◌≡◌, ◌≤◌}
use tp2cc.Runtime.ShortStrings.{Data, copy_in, move_down, move_up, store}

pub move_up_lem :
    (n low shift : ℕ) (bytes : Data) (j : ℕ)
    → shift ≤ low
    → move_up n low shift bytes j
      ≡ (if leb low j && ltb j (low + n) then bytes (j - shift) else bytes j)
unfolding move_up
move_up_lem zero low shift bytes j h = ground arith
move_up_lem (suc n) low shift bytes j h =
    ground (arith, move_up_lem n low shift (store bytes (low + n) (bytes (low + n - shift))) j h)

pub move_down_lem :
    (n done low shift : ℕ) (bytes : Data) (j : ℕ)
    → move_down n done low shift bytes j
      ≡ (if leb (low + done) j && ltb j (low + done + n) then bytes (j + shift) else bytes j)
unfolding move_down
move_down_lem zero done low shift bytes j = ground arith
move_down_lem (suc n) done low shift bytes j = ground (
  arith,
  move_down_lem n (done + 1) low shift (store bytes (low + done) (bytes (low + shift + done))) j,
)

pub copy_in_lem :
    (n done low capacity : ℕ) (src bytes : Data) (j : ℕ)
    → copy_in n done low capacity src bytes j ≡ (
        if leb (low + done) j && (ltb j (low + done + n) && ltb j capacity)
        then src (j - low)
        else bytes j)
unfolding copy_in
copy_in_lem zero done low capacity src bytes j = ground arith
copy_in_lem (suc n) done low capacity src bytes j =
    ground
      (arith, copy_in_lem n (done + 1) low capacity src (store bytes (low + done) (src done)) j)
