-- ===== src/Runtime/ShortStrings.antt =====
-- The short strings of include/tp2cc_rt/prelude.h: a length and an array of `capacity` bytes, of
-- which the first `length` are the string. A loop over the array is recursion on the number of its
-- rounds.
pub mod Moves
pub mod Edit
use tp2cc.Prelude.{
  Bool, false, if◌then◌else◌, leb_ℤ, length, ltb, ltb_ℤ, pos, pos_part, suc, true, zero, ℕ, ℤ, ◌+◌,
  ◌-◌, ◌==◌, ◌||◌,
}

abbrev pub Data : Type 0
Data = ℕ → ℕ

pub record ShortString : Type 0 where
  pub length : ℕ
  pub bytes : Data

abbrev pub store : Data → ℕ → ℕ → Data
store bytes i v = λ j. if j == i then v else bytes j

abbrev pub no_bytes : Data
no_bytes = λ j. 0

-- `for (i = low + rounds - 1; i >= low; --i) data[i] = data[i - shift]`
unfoldable pub move_up : ℕ → ℕ → ℕ → Data → Data
move_up zero low shift bytes = bytes
move_up (suc n) low shift bytes =
    move_up n low shift (store bytes (low + n) (bytes (low + n - shift)))

-- `for (i = done; i < done + rounds; ++i) data[low + i] = data[low + shift + i]`
unfoldable pub move_down : ℕ → ℕ → ℕ → ℕ → Data → Data
move_down zero done low shift bytes = bytes
move_down (suc n) done low shift bytes =
    move_down n (done + 1) low shift (store bytes (low + done) (bytes (low + shift + done)))

-- `for (i = done; i < done + rounds && low + i < capacity; ++i) data[low + i] = src.data[i]`
unfoldable pub copy_in : ℕ → ℕ → ℕ → ℕ → Data → Data → Data
copy_in zero done low capacity src bytes = bytes
copy_in (suc n) done low capacity src bytes = elim (ltb (low + done) capacity) [
  | true ↦ copy_in n (done + 1) low capacity src (store bytes (low + done) (src done))
  | false ↦ bytes
]

-- A position from 1 to `length + 1`.
abbrev pub clamped : ℤ → ℕ → ℕ
clamped p length =
    if ltb_ℤ p (pos 1) then 1 else if ltb_ℤ (pos (length + 1)) p then length + 1 else pos_part p

abbrev pub min : ℕ → ℕ → ℕ
min a b = if ltb b a then b else a

-- `capacity` is that of `dest`; `src` is another object than `dest`, which is written to here while
-- `src` is still read.
unfoldable pub p_insert : ℕ → ShortString → ShortString → ℤ → ShortString
unfolding move_up copy_in
p_insert capacity src dest p =
    let at = clamped p dest.length - 1 in
    let need = min (dest.length + src.length) capacity in
    record {
      length = need;
      bytes =
          copy_in src.length 0 at capacity src.bytes
            (move_up (need - (at + src.length)) (at + src.length) (need - dest.length) dest.bytes);
    }

unfoldable pub p_delete : ShortString → ℤ → ℤ → ShortString
unfolding move_down
p_delete s start count =
    if ltb_ℤ start (pos 1) || (ltb_ℤ (pos s.length) start || leb_ℤ count (pos 0))
    then s
    else if ltb (s.length - (pos_part start - 1)) (pos_part count)
    then record { length = pos_part start - 1; bytes = s.bytes }
    else record {
      length = s.length - pos_part count;
      bytes =
          move_down (s.length - (pos_part start - 1) - pos_part count) 0 (pos_part start - 1)
            (pos_part count) s.bytes;
    }

-- The result is a fresh string of 255 bytes.
unfoldable pub p_copy : ShortString → ℤ → ℤ → ShortString
unfolding copy_in
p_copy s start count =
    let first = if ltb_ℤ start (pos 1) then 1 else pos_part start in
    let avail = s.length - (first - 1) in
    let n = if ltb_ℤ (pos avail) count then avail else pos_part count in
    record { length = n; bytes = copy_in n 0 0 n (λ i. s.bytes (first - 1 + i)) no_bytes }

-- `for (j = done; j < done + rounds; ++j) if (hay.data[i + j] != needle.data[j]) ok = false`
unfoldable pub matches : ℕ → ℕ → ℕ → Data → Data → Bool
matches zero done i needle hay = true
matches (suc n) done i needle hay = elim (hay (i + done) == needle done) [
  | true ↦ matches n (done + 1) i needle hay
  | false ↦ false
]

unfoldable pub pos_from : ℕ → ℕ → ShortString → ShortString → ℕ
unfolding matches
pos_from zero i needle hay = 0
pos_from (suc n) i needle hay = elim (matches needle.length 0 i needle.bytes hay.bytes) [
  | true ↦ i + 1
  | false ↦ pos_from n (i + 1) needle hay
]

-- The loop runs while `i + needle.length <= hay.length`.
unfoldable pub p_pos : ShortString → ShortString → ℕ
unfolding pos_from
p_pos needle hay = pos_from (hay.length + 1 - needle.length) 0 needle hay

-- `std::min` of the length, and the bytes moved.
unfoldable pub shortstring_of : ℕ → ShortString → ShortString
unfolding copy_in
shortstring_of capacity s =
    let n = min s.length capacity in record { length = n; bytes = copy_in n 0 0 n s.bytes no_bytes }

-- `operator+` on strings of the capacities `n` and `m`.
unfoldable pub concat : ℕ → ℕ → ShortString → ShortString → ShortString
unfolding copy_in
concat n m a b =
    let capacity = if ltb 255 (n + m) then 255 else n + m in
    record {
      length = min (a.length + b.length) capacity;
      bytes =
          copy_in b.length 0 a.length capacity b.bytes
            (copy_in a.length 0 0 capacity a.bytes no_bytes);
    }
