-- ===== src/Makefile/Sorted.antt =====
-- What the two ways to drop repeated items keep, and in which order.
use tp2cc.Prelude.{
  Bool, Bool-cases, Bytes, List, [], ap, arith, false, if_ind, inl, inr, refl, same, same_iff, sym,
  true, ◌||◌, ◌∙◌, ◌∷◌, ◌≡◌,
}
use mathlib.Core.Path.{subst}
use tp2cc.Makefile.{contains, insert_sorted, sort, sort_unique, unique, unique_from}
use tp2cc.Makefile.Order.{less, less-asym, less-total}

-- No item is greater than the next.
abbrev pub Ascending : List Bytes → Type 0
Ascending [] = Unit
Ascending (x ∷ []) = Unit
Ascending (x ∷ y ∷ r) = (less y x ≡ false) × Ascending (y ∷ r)

-- Every item is less than the next.
abbrev pub StrictlyAscending : List Bytes → Type 0
StrictlyAscending [] = Unit
StrictlyAscending (x ∷ []) = Unit
StrictlyAscending (x ∷ y ∷ r) = (less x y ≡ true) × StrictlyAscending (y ∷ r)

insert_sorted-Ascending :
    (x : Bytes) (ys : List Bytes) → Ascending ys → Ascending (insert_sorted x ys)
unfolding insert_sorted
insert_sorted-Ascending x [] a = tt
insert_sorted-Ascending x (y ∷ []) a = elim (Bool-cases (less y x)) [
  | inl h ↦ rw h (less-asym y x h, tt)
  | inr h ↦ rw h (h, tt)
]
insert_sorted-Ascending x (y ∷ z ∷ r) (h, a) =
    let ih = insert_sorted-Ascending x (z ∷ r) a in
    elim (Bool-cases (less y x)) [
      | inl l ↦ rw l (
          if_ind (λ (t : List Bytes). Ascending t → Ascending (y ∷ t)) (less z x) (λ _ u. (h, u))
            (λ _ u. (less-asym y x l, u)) ih)
      | inr l ↦ rw l (l, (h, a))
    ]

sort-Ascending : (xs : List Bytes) → Ascending (sort xs)
unfolding sort
sort-Ascending [] = tt
sort-Ascending (x ∷ xs) = insert_sorted-Ascending x (sort xs) (sort-Ascending xs)

-- The head of `unique_from` is where it starts.
unique_from-head : (x : Bytes) (xs : List Bytes) → (t : List Bytes) × (unique_from x xs ≡ x ∷ t)
unfolding unique_from
unique_from-head x [] = ([], refl)
unique_from-head x (y ∷ ys) = elim (Bool-cases (same x y)) [
  | inl h ↦ rw h (unique_from-head x ys)
  | inr h ↦ rw h (_, refl)
]

contains-insert_sorted :
    (k x : Bytes) (ys : List Bytes) → contains k (insert_sorted x ys) ≡ (same k x || contains k ys)
unfolding insert_sorted contains
contains-insert_sorted k x [] = refl
contains-insert_sorted k x (y ∷ ys) = ground (arith, contains-insert_sorted k x ys)

contains-sort : (k : Bytes) (xs : List Bytes) → contains k (sort xs) ≡ contains k xs
unfolding sort contains
contains-sort k [] = refl
contains-sort k (x ∷ xs) = rw (contains-insert_sorted k x (sort xs), contains-sort k xs) refl

contains-unique_from :
    (k x : Bytes) (xs : List Bytes) → contains k (unique_from x xs) ≡ (same k x || contains k xs)
unfolding unique_from contains
contains-unique_from k x [] = refl
contains-unique_from k x (y ∷ ys) = elim (Bool-cases (same x y)) [
  | inl h ↦ rw (h, contains-unique_from k x ys) (twice (same k x) (same k y) _ (same_as x y k h))
  | inr h ↦ rw (h, contains-unique_from k y ys) refl
]
  where
    same_as : (x y k : Bytes) → same x y ≡ true → same k x ≡ same k y
    same_as x y k h = ap (same k) ((same_iff x y).0 h)

    twice : (a b c : Bool) → a ≡ b → (a || c) ≡ (a || (b || c))
    twice true b c h = refl
    twice false b c h = rw (sym h) refl

unique_from-StrictlyAscending :
    (x : Bytes) (xs : List Bytes) → Ascending (x ∷ xs) → StrictlyAscending (unique_from x xs)
unfolding unique_from
unique_from-StrictlyAscending x [] a = tt
unique_from-StrictlyAscending x (y ∷ ys) (h, a) = elim (Bool-cases (same x y)) [
  | inl e ↦ rw e (
      unique_from-StrictlyAscending x ys
        (subst (λ (u : Bytes). Ascending (u ∷ ys)) (sym ((same_iff x y).0 e)) a))
  | inr e ↦
      let (t, q) = unique_from-head y ys in
      let ih : StrictlyAscending (y ∷ t) = rw q at (unique_from-StrictlyAscending y ys a) in
      rw (e, q) (less-total x y h e, ih)
]

unique-StrictlyAscending : (xs : List Bytes) → Ascending xs → StrictlyAscending (unique xs)
unfolding unique
unique-StrictlyAscending [] a = tt
unique-StrictlyAscending (x ∷ xs) a = unique_from-StrictlyAscending x xs a

contains-unique : (k : Bytes) (xs : List Bytes) → contains k (unique xs) ≡ contains k xs
unfolding unique contains
contains-unique k [] = refl
contains-unique k (x ∷ xs) = contains-unique_from k x xs

-- `sort_unique` leaves the items in strictly ascending order, so each once, and drops and adds
-- none.
pub sort_unique-StrictlyAscending :
    (k : Bytes) (items : List Bytes)
    → StrictlyAscending (sort_unique items) × (contains k (sort_unique items) ≡ contains k items)
unfolding sort_unique
sort_unique-StrictlyAscending k items = (
  unique-StrictlyAscending (sort items) (sort-Ascending items),
  contains-unique k (sort items) ∙ contains-sort k items,
)
