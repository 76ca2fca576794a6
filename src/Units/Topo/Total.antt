-- ===== src/Units/Topo/Total.antt =====
-- The loop of `topo_sort` ends, and accounts for every unit.
use tp2cc.Units.{Units}
use tp2cc.Prelude.{
  Bool, Bool-cases, Bytes, List, Option, [], arith, false, if◌then◌else◌, inl, inr, is_empty,
  length, length-append, ltb, refl, some, suc, true, zero, ℕ, ◌++◌, ◌+◌, ◌<◌, ◌∙◌, ◌∷◌, ◌≡◌, ◌≤◌,
}
use tp2cc.Makefile.{insert_sorted, sort}
use tp2cc.Units.Topo.{
  Degrees, Dependencies, Kahn, dependents, emit_unit, kahn, lower_degree, release, run_kahn,
  unit_graph, zero_degree,
}

-- How many degrees are positive: the units that wait for another.
abbrev pub waiting : Degrees → ℕ
waiting [] = 0
waiting ((k, d) ∷ indeg) = (if ltb 0 d then 1 else 0) + waiting indeg

abbrev size : Kahn → ℕ
size s = length s.ready + waiting s.indeg

waiting-lower_degree :
    (dep : Bytes) (indeg : Degrees)
    → (if (lower_degree dep indeg).1 then 1 else 0) + waiting (lower_degree dep indeg).0
      ≡ waiting indeg
unfolding lower_degree
waiting-lower_degree dep [] = refl
waiting-lower_degree dep ((k, d) ∷ indeg) = ground (arith, waiting-lower_degree dep indeg)

size-release : (deps : List Bytes) (s : Kahn) → size (release deps s) ≡ size s
unfolding release
size-release [] s = refl
size-release (dep ∷ deps) s =
    size-release deps _
    ∙ push_or_not (lower_degree dep s.indeg).1 s.ready dep _ _ (waiting-lower_degree dep s.indeg)
  where
    push_or_not :
        (b : Bool) (ready : List Bytes) (dep : Bytes) (m n : ℕ)
        → (if b then 1 else 0) + m ≡ n
        → length (if b then ready ++ (dep ∷ []) else ready) + m ≡ length ready + n
    push_or_not true ready dep m n h = omega (arith, length-append ready (dep ∷ []))
    push_or_not false ready dep m n h = omega arith

pub order-release : (deps : List Bytes) (s : Kahn) → (release deps s).order ≡ s.order
unfolding release
order-release [] s = refl
order-release (dep ∷ deps) s = order-release deps _

length-insert_sorted : (x : Bytes) (ys : List Bytes) → length (insert_sorted x ys) ≡ suc (length ys)
unfolding insert_sorted
length-insert_sorted x [] = refl
length-insert_sorted x (y ∷ ys) = ground (arith, length-insert_sorted x ys)

length-sort : (xs : List Bytes) → length (sort xs) ≡ length xs
unfolding sort
length-sort [] = refl
length-sort (x ∷ xs) = rw (length-insert_sorted x (sort xs), length-sort xs) refl

-- A turn emits one unit, and the sum of what is emitted, ready and waiting stays the same.
abbrev account : Kahn → ℕ
account s = length s.order + size s

account-emit_unit :
    (deps : Dependencies) (n : Bytes) (ready : List Bytes) (s : Kahn)
    → (length (emit_unit deps (n ∷ ready) s).order ≡ suc (length s.order))
      × (size (emit_unit deps (n ∷ ready) s) ≡ length ready + waiting s.indeg)
unfolding emit_unit
account-emit_unit deps n ready s = (
  rw (order-release (dependents n deps) _) (length-append s.order (n ∷ []) ∙ omega arith),
  size-release (dependents n deps) _,
)

is_empty-length : (xs : List Bytes) → is_empty xs ≡ false → 0 < length xs
is_empty-length [] h = cc
is_empty-length (x ∷ xs) h = omega arith

-- The run `t` ends with nothing ready and the account `n`.
abbrev pub EndsWith : Option Kahn → ℕ → Type 0
EndsWith t n =
    (r : Kahn) × (t ≡ some r) × (is_empty r.ready ≡ true) × (length r.order + waiting r.indeg ≡ n)

turn-EndsWith :
    (deps : Dependencies) (fuel : ℕ) (s : Kahn) (q : List Bytes)
    → ((t : Kahn) → size t ≤ fuel → EndsWith (kahn deps fuel t) (account t))
    → 0 < length s.ready
    → length q ≡ length s.ready
    → size s ≤ suc fuel
    → EndsWith (kahn deps fuel (emit_unit deps q s)) (account s)
turn-EndsWith deps fuel s [] ih p l h = absurd (omega arith)
turn-EndsWith deps fuel s (n ∷ ready) ih p l h =
    let (o, z) = account-emit_unit deps n ready s in
    let (r, k, e, a) = ih (emit_unit deps (n ∷ ready) s) (omega arith) in (r, k, e, omega arith)

-- The loop ends with the account that it began with, and with no unit ready.
kahn-account :
    (deps : Dependencies) (fuel : ℕ) (s : Kahn)
    → size s ≤ fuel
    → (r : Kahn) × (kahn deps fuel s ≡ some r)
      × (is_empty r.ready ≡ true)
      × (length r.order + waiting r.indeg ≡ account s)
unfolding kahn
kahn-account deps zero s h = elim (Bool-cases (is_empty s.ready)) [
  | inl e ↦ rw e (s, refl, e, omega arith)
  | inr e ↦ absurd (omega (arith, is_empty-length s.ready e))
]
kahn-account deps (suc fuel) s h = elim (Bool-cases (is_empty s.ready)) [
  | inl e ↦ rw e (s, refl, e, omega (arith, none_ready s.ready e))
  | inr e ↦ rw e (
      turn-EndsWith deps fuel s (sort s.ready) (kahn-account deps fuel) (is_empty-length s.ready e)
        (length-sort s.ready) h)
]
  where
    none_ready : (xs : List Bytes) → is_empty xs ≡ true → length xs ≡ 0
    none_ready [] h = refl
    none_ready (x ∷ xs) h = cc

length-zero_degree : (indeg : Degrees) → length (zero_degree indeg) + waiting indeg ≡ length indeg
unfolding zero_degree
length-zero_degree [] = refl
length-zero_degree ((k, d) ∷ indeg) = ground (arith, length-zero_degree indeg)

-- `topo_sort` ends with no unit ready; the units in the order and the positive degrees are together
-- as many as the entries of `indeg`.
pub run_kahn-total : (units : Units) → EndsWith (run_kahn units) (length (unit_graph units).1)
unfolding run_kahn
run_kahn-total units =
    let indeg = (unit_graph units).1 in
    let start : Kahn = record { ready = sort (zero_degree indeg); order = []; indeg = indeg } in
    let count = length-zero_degree indeg in
    let sorted = length-sort (zero_degree indeg) in
    let (r, k, e, a) = kahn-account (unit_graph units).0 (length indeg) start (omega arith) in
    (r, k, e, omega arith)
