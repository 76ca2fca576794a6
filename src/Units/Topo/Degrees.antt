-- ===== src/Units/Topo/Degrees.antt =====
-- What the graph and the loop of `topo_sort` do to the degree of a unit, and counts of units.
use tp2cc.Prelude.{
  Bool, Bytes, List, [], ap, arith, false, if◌then◌else◌, not, refl, same, same_iff, sym, true, ℕ,
  ◌++◌, ◌+◌, ◌-◌, ◌==◌, ◌||◌, ◌∙◌, ◌∷◌, ◌≡◌, ◌≤◌,
}
use tp2cc.Makefile.{contains, insert_sorted, sort}
use tp2cc.Units.Topo.{Degrees, Dependencies, dependencies_of, dependents, lower_degree}

abbrev pub one_if : Bool → ℕ
one_if b = if b then 1 else 0

-- How often a unit is listed.
abbrev pub count : Bytes → List Bytes → ℕ
count u [] = 0
count u (x ∷ xs) = one_if (same u x) + count u xs

pub count-append : (u : Bytes) (xs ys : List Bytes) → count u (xs ++ ys) ≡ count u xs + count u ys
count-append u [] ys = omega arith
count-append u (x ∷ xs) ys = omega (arith, count-append u xs ys)

count-insert_sorted :
    (u x : Bytes) (ys : List Bytes) → count u (insert_sorted x ys) ≡ one_if (same u x) + count u ys
unfolding insert_sorted
count-insert_sorted u x [] = refl
count-insert_sorted u x (y ∷ ys) = ground (arith, count-insert_sorted u x ys)

pub count-sort : (u : Bytes) (xs : List Bytes) → count u (sort xs) ≡ count u xs
unfolding sort
count-sort u [] = refl
count-sort u (x ∷ xs) = count-insert_sorted u x (sort xs) ∙ omega (arith, count-sort u xs)

-- The degree of a unit, 0 for one that has no entry.
abbrev pub degree : Bytes → Degrees → ℕ
degree u [] = 0
degree u ((k, d) ∷ indeg) = if same u k then d else degree u indeg

pub degree-lower_degree :
    (u dep : Bytes) (indeg : Degrees)
    → degree u (lower_degree dep indeg).0
      ≡ (if same u dep then degree u indeg - 1 else degree u indeg)
unfolding lower_degree
degree-lower_degree u dep [] = ground arith
degree-lower_degree u dep ((k, d) ∷ indeg) =
    ground (arith, degree-lower_degree u dep indeg, same_iff u dep, same_iff dep k, same_iff u k)

pub lower_degree-zero :
    (dep : Bytes) (indeg : Degrees) → (lower_degree dep indeg).1 ≡ (degree dep indeg == 1)
unfolding lower_degree
lower_degree-zero dep [] = refl
lower_degree-zero dep ((k, d) ∷ indeg) = ground (arith, lower_degree-zero dep indeg)

-- How many of the dependencies are not among the units.
abbrev pub missing : List Bytes → List Bytes → ℕ
missing [] order = 0
missing (d ∷ ds) order = one_if (not (contains d order)) + missing ds order

-- Whether the entries of the graph have different keys.
abbrev pub key_count : Bytes → Dependencies → ℕ
key_count u [] = 0
key_count u ((k, ds) ∷ deps) = one_if (same u k) + key_count u deps

pub contains-append :
    (d n : Bytes) (order : List Bytes)
    → contains d (order ++ (n ∷ [])) ≡ (contains d order || same d n)
unfolding contains
contains-append d n [] = ground arith
contains-append d n (x ∷ order) = ground (arith, contains-append d n order)

pub contains-same :
    (d n : Bytes) (order : List Bytes) → same n d ≡ true → contains d order ≡ contains n order
contains-same d n order h = ap (λ x. contains x order) (sym ((same_iff n d).0 h))

pub missing-emitted :
    (n : Bytes) (ds order : List Bytes)
    → contains n order ≡ false
    → missing ds (order ++ (n ∷ [])) + count n ds ≡ missing ds order
missing-emitted n [] order h = refl
missing-emitted n (d ∷ ds) order h = ground (
  arith,
  contains-append d n order,
  missing-emitted n ds order h,
  contains-same d n order,
  same_iff n d,
  same_iff d n,
)

pub count-contains : (n : Bytes) (ds : List Bytes) → one_if (contains n ds) ≤ count n ds
unfolding contains
count-contains n [] = omega arith
count-contains n (d ∷ ds) = ground (arith, count-contains n ds)

no_dependents :
    (u n : Bytes) (deps : Dependencies) → key_count u deps ≡ 0 → count u (dependents n deps) ≡ 0
unfolding dependents
no_dependents u n [] h = refl
no_dependents u n ((k, ds) ∷ deps) h = ground (arith, no_dependents u n deps)

pub count-dependents :
    (u n : Bytes) (deps : Dependencies)
    → key_count u deps ≤ 1
    → count u (dependents n deps) ≤ count n (dependencies_of u deps)
unfolding dependents dependencies_of
count-dependents u n [] h = omega arith
count-dependents u n ((k, ds) ∷ deps) h =
    ground (arith, count-contains n ds, no_dependents u n deps, count-dependents u n deps)
