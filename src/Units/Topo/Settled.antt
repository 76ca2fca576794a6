-- ===== src/Units/Topo/Settled.antt =====
-- The invariant of the loop of `topo_sort`.
use tp2cc.Units.{Units}
use tp2cc.Units.Topo.Graph.{are_distinct, count-zero_degree, names, unit_graph-IsCounted}
use tp2cc.Units.Topo.Total.{order-release}
use mathlib.Core.Path.{subst}
use tp2cc.Prelude.{
  Bool, Bytes, List, [], ap, append-nil, append_assoc, arith, false, if_ind, if◌then◌else◌,
  is_empty, length, refl, same, same_iff, same_refl, some, suc, sym, true, zero, ℕ, ◌++◌, ◌+◌, ◌==◌,
  ◌∷◌, ◌≡◌, ◌≤◌,
}
use tp2cc.Makefile.{contains, sort}
use tp2cc.Units.Topo.{
  Degrees, Dependencies, Kahn, dependencies_of, dependents, emit_unit, kahn, lower_degree, release,
  run_kahn, unit_graph, zero_degree,
}
use tp2cc.Units.Topo.Degrees.{
  count, count-append, count-contains, count-dependents, count-sort, degree, degree-lower_degree,
  key_count, lower_degree-zero, missing, missing-emitted, one_if,
}

-- All of the units stand in the list.
abbrev pub AllIn : List Bytes → List Bytes → Type 0
AllIn [] order = Unit
AllIn (d ∷ ds) order = (contains d order ≡ true) × AllIn ds order

-- Behind the units of `before`, each unit of the list stands behind all of its dependencies.
abbrev pub InOrder : Dependencies → List Bytes → List Bytes → Type 0
InOrder deps before [] = Unit
InOrder deps before (n ∷ order) =
    AllIn (dependencies_of n deps) before × InOrder deps (before ++ (n ∷ [])) order

missing-AllIn : (ds order : List Bytes) → missing ds order ≡ 0 → AllIn ds order
missing-AllIn [] order h = tt
missing-AllIn (d ∷ ds) order h = (ground arith, missing-AllIn ds order (ground arith))

InOrder-append :
    (deps : Dependencies) (before order : List Bytes) (n : Bytes)
    → InOrder deps before order
    → AllIn (dependencies_of n deps) (before ++ order)
    → InOrder deps before (order ++ (n ∷ []))
InOrder-append deps before [] n h a =
    (subst (AllIn (dependencies_of n deps)) (append-nil before) a, tt)
InOrder-append deps before (x ∷ order) n h a = (
  h.0,
  InOrder-append deps (before ++ (x ∷ [])) order n h.1
      (subst (AllIn (dependencies_of n deps)) (sym (append_assoc before (x ∷ []) order)) a),
)

-- How often a unit is ready or emitted.
abbrev pub listed : Bytes → Kahn → ℕ
listed u s = count u s.ready + count u s.order

-- For the unit `u`, while the units of `left` are still to be released: its degree covers the
-- dependencies that are not emitted, and only a unit of degree 0 is listed, and once.
abbrev pub IsPending : Dependencies → List Bytes → Kahn → Bytes → Type 0
IsPending deps left s u =
    (missing (dependencies_of u deps) s.order + count u left ≤ degree u s.indeg)
    × (listed u s ≤ one_if (degree u s.indeg == 0))

pub count-push :
    (u n : Bytes) (b : Bool) (ready : List Bytes)
    → count u (if b then ready ++ (n ∷ []) else ready)
      ≡ count u ready + (if b then one_if (same u n) else 0)
count-push u n true ready = omega (arith, count-append u ready (n ∷ []))
count-push u n false ready = omega arith

pub degree-same :
    (u n : Bytes) (indeg : Degrees) → same u n ≡ true → degree u indeg ≡ degree n indeg
degree-same u n indeg h = ap (λ x. degree x indeg) ((same_iff u n).0 h)

-- A unit whose degree comes to 0 is listed.
released :
    (deps : Dependencies) (dep : Bytes) (left : List Bytes) (s : Kahn) (u : Bytes)
    → IsPending deps (dep ∷ left) s u
    → IsPending deps left
        (record s {
          indeg = (lower_degree dep s.indeg).0;
          ready = if (lower_degree dep s.indeg).1 then s.ready ++ (dep ∷ []) else s.ready;
        })
        u
released deps dep left s u h = (
  ground (arith, degree-lower_degree u dep s.indeg),
  ground (
    arith,
    degree-lower_degree u dep s.indeg,
    lower_degree-zero dep s.indeg,
    degree-same u dep s.indeg,
    count-push u dep (lower_degree dep s.indeg).1 s.ready,
  ),
)

release-IsPending :
    (deps : Dependencies) (left : List Bytes) (s : Kahn)
    → ((u : Bytes) → IsPending deps left s u)
    → (u : Bytes) → IsPending deps [] (release left s) u
unfolding release
release-IsPending deps [] s h u = h u
release-IsPending deps (dep ∷ left) s h u =
    release-IsPending deps left _ (λ v. released deps dep left s v (h v)) u

-- The loop's invariant.
abbrev pub IsSettled : Dependencies → Kahn → Type 0
IsSettled deps s = ((u : Bytes) → IsPending deps [] s u) × InOrder deps [] s.order

-- A unit that is ready has degree 0, and is not emitted yet.
pub fresh :
    (deps : Dependencies) (n : Bytes) (ready : List Bytes) (s : Kahn)
    → IsPending deps [] s n
    → count n (n ∷ ready) ≡ count n s.ready
    → (contains n s.order ≡ false) × (degree n s.indeg ≡ 0)
fresh deps n ready s h q =
    (ground (arith, same_refl n, count-contains n s.order), ground (arith, same_refl n))

emitted_IsPending :
    (deps : Dependencies) (n : Bytes) (ready : List Bytes) (s : Kahn) (u : Bytes)
    → key_count u deps ≤ 1
    → IsPending deps [] s u
    → IsPending deps [] s n
    → ((v : Bytes) → count v (n ∷ ready) ≡ count v s.ready)
    → IsPending deps (dependents n deps) (record s { ready = ready; order = s.order ++ (n ∷ []) }) u
emitted_IsPending deps n ready s u k h hn q =
    let c = (fresh deps n ready s hn (q n)).0 in
    (
      omega (
        arith,
        missing-emitted n (dependencies_of u deps) s.order c,
        count-dependents u n deps k,
        h.0,
      ),
      omega (arith, count-append u s.order (n ∷ []), q u, h.1),
    )

pub emit_unit-IsSettled :
    (deps : Dependencies) (q : List Bytes) (s : Kahn)
    → ((u : Bytes) → key_count u deps ≤ 1)
    → ((u : Bytes) → count u q ≡ count u s.ready)
    → IsSettled deps s
    → IsSettled deps (emit_unit deps q s)
unfolding emit_unit
emit_unit-IsSettled deps [] s k q h = h
emit_unit-IsSettled deps (n ∷ ready) s k q h =
    let t : Kahn = record s { ready = ready; order = s.order ++ (n ∷ []) } in
    let zero_left : missing (dependencies_of n deps) s.order ≡ 0 =
      omega (arith, (fresh deps n ready s (h.0 n) (q n)).1, (h.0 n).0) in
    (
      release-IsPending deps (dependents n deps) t
          (λ u. emitted_IsPending deps n ready s u (k u) (h.0 u) (h.0 n) q),
      subst (InOrder deps []) (sym (order-release (dependents n deps) t)) (
          InOrder-append deps [] s.order n h.1
            (missing-AllIn (dependencies_of n deps) s.order zero_left)),
    )

-- What each turn keeps holds at the end.
pub kahn_ind {ℓ} :
    (P : Kahn → Type ℓ) (deps : Dependencies) (fuel : ℕ) (s r : Kahn)
    → ((t : Kahn) → P t → P (emit_unit deps (sort t.ready) t))
    → P s
    → kahn deps fuel s ≡ some r
    → P r
unfolding kahn
kahn_ind P deps zero s r step h e =
    if_ind (λ o. o ≡ some r → P r) (is_empty s.ready)
      (λ _ q. let ended : s ≡ r = cc in subst P ended h) (λ _ q. absurd (cc)) e
kahn_ind P deps (suc fuel) s r step h e =
    if_ind (λ o. o ≡ some r → P r) (is_empty s.ready)
      (λ _ q. let ended : s ≡ r = cc in subst P ended h)
      (λ _ q. kahn_ind P deps fuel (emit_unit deps (sort s.ready) s) r step (step s h) q) e

pub missing-none : (ds : List Bytes) → missing ds [] ≡ length ds
unfolding contains
missing-none [] = refl
missing-none (d ∷ ds) = omega (arith, missing-none ds)

pub start_IsPending :
    (u : Bytes) (units : Units)
    → are_distinct (names units) ≡ true
    → IsPending
        (unit_graph units).0
        []
        (record {
          ready = sort (zero_degree (unit_graph units).1);
          order = [];
          indeg = (unit_graph units).1;
        })
        u
start_IsPending u units h =
    let g = unit_graph-IsCounted u units h in
    (
      omega (arith, missing-none (dependencies_of u (unit_graph units).0), g.2),
      omega (
        arith,
        count-sort u (zero_degree (unit_graph units).1),
        count-zero_degree u (unit_graph units).1 g.1,
      ),
    )

pub run_kahn-IsSettled :
    (units : Units) (r : Kahn)
    → are_distinct (names units) ≡ true
    → run_kahn units ≡ some r
    → IsSettled (unit_graph units).0 r
unfolding run_kahn
run_kahn-IsSettled units r h e =
    let deps = (unit_graph units).0 in
    let keys = λ (u : Bytes). (unit_graph-IsCounted u units h).0 in
    kahn_ind (IsSettled deps) deps (length (unit_graph units).1) _ r
      (λ t. emit_unit-IsSettled deps (sort t.ready) t keys (λ u. count-sort u t.ready))
      (λ u. start_IsPending u units h, tt) e
