-- ===== src/Units/Topo/Followed.antt =====
-- What the loop of `topo_sort` keeps so that no unit is left out.
use tp2cc.Makefile.{sort}
use tp2cc.Units.Topo.Edges.{count-zero, unit_graph-IsRegular}
use tp2cc.Prelude.{
  Bytes, List, [], arith, if◌then◌else◌, ltb, refl, true, ◌&&◌, ◌++◌, ◌+◌, ◌==◌, ◌∷◌, ◌≡◌, ◌≤◌,
}
use tp2cc.Units.{Units, has_unit}
use tp2cc.Units.Topo.{
  Degrees, Dependencies, Kahn, dependencies_of, dependents, emit_unit, lower_degree, release,
  unit_graph, zero_degree,
}
use tp2cc.Units.Topo.Degrees.{
  count, count-append, count-sort, degree, degree-lower_degree, lower_degree-zero, missing,
  missing-emitted, one_if,
}
use tp2cc.Units.Topo.Graph.{are_distinct, entry_count, names, unit_graph-IsCounted}
use tp2cc.Units.Topo.Settled.{IsSettled, count-push, degree-same, fresh, listed, missing-none}

count-dependencies :
    (u n : Bytes) (deps : Dependencies)
    → count n (dependencies_of u deps) ≤ 1
    → count n (dependencies_of u deps) ≤ count u (dependents n deps)
unfolding dependents dependencies_of
count-dependencies u n [] h = omega arith
count-dependencies u n ((k, ds) ∷ deps) h =
    ground (arith, count-zero n ds, count-dependencies u n deps)

entry_count-lower_degree :
    (u dep : Bytes) (indeg : Degrees)
    → entry_count u (lower_degree dep indeg).0 ≡ entry_count u indeg
unfolding lower_degree
entry_count-lower_degree u dep [] = refl
entry_count-lower_degree u dep ((k, d) ∷ indeg) =
    ground (arith, entry_count-lower_degree u dep indeg)

-- The converse of `IsPending`: the degree counts no more than what is missing, and a unit of degree
-- 0 is listed; a unit of the table keeps its entry.
abbrev pub IsFollowed : Units → Dependencies → List Bytes → Kahn → Bytes → Type 0
IsFollowed units deps left s u =
    (degree u s.indeg ≤ missing (dependencies_of u deps) s.order + count u left)
    × (one_if (degree u s.indeg == 0 && ltb 0 (entry_count u s.indeg)) ≤ listed u s)
    × (one_if (has_unit u units) ≤ entry_count u s.indeg)

zero_degree-count :
    (u : Bytes) (indeg : Degrees)
    → one_if (degree u indeg == 0 && ltb 0 (entry_count u indeg)) ≤ count u (zero_degree indeg)
unfolding zero_degree
zero_degree-count u [] = ground arith
zero_degree-count u ((k, d) ∷ indeg) = ground (arith, zero_degree-count u indeg)

module _ (units : Units) (deps : Dependencies) where
  followed :
      (dep : Bytes) (left : List Bytes) (s : Kahn) (u : Bytes)
      → IsFollowed units deps (dep ∷ left) s u
      → IsFollowed units deps left
          (record s {
            indeg = (lower_degree dep s.indeg).0;
            ready = if (lower_degree dep s.indeg).1 then s.ready ++ (dep ∷ []) else s.ready;
          })
          u
  followed dep left s u h = (
    ground (arith, degree-lower_degree u dep s.indeg),
    ground (
      arith,
      degree-lower_degree u dep s.indeg,
      lower_degree-zero dep s.indeg,
      degree-same u dep s.indeg,
      count-push u dep (lower_degree dep s.indeg).1 s.ready,
      entry_count-lower_degree u dep s.indeg,
    ),
    omega (arith, entry_count-lower_degree u dep s.indeg, h.2),
  )

  release-IsFollowed :
      (left : List Bytes) (s : Kahn) (u : Bytes)
      → IsFollowed units deps left s u
      → IsFollowed units deps [] (release left s) u
  unfolding release
  release-IsFollowed [] s u h = h
  release-IsFollowed (dep ∷ left) s u h = release-IsFollowed left _ u (followed dep left s u h)

  pub emit_unit-IsFollowed :
      (q : List Bytes) (s : Kahn) (u : Bytes)
      → ((n : Bytes) → count n (dependencies_of u deps) ≤ 1)
      → ((v : Bytes) → count v q ≡ count v s.ready)
      → IsSettled deps s
      → IsFollowed units deps [] s u
      → IsFollowed units deps [] (emit_unit deps q s) u
  unfolding emit_unit
  emit_unit-IsFollowed [] s u k q i h = h
  emit_unit-IsFollowed (n ∷ ready) s u k q i h =
      let c = (fresh deps n ready s (i.0 n) (q n)).0 in
      release-IsFollowed (dependents n deps) _ u (
        omega (
          arith,
          missing-emitted n (dependencies_of u deps) s.order c,
          count-dependencies u n deps (k n),
          h.0,
        ),
        omega (arith, count-append u s.order (n ∷ []), q u, h.1),
        h.2,
      )

  -- The whole invariant of the loop.
  abbrev pub IsComplete : Kahn → Type 0
  IsComplete s = IsSettled deps s × ((u : Bytes) → IsFollowed units deps [] s u)

pub start_IsFollowed :
    (u : Bytes) (units : Units)
    → are_distinct (names units) ≡ true
    → IsFollowed units
        (unit_graph units).0
        []
        (record {
          ready = sort (zero_degree (unit_graph units).1);
          order = [];
          indeg = (unit_graph units).1;
        })
        u
start_IsFollowed u units h =
    let g = unit_graph-IsCounted u units h in
    (
      omega (arith, missing-none (dependencies_of u (unit_graph units).0), g.2),
      omega (
        arith,
        count-sort u (zero_degree (unit_graph units).1),
        zero_degree-count u (unit_graph units).1,
      ),
      (unit_graph-IsRegular units u u).1,
    )
