-- ===== src/Units/Topo/Complete.antt =====
-- Which units the order of `topo_sort` has: those that are left with no degree, and without a cycle
-- all of them.
use tp2cc.Units.Topo.Total.{run_kahn-total}
use tp2cc.Units.Topo.Order.{result_order}
use mathlib.Core.Path.{subst}
use tp2cc.Makefile.{contains, sort}
use tp2cc.Units.Topo.Edges.{count-zero, unit_graph-IsRegular}
use tp2cc.Prelude.{
  Bool-cases, Bytes, List, [], ap, arith, inl, inr, is_empty, length, ltb, not, refl, same_refl,
  some, suc, sym, true, zero, ℕ, ◌<◌, ◌∙◌, ◌∷◌, ◌≡◌, ◌≤◌,
}
use tp2cc.Units.{Units, has_unit}
use tp2cc.Units.Topo.{
  Dependencies, Kahn, TopoResult, dependencies_of, run_kahn, topo_result, topo_sort, unit_graph,
}
use tp2cc.Units.Topo.Degrees.{count, count-contains, count-sort, degree, missing}
use tp2cc.Units.Topo.Graph.{are_distinct, names, unit_graph-IsCounted}
use tp2cc.Units.Topo.Settled.{emit_unit-IsSettled, kahn_ind, start_IsPending}
use tp2cc.Units.Topo.Followed.{IsComplete, IsFollowed, emit_unit-IsFollowed, start_IsFollowed}

at_most_once : (units : Units) (u n : Bytes) → count n (dependencies_of u (unit_graph units).0) ≤ 1
at_most_once units u n = ground (arith, unit_graph-IsRegular units u n)

run_kahn-IsComplete :
    (units : Units) (r : Kahn)
    → are_distinct (names units) ≡ true
    → run_kahn units ≡ some r
    → IsComplete units (unit_graph units).0 r
unfolding run_kahn
run_kahn-IsComplete units r h e =
    let deps = (unit_graph units).0 in
    let keys = λ (u : Bytes). (unit_graph-IsCounted u units h).0 in
    kahn_ind (IsComplete units deps) deps (length (unit_graph units).1) _ r
      (λ t i. (
        emit_unit-IsSettled deps (sort t.ready) t keys (λ u. count-sort u t.ready) i.0,
        λ u.
            emit_unit-IsFollowed units deps (sort t.ready) t u (λ n. at_most_once units u n)
              (λ v. count-sort v t.ready) i.0 (i.1 u),
      ))
      ((λ u. start_IsPending u units h, tt), λ u. start_IsFollowed u units h) e

not_ready : (u : Bytes) (ready : List Bytes) → is_empty ready ≡ true → count u ready ≡ 0
not_ready u [] h = refl
not_ready u (x ∷ ready) h = cc

settled_apart :
    (units : Units) (deps : Dependencies) (u : Bytes) (r : Kahn)
    → IsComplete units deps r
    → is_empty r.ready ≡ true
    → has_unit u units ≡ true
    → contains u r.order ≡ not (ltb 0 (degree u r.indeg))
settled_apart units deps u r c e h =
    ground
      (arith, c.0.0 u, c.1 u, not_ready u r.ready e, count-contains u r.order, count-zero u r.order)

-- Where the keys of the table are distinct, `topo_sort` ends with no unit ready. A unit of the table
-- is then in the order, or else is left with a positive degree; none is both.
pub run_kahn-apart :
    (units : Units)
    → are_distinct (names units) ≡ true
    → (r : Kahn) × (run_kahn units ≡ some r)
      × (is_empty r.ready ≡ true)
      × ((u : Bytes)
          → has_unit u units ≡ true
          → contains u r.order ≡ not (ltb 0 (degree u r.indeg)))
run_kahn-apart units h =
    let x = run_kahn-total units in
    (
      x.0,
      x.1,
      x.2,
      λ u k.
          settled_apart units (unit_graph units).0 u x.0 (run_kahn-IsComplete units x.0 h x.1) x.2
            k,
    )

missing-all :
    (ds order : List Bytes)
    → ((d : Bytes) → contains d ds ≡ true → contains d order ≡ true)
    → missing ds order ≡ 0
unfolding contains
missing-all [] order h = refl
missing-all (d ∷ ds) order h =
    ground
      (arith, h d (ground (arith, same_refl d)), missing-all ds order (λ x k. h x (ground arith)))

emitted_of_counts :
    (u : Bytes) (units : Units) (deps : Dependencies) (r : Kahn)
    → has_unit u units ≡ true
    → is_empty r.ready ≡ true
    → missing (dependencies_of u deps) r.order ≡ 0
    → IsFollowed units deps [] r u
    → contains u r.order ≡ true
emitted_of_counts u units deps r h e m f = elim (Bool-cases (contains u r.order)) [
  | inl k ↦ k
  | inr k ↦ absurd (ground (arith, count-zero u r.order k, not_ready u r.ready e))
]

emitted_below :
    (units : Units) (deps : Dependencies) (rank : Bytes → ℕ) (r : Kahn) (bound : ℕ) (u : Bytes)
    → IsComplete units deps r
    → is_empty r.ready ≡ true
    → ((v d : Bytes)
        → contains d (dependencies_of v deps) ≡ true
        → (rank d < rank v) × (has_unit d units ≡ true))
    → has_unit u units ≡ true
    → rank u < bound
    → contains u r.order ≡ true
emitted_below units deps rank r zero u c e a h l = absurd (omega arith)
emitted_below units deps rank r (suc bound) u c e a h l =
    let all =
      missing-all (dependencies_of u deps) r.order (λ d k.
        emitted_below units deps rank r bound d c e a (a u d k).1 (omega (arith, a u d k))) in
    emitted_of_counts u units deps r h e all (c.1 u)

edge_unit :
    (units : Units) (v d : Bytes)
    → contains d (dependencies_of v (unit_graph units).0) ≡ true
    → has_unit d units ≡ true
edge_unit units v d h = ground (
  arith,
  count-contains d (dependencies_of v (unit_graph units).0),
  unit_graph-IsRegular units v d,
)

-- Where the keys of the table are distinct and the graph has no cycle, that is, where a rank falls
-- along each of its edges, the order of `topo_sort` has every unit of the table.
pub topo_sort_complete :
    (units : Units) (r : TopoResult) (rank : Bytes → ℕ) (u : Bytes)
    → are_distinct (names units) ≡ true
    → topo_sort units ≡ some r
    → ((v d : Bytes) → contains d (dependencies_of v (unit_graph units).0) ≡ true → rank d < rank v)
    → has_unit u units ≡ true
    → contains u r.order ≡ true
unfolding topo_sort
topo_sort_complete units r rank u h e a k =
    let deps = (unit_graph units).0 in
    let x = run_kahn-total units in
    let o = result_order deps x.0 r (ap (topo_result deps) (sym x.1) ∙ e) in
    subst (λ order. contains u order ≡ true) o
      (emitted_below units deps rank x.0 (suc (rank u)) u (run_kahn-IsComplete units x.0 h x.1) x.2
        (λ v d c. (a v d c, edge_unit units v d c)) k (omega arith))
