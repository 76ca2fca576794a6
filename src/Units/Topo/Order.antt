-- ===== src/Units/Topo/Order.antt =====
-- In the order of `topo_sort` each unit stands behind its dependencies.
use tp2cc.Units.{Units}
use tp2cc.Units.Topo.Graph.{are_distinct, names}
use tp2cc.Units.Topo.Total.{run_kahn-total}
use mathlib.Core.Path.{subst}
use tp2cc.Prelude.{Bytes, [], ap, arith, some, sym, true, ◌∙◌, ◌≡◌, ◌≤◌}
use tp2cc.Units.Topo.{Dependencies, Kahn, TopoResult, topo_result, topo_sort, unit_graph}
use tp2cc.Units.Topo.Degrees.{count}
use tp2cc.Units.Topo.Settled.{InOrder, IsPending, run_kahn-IsSettled}

once : (deps : Dependencies) (s : Kahn) (u : Bytes) → IsPending deps [] s u → count u s.order ≤ 1
once deps s u h = ground arith

pub result_order :
    (deps : Dependencies) (s : Kahn) (r : TopoResult)
    → topo_result deps (some s) ≡ some r
    → s.order ≡ r.order
unfolding topo_result
result_order deps s r e = ground arith

pub topo_sort-InOrder :
    (units : Units) (r : TopoResult)
    → are_distinct (names units) ≡ true
    → topo_sort units ≡ some r
    → InOrder (unit_graph units).0 [] r.order × ((u : Bytes) → count u r.order ≤ 1)
unfolding topo_sort
topo_sort-InOrder units r h e =
    let x = run_kahn-total units in
    let o =
      result_order (unit_graph units).0 x.0 r
        (ap (topo_result (unit_graph units).0) (sym x.1) ∙ e) in
    let settled = run_kahn-IsSettled units x.0 h x.1 in
    (
      subst (InOrder (unit_graph units).0 []) o settled.1,
      λ u. subst (λ order. count u order ≤ 1) o (once (unit_graph units).0 x.0 u (settled.0 u)),
    )
