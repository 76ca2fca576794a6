-- ===== src/Units/Failures/Spread.antt =====
-- The rounds lower the flag of every unit that fails.
use mathlib.Core.Path.{subst}
use tp2cc.Prelude.{
  Bool-cases, Bytes, List, Option, [], ap, arith, false, inl, inr, length, refl, same, same_iff,
  some, suc, sym, true, ◌||◌, ◌↔◌, ◌∙◌, ◌∷◌, ◌≡◌,
}
use tp2cc.Text.{lower}
use tp2cc.Makefile.{contains}
use tp2cc.Units.{ParsedUnit, UnitNode, Units, find_unit}
use tp2cc.Units.Failures.{dependency_failed, fails_now, propagate_failures, uses_failed}
use tp2cc.Units.Failures.Settled.{AllSettled, propagate_failures-AllSettled}
use tp2cc.Units.Failures.Tracks.{
  BecameOf, Fails, Tracks, Tracks-refl, behind, fail_rounds-Tracks, failed, found, spread,
}

module _ (units : Units) where
  -- The unit of a name at the end; nothing fails it any more.
  find-end :
      (key : Bytes) (t a b : Units) (u : ParsedUnit)
      → Tracks units a b
      → AllSettled t b
      → find_unit key a ≡ some u
      → (w : ParsedUnit) × (find_unit key b ≡ some w) × BecameOf units u w × (fails_now t w ≡ false)
  unfolding find_unit
  find-end key t [] [] u r s h = cc
  find-end key t [] (e ∷ b) u r s h = absurd r
  find-end key t (e ∷ a) [] u r s h = absurd r
  find-end key t ((k, x) ∷ a) ((l, w) ∷ b) u r s h = elim (Bool-cases (same key k)) [
    | inl e ↦
        let e' = subst (λ z. same key z ≡ true) r.0 e in
        let q : x ≡ u = found x (find_unit key a) (same key k) e h in
        (w, rw e' refl, subst (λ v. BecameOf units v w) q r.1, s.0)
    | inr e ↦
        let e' = subst (λ z. same key z ≡ false) r.0 e in
        let (v, f, c, n) =
          find-end key t a b u r.2 s.1 (behind x (find_unit key a) (same key k) e h) in
        (v, rw e' f, c, n)
  ]

  dependency_marked :
      (t : Units) (uses : List Bytes) (d : Bytes) (x : ParsedUnit)
      → contains d uses ≡ true
      → find_unit (lower d) t ≡ some x
      → x.ok ≡ false
      → dependency_failed t uses ≡ true
  unfolding dependency_failed contains
  dependency_marked t [] d x c q o = cc
  dependency_marked t (y ∷ uses) d x c q o = elim (Bool-cases (same d y)) [
    | inl e ↦
        let q' = subst (λ z. find_unit (lower z) t ≡ some x) ((same_iff d y).0 e) q in
        rw q' rw o refl
    | inr e ↦ let ih = dependency_marked t uses d x (ground arith) q o in ground arith
  ]

  uses_marked :
      (t : Units) (ast : UnitNode) (d : Bytes) (x : ParsedUnit)
      → (contains d ast.interface_uses || contains d ast.impl_uses) ≡ true
      → find_unit (lower d) t ≡ some x
      → x.ok ≡ false
      → uses_failed t (some ast) ≡ true
  uses_marked t ast d x c q o = elim (Bool-cases (contains d ast.interface_uses)) [
    | inl e ↦ let i = dependency_marked t ast.interface_uses d x e q o in ground arith
    | inr e ↦ let i = dependency_marked t ast.impl_uses d x (ground arith) q o in ground arith
  ]

  keeps_flag :
      (t : Units) (w : ParsedUnit) (ast : UnitNode)
      → fails_now t w ≡ false
      → w.ast ≡ some ast
      → uses_failed t (some ast) ≡ true
      → w.ok ≡ false
  unfolding fails_now
  keeps_flag t w ast f e h =
      let h' = subst (λ (o : Option UnitNode). uses_failed t o ≡ true) (sym e) h in ground arith

  -- In a table that is settled, a unit that fails is marked.
  marked :
      (t : Units) (u w : ParsedUnit)
      → Tracks units units t
      → AllSettled t t
      → Fails units u
      → BecameOf units u w
      → fails_now t w ≡ false
      → w.ok ≡ false
  marked t _ w track s (failed u o) b f = b.2 o
  marked t _ w track s (spread u v ast d a c g h) b f =
      let (x, q, r, z) = find-end (lower d) t units t v track s g in
      let o = marked t v x track s h r z in
      keeps_flag t w ast f (ap (λ (y : ParsedUnit). y.ast) b.0 ∙ a) (uses_marked t ast d x c q o)

  -- Entry by entry, the table at the end has the units of the table at first; only the flag may
  -- have changed, and it is down exactly for the units that fail.
  abbrev pub AreMarked : Units → Units → Type 0
  AreMarked [] [] = Unit
  AreMarked [] (e ∷ b) = ⊥
  AreMarked (e ∷ a) [] = ⊥
  AreMarked ((k, u) ∷ a) ((l, w) ∷ b) =
      (k ≡ l) × (w ≡ record u { ok = w.ok }) × ((w.ok ≡ false) ↔ Fails units u) × AreMarked a b

  Tracks-AreMarked :
      (t a b : Units)
      → Tracks units units t
      → AllSettled t t
      → Tracks units a b
      → AllSettled t b
      → AreMarked a b
  Tracks-AreMarked t [] [] track s r q = tt
  Tracks-AreMarked t [] (e ∷ b) track s r q = absurd r
  Tracks-AreMarked t (e ∷ a) [] track s r q = absurd r
  Tracks-AreMarked t ((k, u) ∷ a) ((l, w) ∷ b) track s r q = (
    r.0,
    r.1.0,
    (r.1.1, λ h. marked t u w track s h r.1 q.0),
    Tracks-AreMarked t a b track s r.2 q.1,
  )

-- The spread of failures ends. It leaves the table as it was up to the flags, and a unit counts as
-- failed exactly where it failed at first or uses, directly or through others, one that did.
pub propagate_failures-Fails :
    (units : Units) → (t : Units) × (propagate_failures units ≡ some t) × AreMarked units units t
unfolding propagate_failures
propagate_failures-Fails units =
    let (t, e, s) = propagate_failures-AllSettled units in
    let track = fail_rounds-Tracks units (suc (length units)) units t (Tracks-refl units units) e in
    (t, e, Tracks-AreMarked units t units t track s track s)
