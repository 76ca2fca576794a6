-- ===== src/Units/Failures/Tracks.antt =====
-- The units that fail, and that the rounds lower no other flag.
use mathlib.Core.Path.{subst}
use tp2cc.Prelude.{
  Bool, Bool-cases, Bytes, List, Option, [], ap, append-nil, append_assoc, arith, false, if_ind,
  if◌then◌else◌, inl, inr, none, refl, same, same_refl, some, suc, sym, true, zero, ℕ, ◌++◌, ◌||◌,
  ◌∷◌, ◌≡◌,
}
use tp2cc.Text.{lower}
use tp2cc.Makefile.{contains}
use tp2cc.Units.{ParsedUnit, UnitNode, Units, find_unit}
use tp2cc.Units.Failures.{
  dependency_failed, fail_dependents, fail_rounds, fails_now, is_failed, uses_failed,
}

-- The unit failed, or uses a unit of the table that fails; a name of a uses list is looked up in
-- lowercase.
pub data Fails (units : Units) : ParsedUnit → Type 0 where
  failed : (u : ParsedUnit) → u.ok ≡ false → Fails units u
  spread :
      (u v : ParsedUnit) (ast : UnitNode) (d : Bytes)
      → u.ast ≡ some ast
      → (contains d ast.interface_uses || contains d ast.impl_uses) ≡ true
      → find_unit (lower d) units ≡ some v
      → Fails units v
      → Fails units u

pub found :
    (x : ParsedUnit) (o : Option ParsedUnit) (c : Bool) {w : ParsedUnit}
    → c ≡ true
    → (if c then some x else o) ≡ some w
    → x ≡ w
found x o true e h = cc
found x o false e h = cc

pub behind :
    (x : ParsedUnit) (o : Option ParsedUnit) (c : Bool) {w : ParsedUnit}
    → c ≡ false
    → (if c then some x else o) ≡ some w
    → o ≡ some w
behind x o true e h = cc
behind x o false e h = h

module _ (units : Units) where
  -- What has become of a unit: itself, up to the flag, which is lowered for a reason and not raised.
  abbrev pub BecameOf : ParsedUnit → ParsedUnit → Type 0
  BecameOf u w =
      (w ≡ record u { ok = w.ok }) × (w.ok ≡ false → Fails units u) × (u.ok ≡ false → w.ok ≡ false)

  -- Entry by entry.
  abbrev pub Tracks : Units → Units → Type 0
  Tracks [] [] = Unit
  Tracks [] (e ∷ b) = ⊥
  Tracks (e ∷ a) [] = ⊥
  Tracks ((k, u) ∷ a) ((l, w) ∷ b) = (k ≡ l) × BecameOf u w × Tracks a b

  BecameOf-refl : (u : ParsedUnit) → BecameOf u u
  BecameOf-refl u = (refl, λ h. failed u h, λ h. h)

  pub Tracks-refl : (a : Units) → Tracks a a
  Tracks-refl [] = tt
  Tracks-refl ((k, u) ∷ a) = (refl, BecameOf-refl u, Tracks-refl a)

  find-Tracks :
      (key : Bytes) (a b : Units) (w : ParsedUnit)
      → Tracks a b
      → find_unit key b ≡ some w
      → (u : ParsedUnit) × (find_unit key a ≡ some u) × BecameOf u w
  unfolding find_unit
  find-Tracks key [] [] w t h = cc
  find-Tracks key [] (e ∷ b) w t h = absurd t
  find-Tracks key (e ∷ a) [] w t h = absurd t
  find-Tracks key ((k, u) ∷ a) ((l, x) ∷ b) w t h = elim (Bool-cases (same key l)) [
    | inl e ↦
        let e' = subst (λ z. same key z ≡ true) (sym t.0) e in
        let q : x ≡ w = found x (find_unit key b) (same key l) e h in
        (u, rw e' refl, subst (BecameOf u) q t.1)
    | inr e ↦
        let e' = subst (λ z. same key z ≡ false) (sym t.0) e in
        let (v, f, r) = find-Tracks key a b w t.2 (behind x (find_unit key b) (same key l) e h) in
        (v, rw e' f, r)
  ]

  -- A use that counts as failed.
  failed_use :
      (t : Units) (uses : List Bytes)
      → dependency_failed t uses ≡ true
      → (d : Bytes) × (contains d uses ≡ true)
        × ((w : ParsedUnit) × (find_unit (lower d) t ≡ some w) × (w.ok ≡ false))
  unfolding dependency_failed contains
  failed_use t [] h = cc
  failed_use t (d ∷ uses) h = elim (Bool-cases (is_failed (find_unit (lower d) t))) [
    | inl e ↦ (d, rw (same_refl d) refl, failed_unit (find_unit (lower d) t) e)
    | inr e ↦ let (x, c, f) = failed_use t uses (ground arith) in (x, ground arith, f)
  ]
    where
      failed_unit :
          (o : Option ParsedUnit)
          → is_failed o ≡ true
          → (w : ParsedUnit) × (o ≡ some w) × (w.ok ≡ false)
      failed_unit none h = cc
      failed_unit (some w) h = (w, refl, ground arith)

  uses_of : UnitNode → Bytes → Bool
  uses_of ast d = contains d ast.interface_uses || contains d ast.impl_uses

  in_interface :
      (ast : UnitNode) (d : Bytes) → contains d ast.interface_uses ≡ true → uses_of ast d ≡ true
  unfolding uses_of
  in_interface ast d h = ground arith

  in_impl : (ast : UnitNode) (d : Bytes) → contains d ast.impl_uses ≡ true → uses_of ast d ≡ true
  unfolding uses_of
  in_impl ast d h = ground arith

  -- A unit with a use that counts as failed fails.
  spread_use :
      (t : Units) (u : ParsedUnit) (ast : UnitNode) (d : Bytes) (w : ParsedUnit)
      → Tracks units t
      → u.ast ≡ some ast
      → uses_of ast d ≡ true
      → find_unit (lower d) t ≡ some w
      → w.ok ≡ false
      → Fails units u
  unfolding uses_of
  spread_use t u ast d w track a c f o =
      let (v, g, b) = find-Tracks (lower d) units t w track f in spread u v ast d a c g (b.1 o)

  fails_of :
      (t : Units) (u : ParsedUnit) → Tracks units t → uses_failed t u.ast ≡ true → Fails units u
  fails_of t u track h = by_ast u.ast refl h
    where
      by_ast : (o : Option UnitNode) → u.ast ≡ o → uses_failed t o ≡ true → Fails units u
      by_ast none e h = cc
      by_ast (some ast) e h = elim (Bool-cases (dependency_failed t ast.interface_uses)) [
        | inl i ↦
            let (d, c, (w, f, o)) = failed_use t ast.interface_uses i in
            spread_use t u ast d w track e (in_interface ast d c) f o
        | inr i ↦
            let (d, c, (w, f, o)) = failed_use t ast.impl_uses (ground arith) in
            spread_use t u ast d w track e (in_impl ast d c) f o
      ]

  -- To lower the flag of a unit that fails keeps the table.
  Tracks-failed :
      (a seen : Units) (k : Bytes) (u : ParsedUnit) (rest : Units)
      → Tracks a (seen ++ ((k, u) ∷ rest))
      → ((v : ParsedUnit) → u ≡ record v { ok = u.ok } → Fails units v)
      → Tracks a (seen ++ ((k, record u { ok = false }) ∷ rest))
  Tracks-failed [] [] k u rest t f = absurd t
  Tracks-failed [] (e ∷ seen) k u rest t f = absurd t
  Tracks-failed ((l, v) ∷ a) [] k u rest t f =
      let b = t.1 in
      (
        t.0,
        (ap (λ (x : ParsedUnit). record x { ok = false }) b.0, (λ h. f v b.0), (λ h. refl)),
        t.2,
      )
  Tracks-failed ((l, v) ∷ a) ((m, w) ∷ seen) k u rest t f =
      (t.0, t.1, Tracks-failed a seen k u rest t.2 f)

  -- The flag plays no part in what a unit uses.
  fails_before :
      (t : Units) (u v : ParsedUnit)
      → Tracks units t
      → fails_now t u ≡ true
      → u ≡ record v { ok = u.ok }
      → Fails units v
  unfolding fails_now
  fails_before t u v track h e = fails_of t v track (
      subst (λ (x : Option UnitNode). uses_failed t x ≡ true) (ap (λ (x : ParsedUnit). x.ast) e)
        (ground arith))

  fail_dependents-Tracks :
      (seen rest : Units) (changed : Bool)
      → Tracks units (seen ++ rest)
      → Tracks units (fail_dependents seen rest changed).0
  unfolding fail_dependents
  fail_dependents-Tracks seen [] changed t = subst (Tracks units) (append-nil seen) t
  fail_dependents-Tracks seen ((k, u) ∷ rest) changed t =
      if_ind (λ (r : Units × Bool). Tracks units r.0) (fails_now (seen ++ ((k, u) ∷ rest)) u)
        (λ f. fail_dependents-Tracks (seen ++ ((k, record u { ok = false }) ∷ [])) rest true (
          subst (Tracks units) (sym (append_assoc seen ((k, record u { ok = false }) ∷ []) rest)) (
            Tracks-failed units seen k u rest t
              (λ v e. fails_before (seen ++ ((k, u) ∷ rest)) u v t f e))))
        (λ f.
          fail_dependents-Tracks (seen ++ ((k, u) ∷ [])) rest changed
            (subst (Tracks units) (sym (append_assoc seen ((k, u) ∷ []) rest)) t))

  pub fail_rounds-Tracks :
      (fuel : ℕ) (a t : Units) → Tracks units a → fail_rounds fuel a ≡ some t → Tracks units t
  unfolding fail_rounds
  fail_rounds-Tracks zero a t h e = cc
  fail_rounds-Tracks (suc fuel) a t h e =
      let next = fail_dependents-Tracks [] a false h in
      if_ind (λ o. o ≡ some t → Tracks units t) (fail_dependents [] a false).1
        (λ _ q. fail_rounds-Tracks fuel (fail_dependents [] a false).0 t next q)
        (λ _ q.
          let ended : (fail_dependents [] a false).0 ≡ t = cc in subst (Tracks units) ended next)
        e
