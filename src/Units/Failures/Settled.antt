-- ===== src/Units/Failures/Settled.antt =====
-- The rounds end, and leave no unit that uses a failed one and counts as parsed.
use mathlib.Core.Path.{subst}
use tp2cc.Prelude.{
  Bool, Bool-cases, Bytes, [], ap, append-nil, append_assoc, arith, false, if_ind, if◌then◌else◌,
  inl, inr, length, refl, some, suc, sym, true, zero, ℕ, ◌++◌, ◌+◌, ◌<◌, ◌∙◌, ◌∷◌, ◌≡◌, ◌≤◌,
}
use tp2cc.Units.{ParsedUnit, Units}
use tp2cc.Units.Failures.{fail_dependents, fail_rounds, fails_now, propagate_failures}

-- No unit of `rest` would fail in a round over `units`.
abbrev pub AllSettled : Units → Units → Type 0
AllSettled units [] = Unit
AllSettled units ((k, u) ∷ rest) = (fails_now units u ≡ false) × AllSettled units rest

abbrev parsed : Units → ℕ
parsed [] = 0
parsed ((k, u) ∷ rest) = (if u.ok then 1 else 0) + parsed rest

parsed-append : (a b : Units) → parsed (a ++ b) ≡ parsed a + parsed b
parsed-append [] b = omega arith
parsed-append ((k, u) ∷ a) b = omega (arith, parsed-append a b)

parsed-le : (units : Units) → parsed units ≤ length units
parsed-le [] = omega arith
parsed-le ((k, u) ∷ units) = ground (arith, parsed-le units)

one_unit :
    (k : Bytes) (u : ParsedUnit) (seen rest : Units)
    → (seen ++ ((k, u) ∷ [])) ++ rest ≡ seen ++ ((k, u) ∷ rest)
one_unit k u seen rest = append_assoc seen ((k, u) ∷ []) rest

-- A round that changes nothing returns the table as it was, and every unit of it is settled.
unchanged-AllSettled :
    (seen rest : Units) (changed : Bool)
    → (fail_dependents seen rest changed).1 ≡ false
    → (changed ≡ false)
      × ((fail_dependents seen rest changed).0 ≡ seen ++ rest)
      × AllSettled (seen ++ rest) rest
unfolding fail_dependents
unchanged-AllSettled seen [] changed h = (h, sym (append-nil seen), tt)
unchanged-AllSettled seen ((k, u) ∷ rest) changed h =
    if_ind
      (λ (t : Units × Bool).
        t.1 ≡ false
        → (changed ≡ false)
          × (t.0 ≡ seen ++ ((k, u) ∷ rest))
          × AllSettled (seen ++ ((k, u) ∷ rest)) ((k, u) ∷ rest))
      (fails_now (seen ++ ((k, u) ∷ rest)) u)
      (λ f g.
        let (c, e, a) =
          unchanged-AllSettled (seen ++ ((k, record u { ok = false }) ∷ [])) rest true g in
        cc)
      (λ f g.
        let (c, e, a) = unchanged-AllSettled (seen ++ ((k, u) ∷ [])) rest changed g in
        (
          c,
          e ∙ one_unit k u seen rest,
          (f, subst (λ (t : Units). AllSettled t rest) (one_unit k u seen rest) a),
        ))
      h

fails_now-ok : (units : Units) (u : ParsedUnit) → fails_now units u ≡ true → u.ok ≡ true
unfolding fails_now
fails_now-ok units u h = ground arith

parsed-failed :
    (k : Bytes) (u : ParsedUnit) (seen rest : Units)
    → u.ok ≡ true
    → 1 + parsed ((seen ++ ((k, record u { ok = false }) ∷ [])) ++ rest)
      ≡ parsed (seen ++ ((k, u) ∷ rest))
parsed-failed k u seen rest h = ground (
  arith,
  parsed-append (seen ++ ((k, record u { ok = false }) ∷ [])) rest,
  parsed-append seen ((k, record u { ok = false }) ∷ []),
  parsed-append seen ((k, u) ∷ rest),
)

-- A round that changes something leaves fewer units parsed.
changed-parsed :
    (seen rest : Units) (changed : Bool)
    → (if (fail_dependents seen rest changed).1 then 1 else 0)
        + parsed (fail_dependents seen rest changed).0
      ≤ (if changed then 1 else 0) + parsed (seen ++ rest)
unfolding fail_dependents
changed-parsed seen [] changed = omega (arith, parsed-append seen [])
changed-parsed seen ((k, u) ∷ rest) changed =
    if_ind
      (λ (t : Units × Bool).
        (if t.1 then 1 else 0) + parsed t.0
        ≤ (if changed then 1 else 0) + parsed (seen ++ ((k, u) ∷ rest)))
      (fails_now (seen ++ ((k, u) ∷ rest)) u)
      (λ f.
        let ih = changed-parsed (seen ++ ((k, record u { ok = false }) ∷ [])) rest true in
        let one = parsed-failed k u seen rest (fails_now-ok _ u f) in omega arith)
      (λ f.
        let ih = changed-parsed (seen ++ ((k, u) ∷ [])) rest changed in
        let same_count = ap parsed (one_unit k u seen rest) in omega arith)

-- The rounds end with a table in which every unit is settled.
rounds-AllSettled :
    (fuel : ℕ) (units : Units)
    → parsed units < fuel
    → (t : Units) × (fail_rounds fuel units ≡ some t) × AllSettled t t
unfolding fail_rounds
rounds-AllSettled zero units h = elim h [ ]
rounds-AllSettled (suc fuel) units h =
    let round = fail_dependents [] units false in
    let count = changed-parsed [] units false in
    elim (Bool-cases round.1) [
      | inl c ↦
          let fewer =
            fewer_parsed round.1 (parsed round.0) (parsed units) c (omega (arith, count)) in
          rw c (rounds-AllSettled fuel round.0 (omega arith))
      | inr c ↦
          let (b, e, a) = unchanged-AllSettled [] units false c in
          rw c (round.0, refl, subst (λ (t : Units). AllSettled t t) (sym e) a)
    ]
  where
    fewer_parsed : (b : Bool) (m n : ℕ) → b ≡ true → (if b then 1 else 0) + m ≤ n → m < n
    fewer_parsed true m n h k = omega arith
    fewer_parsed false m n h k = cc

-- The spread of failures ends, and then no unit that counts as parsed uses a unit of the table that
-- has failed.
pub propagate_failures-AllSettled :
    (units : Units) → (t : Units) × (propagate_failures units ≡ some t) × AllSettled t t
unfolding propagate_failures
propagate_failures-AllSettled units =
    rounds-AllSettled (suc (length units)) units (omega (arith, parsed-le units))
