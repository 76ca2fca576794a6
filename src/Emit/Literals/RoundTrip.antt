-- ===== src/Emit/Literals/RoundTrip.antt =====
-- A reader of the emitted string literals beside the writer.
use tp2cc.Prelude.{
  Bool, Bytes, Option, [], codes, false, if◌then◌else◌, none, some, suc, true, zero, ℕ, ◌<◌, ◌==◌,
  ◌∷◌,
}
use tp2cc.Emit.Literals.{char_of_call}
use tp2cc.Emit.Literals.Characters.{read_char}

abbrev and_then {ℓ κ} : {A : Type ℓ} {B : Type κ} → Option A → (A → Option B) → Option B
and_then none f = none
and_then (some x) f = f x

-- The text behind a prefix.
strip : Bytes → Bytes → Option Bytes
strip [] s = some s
strip (c ∷ p) [] = none
strip (c ∷ p) (d ∷ s) = if c == d then strip p s else none

-- A call of `tp2cc_char_of` on a character literal.
read_call : Bytes → Option (ℕ × Bytes)
read_call s =
    and_then (strip char_of_call s)
      λ t. and_then (read_char t) λ x. and_then (strip (codes ")") x.1) λ u. some (x.0, u)

-- The arguments up to the closing parenthesis, and the text behind it.
read_items : ℕ → Bool → Bytes → Option (Bytes × Bytes)
read_items zero first s = none
read_items (suc n) first s = elim (strip (codes ")") s) [
  | some t ↦ some ([], t)
  | none ↦
      and_then (strip (if first then [] else codes ", ") s) λ t.
        and_then (read_call t) λ x. and_then (read_items n false x.1) λ y. some (x.0 ∷ y.0, y.1)
]

abbrev one_byte : ℕ × Bytes → Option (Bytes × Bytes)
one_byte (c, s) = some (c ∷ [], s)

-- The bytes of `tp2cc_shortstring_literal<N>` of the runtime: as many as its capacity takes.
unfoldable pub shortstring_literal : ℕ → Bytes → Bytes
shortstring_literal capacity [] = []
shortstring_literal zero (c ∷ chars) = []
shortstring_literal (suc capacity) (c ∷ chars) = c ∷ shortstring_literal capacity chars

-- The value of the call, and the text behind it.
abbrev call_literal : Option (Bytes × Bytes) → Option (Bytes × Bytes)
call_literal none = none
call_literal (some (chars, s)) = some (shortstring_literal 255 chars, s)

abbrev literal_call : Bytes
literal_call = codes "::rt::tp2cc_shortstring_literal<255>("

-- A string or a character of the emitted program: its bytes, and the text behind it.
pub read_literal : ℕ → Bytes → Option (Bytes × Bytes)
read_literal rounds s = elim (strip literal_call s) [
  | some t ↦ call_literal (read_items rounds true t)
  | none ↦ and_then (read_call s) one_byte
]

abbrev AreBytes : Bytes → Type 0
AreBytes [] = Unit
AreBytes (c ∷ s) = (c < 256) × AreBytes s
