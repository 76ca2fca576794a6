-- ===== src/Emit/Const/Whole.antt =====
-- The constant evaluator on whole expressions.
use tp2cc.Emit.Bits.Sums.{checked_int64-exact}
use tp2cc.Runtime.Integers.Wrapping.{cast-fits}
use mathlib.Core.Path.{subst}
use tp2cc.Prelude.{
  Bool, Bool-cases, Option, ap, arith, false, if◌then◌else◌, inl, inr, leb_ℤ, ltb, ltb_ℤ, ltb→lt,
  none, not, pos, pos_part, refl, some, sym, true, ℕ, ℤ, ◌&&◌, ◌+ℤ◌, ◌-ℤ◌, ◌-◌, ◌<◌, ◌||◌, ◌∙◌, ◌≡◌,
}
use tp2cc.Runtime.Integers.{cast, fits, integer_from_bits, max_of, min_of, to_bits, u64}
use tp2cc.Emit.Bits.{checked_sub_int64, int64}
use tp2cc.Emit.Primitives.{ordinal_integer_primitive, primitive_info_for_value}
use tp2cc.Emit.Const.{
  BinaryKind, ConstExpr, ConstIntExprInfo, Folded, UnaryOp, binary, eval_const_int_expr,
  fold_binary, fold_literal, fold_negation, fold_operands, fold_unary, folded, integer_add,
  integer_bitwise, integer_compare, integer_div, integer_mod, integer_mul, integer_shift,
  integer_sub, is_unsigned, large_value, leaf, literal, neg, other_kind, other_unary, plus,
  typed_or_overflow, typed_value, unary,
}
use tp2cc.Emit.Const.Exact.{
  IsConst, exact_binary, fold_binary-exact, from_exact, info_of, integer_of, is_arithmetic,
  is_const, is_representable,
}

negative_type : (v : ℤ) → ltb_ℤ v (pos 0) ≡ true → is_unsigned (primitive_info_for_value v) ≡ false
unfolding primitive_info_for_value
negative_type v h = ground arith

large_IsConst : (n : ℕ) → n < u64 → IsConst (large_value n) × (integer_of (large_value n) ≡ pos n)
unfolding ordinal_integer_primitive
large_IsConst n h = ((refl, h), ground arith)

cast_bits : (v : ℤ) → (cast int64 v ≡ cast int64 (pos (to_bits u64 v))) × (to_bits u64 v < u64)
unfolding cast integer_from_bits to_bits
cast_bits v = ground arith

typed_integer : (v : ℤ) → fits int64 v ≡ true → integer_of (typed_value v) ≡ v
unfolding to_bits
typed_integer v h = elim (Bool-cases (ltb_ℤ v (pos 0))) [
  | inl e ↦ ground (arith, negative_type v e)
  | inr e ↦ ground arith
]

typed_IsConst :
    (v : ℤ) → fits int64 v ≡ true → IsConst (typed_value v) × (integer_of (typed_value v) ≡ v)
typed_IsConst v h =
    ((sym (cast-fits int64 v h) ∙ (cast_bits v).0, (cast_bits v).1), typed_integer v h)

large_info :
    (v : ℤ)
    → ltb_ℤ (max_of int64) v ≡ true
    → is_representable v ≡ true
    → IsConst (large_value (pos_part v)) × (integer_of (large_value (pos_part v)) ≡ v)
large_info v e h =
    let q : pos (pos_part v) ≡ v = ground arith in
    let l = large_IsConst (pos_part v) (ground arith) in (l.0, l.1 ∙ q)

-- What the evaluator gives for a representable result stands for that result.
info_of_lem :
    (v : ℤ) → is_representable v ≡ true → IsConst (info_of v) × (integer_of (info_of v) ≡ v)
unfolding cast integer_from_bits to_bits
info_of_lem v h = elim (Bool-cases (ltb_ℤ (max_of int64) v)) [
  | inl e ↦ rw e (large_info v e h)
  | inr e ↦ rw e (typed_IsConst v (ground arith))
]

-- The exact value of a leaf is the integer that its bits and its type stand for.
abbrev leaf_value : Folded → Option ℤ
leaf_value r = elim r.info [
  | none ↦ none
  | some i ↦ if r.overflow || not (is_const i) then none else some (integer_of i)
]

abbrev representable : Option ℤ → Option ℤ
representable none = none
representable (some v) = if is_representable v then some v else none

-- A negation is exact on the values of `int64_t` that have an opposite there.
abbrev exact_unary : UnaryOp → ℤ → Option ℤ
exact_unary plus v = some v
exact_unary neg v =
    if ltb_ℤ (min_of int64) v && leb_ℤ v (max_of int64) then some (pos 0 -ℤ v) else none
exact_unary other_unary v = none

abbrev exact_operands : BinaryKind → Option ℤ → Option ℤ → Option ℤ
exact_operands kind none b = none
exact_operands kind (some a) none = none
exact_operands kind (some a) (some b) = representable (exact_binary kind a b)

abbrev exact_operand : UnaryOp → Option ℤ → Option ℤ
exact_operand op none = none
exact_operand op (some v) = exact_unary op v

-- The exact value of an expression, where every part of it has one that is representable. A shift,
-- a bitwise operation, a comparison and a leaf whose value is not that of its bits have none.
unfoldable pub exact : ConstExpr → Option ℤ
exact (literal n) = if ltb n u64 then some (pos n) else none
exact (leaf result) = leaf_value result
exact (unary op e) = exact_operand op (exact e)
exact (binary kind l r) = exact_operands kind (exact l) (exact r)

abbrev HasInteger : Option ConstIntExprInfo → ℤ → Type 0
HasInteger none v = ⊥
HasInteger (some i) v = IsConst i × (integer_of i ≡ v)

-- The evaluator returned a constant for the integer, without overflow.
abbrev pub Means : Folded → ℤ → Type 0
Means r v = HasInteger r.info v × (r.overflow ≡ false)

abbrev Agrees : Option ℤ → Folded → Type 0
Agrees none r = Unit
Agrees (some v) r = Means r v

literal-Means : (n : ℕ) → n < u64 → Means (fold_literal n) (pos n)
unfolding fold_literal
literal-Means n h = elim (Bool-cases (ltb 0x7FFF_FFFF_FFFF_FFFF n)) [
  | inl e ↦ rw e (large_IsConst n h, refl)
  | inr e ↦ rw e (typed_IsConst (pos n) (ground arith), refl)
]

literal-Agrees : (n : ℕ) → Agrees (exact (literal n)) (fold_literal n)
unfolding fold_literal exact
literal-Agrees n = elim (Bool-cases (ltb n u64)) [
  | inl e ↦ rw e (literal-Means n (ltb→lt n u64 e))
  | inr e ↦ rw e tt
]

is_const-IsConst : (i : ConstIntExprInfo) → is_const i ≡ true → IsConst i
is_const-IsConst i h = ground arith

leaf-Agrees_at :
    (i : Option ConstIntExprInfo) (o : Bool)
    → Agrees (leaf_value (record { info = i; overflow = o })) (record { info = i; overflow = o })
leaf-Agrees_at none o = tt
leaf-Agrees_at (some i) true = tt
leaf-Agrees_at (some i) false = elim (Bool-cases (is_const i)) [
  | inl e ↦ rw e ((is_const-IsConst i e, refl), refl)
  | inr e ↦ rw e tt
]

leaf-Agrees : (r : Folded) → Agrees (leaf_value r) r
leaf-Agrees r = leaf-Agrees_at r.info r.overflow

value_of :
    (i : ConstIntExprInfo) (v : ℤ)
    → IsConst i
    → integer_of i ≡ v
    → fits int64 v ≡ true
    → i.value ≡ v
unfolding cast integer_from_bits to_bits
value_of i v c e h = ground arith

opposite_fits :
    (v : ℤ)
    → (ltb_ℤ (min_of int64) v && leb_ℤ v (max_of int64)) ≡ true
    → (fits int64 v ≡ true) × (fits int64 (pos 0 -ℤ v) ≡ true)
unfolding ◌-ℤ◌
opposite_fits v h = ground arith

negation-Means :
    (i : ConstIntExprInfo) (v : ℤ)
    → IsConst i
    → integer_of i ≡ v
    → (ltb_ℤ (min_of int64) v && leb_ℤ v (max_of int64)) ≡ true
    → Means (fold_negation i) (pos 0 -ℤ v)
unfolding fold_negation
negation-Means i v c e h =
    let f = opposite_fits v h in
    let s : checked_sub_int64 (pos 0) i.value ≡ some (pos 0 -ℤ v) =
      ap (checked_sub_int64 (pos 0)) (value_of i v c e f.0)
      ∙ (checked_int64-exact (pos 0) v refl f.0).1
      ∙ ap (λ (b : Bool). if b then some (pos 0 -ℤ v) else none) f.1 in
    subst (λ x. Means (typed_or_overflow x) (pos 0 -ℤ v)) (sym s)
      (typed_IsConst (pos 0 -ℤ v) f.1, refl)

unary-Agrees_at :
    (op : UnaryOp) (v : ℤ) (i : Option ConstIntExprInfo) (o : Bool)
    → HasInteger i v
    → o ≡ false
    → Agrees (exact_unary op v) (fold_unary op (record { info = i; overflow = o }))
unfolding fold_unary
unary-Agrees_at op v none o h e = absurd h
unary-Agrees_at plus v (some i) o h e = (h, e)
unary-Agrees_at other_unary v (some i) o h e = tt
unary-Agrees_at neg v (some i) o h e =
    elim (Bool-cases (ltb_ℤ (min_of int64) v && leb_ℤ v (max_of int64))) [
      | inl k ↦ rw (k, e) (negation-Means i v h.0 h.1 k)
      | inr k ↦ rw k tt
    ]

unary-Agrees :
    (op : UnaryOp) (x : Option ℤ) (r : Folded)
    → Agrees x r
    → Agrees (exact_operand op x) (fold_unary op r)
unfolding fold_unary
unary-Agrees op none r h = tt
unary-Agrees op (some v) r h = unary-Agrees_at op v r.info r.overflow h.0 h.1

not_exact :
    (kind : BinaryKind) (a b : ℤ) → is_arithmetic kind ≡ false → exact_binary kind a b ≡ none
not_exact integer_compare a b h = refl
not_exact other_kind a b h = refl
not_exact (integer_shift l) a b h = refl
not_exact (integer_bitwise op) a b h = refl
not_exact integer_add a b h = cc
not_exact integer_sub a b h = cc
not_exact integer_mul a b h = cc
not_exact integer_div a b h = cc
not_exact integer_mod a b h = cc

exact-Means : (x : Option ℤ) → Agrees (representable x) (from_exact x)
exact-Means none = tt
exact-Means (some v) = elim (Bool-cases (is_representable v)) [
  | inl e ↦ rw e (info_of_lem v e, refl)
  | inr e ↦ rw e tt
]

binary-Means :
    (kind : BinaryKind) (l r : ConstIntExprInfo) (pointer_bits : ℕ)
    → IsConst l
    → IsConst r
    → Agrees
        (representable (exact_binary kind (integer_of l) (integer_of r)))
        (fold_binary kind l r pointer_bits)
binary-Means kind l r p h j = elim (Bool-cases (is_arithmetic kind)) [
  | inl k ↦
      rw (fold_binary-exact kind l r p k h j)
        (exact-Means (exact_binary kind (integer_of l) (integer_of r)))
  | inr k ↦ rw (not_exact kind (integer_of l) (integer_of r) k) tt
]

binary-Agrees_at :
    (kind : BinaryKind) (a b : ℤ) (l r : Option ConstIntExprInfo) (o q : Bool) (pointer_bits : ℕ)
    → HasInteger l a
    → HasInteger r b
    → o ≡ false
    → q ≡ false
    → Agrees (representable (exact_binary kind a b)) (
        fold_operands kind
          (record { info = l; overflow = o })
          (record { info = r; overflow = q })
          pointer_bits)
unfolding fold_operands
binary-Agrees_at kind a b none r o q p h j e f = absurd h
binary-Agrees_at kind a b (some l) none o q p h j e f = absurd j
binary-Agrees_at kind a b (some l) (some r) o q p h j e f =
    rw (e, f)
      (subst (λ x. Agrees (representable (exact_binary kind x b)) (fold_binary kind l r p)) h.1
        (subst
          (λ y.
            Agrees (representable (exact_binary kind (integer_of l) y)) (fold_binary kind l r p))
          j.1 (binary-Means kind l r p h.0 j.0)))

binary-Agrees :
    (kind : BinaryKind) (x y : Option ℤ) (l r : Folded) (pointer_bits : ℕ)
    → Agrees x l
    → Agrees y r
    → Agrees (exact_operands kind x y) (fold_operands kind l r pointer_bits)
unfolding fold_operands
binary-Agrees kind none y l r p h j = tt
binary-Agrees kind (some a) none l r p h j = tt
binary-Agrees kind (some a) (some b) l r p h j =
    binary-Agrees_at kind a b l.info r.info l.overflow r.overflow p h.0 j.0 h.1 j.1

agrees : (e : ConstExpr) (pointer_bits : ℕ) → Agrees (exact e) (eval_const_int_expr e pointer_bits)
unfolding exact eval_const_int_expr
agrees (literal n) p = literal-Agrees n
agrees (leaf r) p = leaf-Agrees r
agrees (unary op e) p = unary-Agrees op (exact e) (eval_const_int_expr e p) (agrees e p)
agrees (binary kind l r) p =
    binary-Agrees kind (exact l) (exact r) (eval_const_int_expr l p) (eval_const_int_expr r p) p
      (agrees l p) (agrees r p)

-- The evaluator gives an expression of literals, leaves, signs, `+`, `-`, `*`, `div` and `mod` its
-- exact value, without overflow, where each of its parts has one in `int64_t` or `uint64_t`, only
-- values of `int64_t` other than the least are negated, and the value of each leaf is that of its 64
-- bits. A leaf that is a negative constant converted to a narrower signed type is excluded, and so is
-- an expression with a shift, a bitwise operation or a comparison anywhere in it.
pub eval_const_int_expr-exact :
    (e : ConstExpr) (pointer_bits : ℕ) (v : ℤ)
    → exact e ≡ some v
    → Means (eval_const_int_expr e pointer_bits) v
eval_const_int_expr-exact e p v h = subst (λ x. Agrees x (eval_const_int_expr e p)) h (agrees e p)

large_negated :
    (i : ConstIntExprInfo)
    → IsConst i
    → ltb 0x8000_0000_0000_0000 i.bits ≡ true
    → checked_sub_int64 (pos 0) i.value ≡ some (pos (u64 - i.bits))
unfolding cast integer_from_bits to_bits checked_sub_int64 ◌+ℤ◌ ◌-ℤ◌
large_negated i c b = ground arith

-- The negation of a constant beyond `int64_t` is folded by its `int64_t` value: the result is the
-- distance to 2^64, and no overflow.
fold_negation-large :
    (i : ConstIntExprInfo)
    → IsConst i
    → is_unsigned i.type ≡ true
    → ltb 0x8000_0000_0000_0000 i.bits ≡ true
    → fold_negation i ≡ folded (typed_value (pos (u64 - i.bits)))
unfolding fold_negation
fold_negation-large i c l b = ap typed_or_overflow (large_negated i c b)
