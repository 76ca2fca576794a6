-- ===== src/Preproc/IfExpr/Meaning/Chain.antt =====
-- Conditions without parentheses around them: operands with `not` in front of them, joined by `and`,
-- and these joined by `or`.
use tp2cc.Preproc.IfText.{Parse, bool_value, match_word, move}
use tp2cc.Messages.{IfError}
use tp2cc.Prelude.{
  Bool, Bytes, List, [], arith, codes, false, length, not, refl, some, suc, true, zero, ℕ, ◌&&◌,
  ◌++◌, ◌+◌, ◌<◌, ◌||◌, ◌∷◌, ◌≡◌,
}
use tp2cc.Preproc.Macro.{Defines}
use tp2cc.Preproc.IfExpr.{Result, operator_loop}
use tp2cc.Preproc.IfExpr.Meaning.{Condition, IsProper, height, meaning, show}

-- A condition behind a number of `not`s.
abbrev pub Operand : Type 0
Operand = ℕ × Condition

abbrev pub Chain {ℓ} : Type ℓ → Type ℓ
Chain A = A × List A

abbrev pub negate_times : ℕ → Bool → Bool
negate_times zero b = b
negate_times (suc n) b = not (negate_times n b)

-- The values of a chain, joined from the left.
abbrev pub join_from {ℓ} : {A : Type ℓ} → (Bool → Bool → Bool) → (A → Bool) → Bool → List A → Bool
join_from op val a [] = a
join_from op val a (x ∷ xs) = join_from op val (op a (val x)) xs

abbrev pub join {ℓ} : {A : Type ℓ} → (Bool → Bool → Bool) → (A → Bool) → Chain A → Bool
join op val (x, xs) = join_from op val (val x) xs

abbrev pub operand_value : Defines → Operand → Bool
operand_value ds (n, c) = negate_times n (meaning ds c)

-- `not` binds before `and`, and `and` before `or`.
abbrev pub chain_value : Defines → Chain (Chain Operand) → Bool
chain_value ds = join (λ a b. a || b) (join (λ a b. a && b) (operand_value ds))

abbrev pub show_nots : ℕ → Condition → Bytes → Bytes
show_nots zero c rest = show c rest
show_nots (suc n) c rest = codes " not" ++ show_nots n c rest

abbrev pub show_operand : Operand → Bytes → Bytes
show_operand (n, c) rest = show_nots n c rest

abbrev pub show_tail {ℓ} : {A : Type ℓ} → Bytes → (A → Bytes → Bytes) → List A → Bytes → Bytes
show_tail word one [] rest = rest
show_tail word one (x ∷ xs) rest = word ++ one x (show_tail word one xs rest)

abbrev pub show_chain {ℓ} : {A : Type ℓ} → Bytes → (A → Bytes → Bytes) → Chain A → Bytes → Bytes
show_chain word one (x, xs) rest = one x (show_tail word one xs rest)

abbrev pub show_and : Chain Operand → Bytes → Bytes
show_and = show_chain (codes "and") show_operand

-- The text of a chain of chains, with `rest` behind it.
abbrev pub show_or : Chain (Chain Operand) → Bytes → Bytes
show_or = show_chain (codes "or") show_and

-- The heights of the conditions of a chain, together.
abbrev pub operand_height : Operand → ℕ
operand_height (n, c) = height c

abbrev pub sizes {ℓ} : {A : Type ℓ} → (A → ℕ) → List A → ℕ
sizes size [] = 0
sizes size (x ∷ xs) = size x + sizes size xs

abbrev pub total {ℓ} : {A : Type ℓ} → (A → ℕ) → Chain A → ℕ
total size (x, xs) = size x + sizes size xs

abbrev pub All {ℓ} : {A : Type ℓ} → (A → Type 0) → List A → Type 0
All P [] = Unit
All P (x ∷ xs) = P x × All P xs

-- The symbols of the condition are words.
abbrev pub IsProperOperand : Operand → Type 0
IsProperOperand (n, c) = IsProper c

abbrev pub AllChain {ℓ} : {A : Type ℓ} → (A → Type 0) → Chain A → Type 0
AllChain P (x, xs) = P x × All P xs

module _ (ds : Defines) (expr : Parse → Result) where
  -- A loop over a chain.
  module _ {A : Type 0} (word : Bytes) (error : IfError) (op : Bool → Bool → Bool)
      (operand : Parse → Result) (one : A → Bytes → Bytes) (val : A → Bool) (Ends : Bytes → Type 0)
      (Good : A → Type 0) where
    pub loop_chain :
        (fuel : ℕ) (xs : List A) (a : Bool) (rest : Bytes) (s : Parse)
        → ((x : A) (r : Bytes) → match_word word (word ++ one x r) ≡ (true, one x r))
        → ((x : A) (r : Bytes) (t : Parse)
            → Good x
            → Ends r
            → operand (move (one x r) t) ≡ some (bool_value (val x), move r t))
        → ((x : A) (r : Bytes) → Ends (word ++ one x r))
        → Ends rest
        → match_word word rest ≡ (false, rest)
        → All Good xs
        → length xs < fuel
        → operator_loop ds fuel word error op operand
            (bool_value a)
            (move (show_tail word one xs rest) s)
          ≡ some (bool_value (join_from op val a xs), move rest s)
    unfolding operator_loop
    loop_chain zero xs a rest s m o n e stop g h = absurd (omega arith)
    loop_chain (suc fuel) [] a rest s m o n e stop g h = rw stop refl
    loop_chain (suc fuel) (x ∷ xs) a rest s m o n e stop g h =
        let text = show_tail word one xs rest in
        rw (m x text, o x text s g.0 (tail_ends xs))
          (loop_chain fuel xs (op a (val x)) rest s m o n e stop g.1 (omega arith))
      where
        tail_ends : (ys : List A) → Ends (show_tail word one ys rest)
        tail_ends [] = e
        tail_ends (y ∷ ys) = n y (show_tail word one ys rest)
