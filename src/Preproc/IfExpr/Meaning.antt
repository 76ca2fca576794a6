-- ===== src/Preproc/IfExpr/Meaning.antt =====
-- Boolean expressions as trees, their values, and the text that stands for a tree: what
-- `eval_if_expr` (src/lexer.cc) is compared with.
pub mod Forms
pub mod Show
pub mod Chain
pub mod Precedence
use tp2cc.Preproc.IfText.{is_word}
use tp2cc.Prelude.{
  Bool, Bytes, [], codes, false, if◌then◌else◌, is_empty, not, suc, true, ℕ, ◌&&◌, ◌++◌, ◌+◌, ◌||◌,
  ◌∷◌, ◌≡◌,
}
use tp2cc.Text.{lower}
use tp2cc.Preproc.Macro.{Defines, is_defined}
use tp2cc.Preproc.IfExpr.{same_bool}

pub data Condition : Type 0 where
  constant : Bool → Condition
  defined_symbol : Bytes → Condition
  negation : Condition → Condition
  conjunction disjunction equality : Condition → Condition → Condition

pub meaning : Defines → Condition → Bool
meaning ds (constant b) = b
meaning ds (defined_symbol s) = is_defined (lower s) ds
meaning ds (negation c) = not (meaning ds c)
meaning ds (conjunction c d) = meaning ds c && meaning ds d
meaning ds (disjunction c d) = meaning ds c || meaning ds d
meaning ds (equality c d) = same_bool (meaning ds c) (meaning ds d)

-- The text of a condition in parentheses, with `rest` behind it.
unfoldable pub show : Condition → Bytes → Bytes
show (constant b) rest = b'(' ∷ (if b then codes "true)" ++ rest else codes "false)" ++ rest)
show (defined_symbol s) rest = b'(' ∷ (codes "defined(" ++ (s ++ (codes "))" ++ rest)))
show (negation c) rest = b'(' ∷ (codes "not" ++ show c (b')' ∷ rest))
show (conjunction c d) rest = b'(' ∷ show c (codes "and" ++ show d (b')' ∷ rest))
show (disjunction c d) rest = b'(' ∷ show c (codes "or" ++ show d (b')' ∷ rest))
show (equality c d) rest = b'(' ∷ show c (b'=' ∷ show d (b')' ∷ rest))

-- The symbols are words, and not empty.
abbrev pub AllWord : Bytes → Type 0
AllWord [] = Unit
AllWord (c ∷ s) = (is_word c ≡ true) × AllWord s

abbrev pub IsProper : Condition → Type 0
IsProper (constant b) = Unit
IsProper (defined_symbol s) = (is_empty s ≡ false) × AllWord s
IsProper (negation c) = IsProper c
IsProper (conjunction c d) = IsProper c × IsProper d
IsProper (disjunction c d) = IsProper c × IsProper d
IsProper (equality c d) = IsProper c × IsProper d

-- Parentheses inside one another.
abbrev pub height : Condition → ℕ
height (constant b) = 1
height (defined_symbol s) = 1
height (negation c) = suc (height c)
height (conjunction c d) = suc (height c + height d)
height (disjunction c d) = suc (height c + height d)
height (equality c d) = suc (height c + height d)
