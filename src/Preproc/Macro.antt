-- ===== src/Preproc/Macro.antt =====
-- Conditional symbols: `parse_macro_definition`, `defines_`, `Lexer::define` and `undefine`. The
-- map is an association list with a key once at most.
pub mod Laws
use tp2cc.Prelude.{
  Bool, Bytes, List, Option, [], false, if◌then◌else◌, is_empty, none, same, some, true, ◌&&◌, ◌==◌,
  ◌∷◌,
}
use tp2cc.Text.{lower, trim}

-- `struct MacroDefinition`
pub record MacroDefinition : Type 0 where
  pub name : Bytes
  pub text : Option Bytes

-- `body.find(":=")`: what stands before it and behind it.
unfoldable pub find_assign : Bytes → Option (Bytes × Bytes)
find_assign [] = none
find_assign (c ∷ []) = none
find_assign (c ∷ d ∷ s) =
    if c == b':' && d == b'='
    then some ([], s)
    else elim (find_assign (d ∷ s)) [ none ↦ none | some (a, b) ↦ some (c ∷ a, b) ]

unfoldable pub macro_of : Bytes → Option (Bytes × Bytes) → MacroDefinition
macro_of body none = record { name = body; text = none }
macro_of body (some (name, text)) = record { name = trim name; text = some (trim text) }

unfoldable pub parse_macro_definition : Bytes → MacroDefinition
parse_macro_definition rest = macro_of (trim rest) (find_assign (trim rest))

abbrev pub Defines : Type 0
Defines = List (Bytes × Option Bytes)

-- `defines_.find(key)`
unfoldable pub find_define : Bytes → Defines → Option (Option Bytes)
find_define key [] = none
find_define key ((k, text) ∷ ds) = if same k key then some text else find_define key ds

abbrev pub is_some {ℓ} : {A : Type ℓ} → Option A → Bool
is_some none = false
is_some (some a) = true

-- `defines_.count(key) > 0`
unfoldable pub is_defined : Bytes → Defines → Bool
is_defined key ds = is_some (find_define key ds)

-- `defines_[key] = text`
unfoldable pub set_define : Bytes → Option Bytes → Defines → Defines
set_define key text [] = (key, text) ∷ []
set_define key text ((k, t) ∷ ds) =
    if same k key then (k, text) ∷ ds else (k, t) ∷ set_define key text ds

-- `defines_.erase(key)`
unfoldable pub erase_define : Bytes → Defines → Defines
erase_define key [] = []
erase_define key ((k, t) ∷ ds) =
    let kept = erase_define key ds in if same k key then kept else (k, t) ∷ kept

-- `Lexer::define`, and the `{$define}` directive.
unfoldable pub define : Bytes → Defines → Defines
define s ds =
    let def = parse_macro_definition s in
    let key = lower def.name in if is_empty key then ds else set_define key def.text ds

-- `Lexer::undefine`
unfoldable pub undefine : Bytes → Defines → Defines
undefine name ds = erase_define (lower name) ds
