-- ===== src/Preproc/Macro/Laws.antt =====
-- What a symbol is after a definition and after an `{$undef}`.
use tp2cc.Prelude.{
  Bytes, Option, [], arith, false, if◌then◌else◌, is_empty, none, refl, same, same_iff, some, ◌∷◌,
  ◌≡◌,
}
use tp2cc.Text.{lower}
use tp2cc.Preproc.Macro.{
  Defines, define, erase_define, find_define, parse_macro_definition, set_define, undefine,
}

pub find_define-set_define :
    (key k : Bytes) (text : Option Bytes) (ds : Defines)
    → find_define k (set_define key text ds) ≡ (if same key k then some text else find_define k ds)
unfolding find_define set_define
find_define-set_define key k text [] = refl
find_define-set_define key k text ((j, t) ∷ ds) =
    ground
      (arith, same_iff j key, same_iff j k, same_iff key k, find_define-set_define key k text ds)

pub find_define-erase_define :
    (key k : Bytes) (ds : Defines)
    → find_define k (erase_define key ds) ≡ (if same key k then none else find_define k ds)
unfolding find_define erase_define
find_define-erase_define key k [] = ground arith
find_define-erase_define key k ((j, t) ∷ ds) =
    ground (arith, same_iff j key, same_iff j k, same_iff key k, find_define-erase_define key k ds)

-- A definition with a name gives its symbol the text that `parse_macro_definition` reads, and changes
-- no other symbol.
find_define-define :
    (s k : Bytes) (ds : Defines)
    → is_empty (lower (parse_macro_definition s).name) ≡ false
    → find_define k (define s ds) ≡ (
        if same (lower (parse_macro_definition s).name) k
        then some (parse_macro_definition s).text
        else find_define k ds)
unfolding define
find_define-define s k ds h = rw h (find_define-set_define _ k (parse_macro_definition s).text ds)

-- `undefine` removes the symbol, in any mixture of cases, and no other.
pub find_define-undefine :
    (name k : Bytes) (ds : Defines)
    → find_define k (undefine name ds) ≡ (if same (lower name) k then none else find_define k ds)
unfolding undefine
find_define-undefine name k ds = find_define-erase_define (lower name) k ds
