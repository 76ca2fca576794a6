-- ===== src/Makefile/Shell.antt =====
-- How the shell reads the words of a recipe that make has passed on, and the arguments that were
-- quoted.
use tp2cc.Prelude.{
  ==→eq, Bool, Bool-cases, Bytes, List, Option, [], ap, append-nil, append_assoc, false, if_ind,
  inl, inr, none, not, refl, some, true, ℕ, ◌++◌, ◌==◌, ◌||◌, ◌∙◌, ◌∷◌, ◌≡◌,
}
use tp2cc.Makefile.{quote_char, quote_chars, shell_quote, write_args}

-- Inside `'...'`, inside `"..."`, in a word, or between words: the quoting of the POSIX shell.
pub data Mode : Type 0 where
  in_single in_double in_word between : Mode

abbrev push_word : Bytes → Option (List Bytes) → Option (List Bytes)
push_word w none = none
push_word w (some ws) = some (w ∷ ws)

-- Special inside `"..."`
abbrev expands : ℕ → Bool
expands c = c == b'$' || c == b'`' || c == b'\\'

-- The words of a command line; `current` is the word that is being read. What expands or escapes
-- is not read.
unfoldable pub words_from : Mode → Bytes → Bytes → Option (List Bytes)
words_from in_single current [] = none
words_from in_double current [] = none
words_from in_word current [] = some (current ∷ [])
words_from between current [] = some []
words_from in_single current (c ∷ s) = elim (c == b'\'') [
  | true ↦ words_from in_word current s
  | false ↦ words_from in_single (current ++ (c ∷ [])) s
]
words_from in_double current (c ∷ s) = elim (c == b'"') [
  | true ↦ words_from in_word current s
  | false ↦ elim (expands c) [ true ↦ none | false ↦ words_from in_double (current ++ (c ∷ [])) s ]
]
words_from in_word current (c ∷ s) = elim (c == b' ') [
  | true ↦ push_word current (words_from between [] s)
  | false ↦ elim (c == b'\'') [
    | true ↦ words_from in_single current s
    | false ↦ elim (c == b'"') [ true ↦ words_from in_double current s | false ↦ none ]
  ]
]
words_from between current (c ∷ s) = elim (c == b' ') [
  | true ↦ words_from between [] s
  | false ↦ elim (c == b'\'') [ true ↦ words_from in_single [] s | false ↦ none ]
]

elim_false : {A : Type 0} (b : Bool) (x y : A) → b ≡ false → (elim b [ true ↦ x | false ↦ y ]) ≡ y
elim_false true x y h = cc
elim_false false x y h = refl

words-quote_char :
    (c : ℕ) (current rest : Bytes)
    → words_from in_single current (quote_char c ++ rest)
      ≡ words_from in_single (current ++ (c ∷ [])) rest
unfolding words_from quote_char
words-quote_char c current rest = elim (Bool-cases (c == b'\'')) [
  | inl h ↦ rw (==→eq c b'\'' h) refl
  | inr h ↦ rw h (elim_false (c == b'\'') _ _ h)
]

words-quote_chars :
    (s current rest : Bytes)
    → words_from in_single current (quote_chars s ++ (b'\'' ∷ rest))
      ≡ words_from in_word (current ++ s) rest
unfolding words_from quote_chars
words-quote_chars [] current rest = rw (append-nil current) refl
words-quote_chars (c ∷ s) current rest =
    rw (append_assoc (quote_char c) (quote_chars s) (b'\'' ∷ rest)) rw
      (words-quote_char c current (quote_chars s ++ (b'\'' ∷ rest))) rw
      (words-quote_chars s (current ++ (c ∷ [])) rest) rw (append_assoc current (c ∷ []) s) refl

-- A quoted argument, read where a word may begin, is the word `s`, quotes and blanks included.
words-shell_quote :
    (s rest : Bytes) → words_from between [] (shell_quote s ++ rest) ≡ words_from in_word s rest
unfolding shell_quote words_from
words-shell_quote s rest =
    rw (append_assoc (quote_chars s) (b'\'' ∷ []) rest) (words-quote_chars s [] rest)

word-write_args :
    (w : Bytes) (args : List Bytes)
    → words_from between [] (write_args args) ≡ some args
    → words_from in_word w (write_args args) ≡ some (w ∷ args)
unfolding words_from write_args
word-write_args w [] h = refl
word-write_args w (a ∷ args) h = rw h refl

words-arguments : (args : List Bytes) → words_from between [] (write_args args) ≡ some args
unfolding words_from write_args
words-arguments [] = refl
words-arguments (a ∷ args) =
    rw (words-shell_quote a (write_args args)) (word-write_args a args (words-arguments args))

-- What make leaves as it is in a line of a recipe: no `$`, which it expands, and no line break,
-- which ends the line.
abbrev is_literal : ℕ → Bool
is_literal c = not (c == b'$' || c == b'\n')

abbrev pub IsLiteral : Bytes → Type 0
IsLiteral [] = Unit
IsLiteral (c ∷ s) = (is_literal c ≡ true) × IsLiteral s

abbrev pub AreLiteral : List Bytes → Type 0
AreLiteral [] = Unit
AreLiteral (a ∷ args) = IsLiteral a × AreLiteral args

IsLiteral-append : (s t : Bytes) → IsLiteral s → IsLiteral t → IsLiteral (s ++ t)
IsLiteral-append [] t h k = k
IsLiteral-append (c ∷ s) t h k = (h.0, IsLiteral-append s t h.1 k)

quote_char-IsLiteral : (c : ℕ) → is_literal c ≡ true → IsLiteral (quote_char c)
unfolding quote_char
quote_char-IsLiteral c h =
    if_ind IsLiteral (c == b'\'') (λ _. (refl, (refl, (refl, (refl, (refl, tt)))))) (λ _. (h, tt))

quote_chars-IsLiteral : (s : Bytes) → IsLiteral s → IsLiteral (quote_chars s)
unfolding quote_chars
quote_chars-IsLiteral [] h = tt
quote_chars-IsLiteral (c ∷ s) h =
    IsLiteral-append (quote_char c) (quote_chars s) (quote_char-IsLiteral c h.0)
      (quote_chars-IsLiteral s h.1)

write_args-IsLiteral : (args : List Bytes) → AreLiteral args → IsLiteral (write_args args)
unfolding write_args shell_quote
write_args-IsLiteral [] h = tt
write_args-IsLiteral (a ∷ args) h = (
  refl,
  (
    refl,
    IsLiteral-append (quote_chars a ++ (b'\'' ∷ [])) (write_args args)
        (IsLiteral-append (quote_chars a) (b'\'' ∷ []) (quote_chars-IsLiteral a h.0) (refl, tt))
        (write_args-IsLiteral args h.1),
  ),
)

-- `expand` stands for what make does to a line of a recipe before the shell reads it; it leaves a
-- line without `$` and line breaks alone. Then the shell reads back the arguments that
-- `emit_makefile` writes behind the program, where none of them holds a `$` or a line break.
pub words-write_args :
    (expand : Bytes → Bytes)
    → ((line : Bytes) → IsLiteral line → expand line ≡ line)
    → (args : List Bytes) → AreLiteral args
    → words_from between [] (expand (write_args args)) ≡ some args
words-write_args expand plain args h =
    ap (words_from between []) (plain (write_args args) (write_args-IsLiteral args h))
    ∙ words-arguments args
