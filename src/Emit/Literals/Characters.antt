-- ===== src/Emit/Literals/Characters.antt =====
-- A reader of C++ character literals beside the writer.
use tp2cc.Prelude.{
  Bytes, Option, [], ap, arith, if_ind, if◌then◌else◌, leb, ltb, none, refl, some, ℕ, ◌%◌, ◌&&◌,
  ◌*◌, ◌++◌, ◌+◌, ◌-◌, ◌/◌, ◌<◌, ◌==◌, ◌||◌, ◌∙◌, ◌∷◌, ◌≡◌,
}
use tp2cc.Emit.Literals.{char_literal_body_to_cxx, hex_digit}

-- The value of a hexadecimal digit.
hex_of : ℕ → Option ℕ
hex_of c =
    if leb b'0' c && leb c b'9'
    then some (c - b'0')
    else if leb b'a' c && leb c b'f'
    then some (c - b'a' + 10)
    else if leb b'A' c && leb c b'F'
    then some (c - b'A' + 10)
    else none

-- The digits of `\x`, as many as follow.
hex_escape : ℕ → Bytes → Option (ℕ × Bytes)
hex_escape v [] = none
hex_escape v (c ∷ s) = elim (hex_of c) [
  | some d ↦ hex_escape (v * 16 + d) s
  | none ↦ if c == b'\'' then some (v, s) else none
]

closed : ℕ → Bytes → Option (ℕ × Bytes)
closed v [] = none
closed v (c ∷ s) = if c == b'\'' then some (v, s) else none

escaped : Bytes → Option (ℕ × Bytes)
escaped [] = none
escaped (c ∷ s) =
    if c == b'\\'
    then closed b'\\' s
    else if c == b'n'
    then closed 10 s
    else if c == b'r'
    then closed 13 s
    else if c == b't'
    then closed 9 s
    else if c == b'0'
    then closed 0 s
    else if c == b'\''
    then closed b'\'' s
    else if c == b'x'
    then hex_escape 0 s
    else none

-- A C++ character literal behind its opening quote: its value, and the text behind the closing one.
pub read_char : Bytes → Option (ℕ × Bytes)
read_char [] = none
read_char (c ∷ s) = if c == b'\\' then escaped s else if c == b'\'' then none else closed c s

hex_of-hex_digit : (d : ℕ) → d < 16 → hex_of (hex_digit d) ≡ some d
unfolding hex_of hex_digit
hex_of-hex_digit d h = ground arith

hex_of_quote : hex_of b'\'' ≡ none
unfolding hex_of
hex_of_quote = refl

hex_escape-digit :
    (v d : ℕ) (s : Bytes) → d < 16 → hex_escape v (hex_digit d ∷ s) ≡ hex_escape (v * 16 + d) s
unfolding hex_escape
hex_escape-digit v d s h = rw (hex_of-hex_digit d h, hex_escape) refl

hex_escape-quote : (v : ℕ) (s : Bytes) → hex_escape v (b'\'' ∷ s) ≡ some (v, s)
unfolding hex_escape
hex_escape-quote v s = rw (hex_of_quote, hex_escape) refl

hex_escape-body :
    (c : ℕ) (s : Bytes)
    → c < 256
    → hex_escape 0 (hex_digit (c / 16) ∷ hex_digit (c % 16) ∷ b'\'' ∷ s) ≡ some (c, s)
hex_escape-body c s h =
    hex_escape-digit 0 (c / 16) (hex_digit (c % 16) ∷ b'\'' ∷ s) (omega arith)
    ∙ hex_escape-digit (0 * 16 + c / 16) (c % 16) (b'\'' ∷ s) (omega arith)
    ∙ hex_escape-quote ((0 * 16 + c / 16) * 16 + c % 16) s
    ∙ ap (λ (v : ℕ). some (v, s)) (omega arith)

pub read_char-body :
    (c : ℕ) (s : Bytes)
    → c < 256
    → read_char (char_literal_body_to_cxx c ++ (b'\'' ∷ s)) ≡ some (c, s)
unfolding read_char char_literal_body_to_cxx escaped closed
read_char-body c s h =
    if_ind P (c == b'\\') (λ e. ground arith)
      λ n1.
        if_ind P (c == 10) (λ e. ground arith)
          λ n2.
            if_ind P (c == 13) (λ e. ground arith)
              λ n3.
                if_ind P (c == 9) (λ e. ground arith)
                  λ n4.
                    if_ind P (c == 0) (λ e. ground arith)
                      λ n5.
                        if_ind P (c == b'\'') (λ e. ground arith)
                          λ n6.
                            if_ind P (ltb c 0x20 || leb 0x7f c) (λ e. hex_escape-body c s h)
                              (λ e. ground arith)
  where
    P : Bytes → Type 0
    P body = read_char (body ++ (b'\'' ∷ s)) ≡ some (c, s)
