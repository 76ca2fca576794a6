-- ===== src/Emit/Names/Apart.antt =====
-- Names that Pascal tells apart have different helpers.
use tp2cc.Prelude.{
  Bool, Bytes, [], ap, arith, false, refl, sym, true, within, ℕ, ◌+◌, ◌-◌, ◌==◌, ◌||◌, ◌↔◌, ◌∙◌,
  ◌∷◌, ◌≡◌,
}
use tp2cc.Emit.Names.{ascii_lower, encode_char, encode_chars, encode_helper_ident}

-- A character of a Pascal identifier.
abbrev is_name_char : ℕ → Bool
is_name_char c = within b'A' b'Z' c || (within b'a' b'z' c || (within b'0' b'9' c || c == b'_'))

-- Only such characters.
abbrev pub IsName : Bytes → Type 0
IsName [] = Unit
IsName (c ∷ s) = (is_name_char c ≡ true) × IsName s

-- The name behind its encoding.
decode : Bytes → Bytes
decode [] = []
decode (c ∷ []) = c ∷ []
decode (c ∷ d ∷ s) = elim (c == b'_') [ true ↦ c ∷ decode s | false ↦ c ∷ decode (d ∷ s) ]

decode-letter : (c : ℕ) (s : Bytes) → (c == b'_') ≡ false → decode (c ∷ s) ≡ c ∷ decode s
unfolding decode
decode-letter c [] h = refl
decode-letter c (d ∷ s) h = ground arith

decode-underscore : (s : Bytes) → decode (b'_' ∷ b'u' ∷ s) ≡ b'_' ∷ decode s
unfolding decode
decode-underscore s = refl

decode-encode_chars : (s : Bytes) → IsName s → decode (encode_chars s) ≡ ascii_lower s
unfolding decode encode_chars encode_char ascii_lower
decode-encode_chars [] h = refl
decode-encode_chars (c ∷ s) h =
    let ih = decode-encode_chars s (h.1) in
    let n = h.0 in
    let u = decode-underscore (encode_chars s) in
    let l = decode-letter c (encode_chars s) in
    let m = decode-letter (c - b'A' + b'a') (encode_chars s) in ground arith

encode_chars-ascii_lower : (s : Bytes) → encode_chars (ascii_lower s) ≡ encode_chars s
unfolding encode_chars ascii_lower encode_char
encode_chars-ascii_lower [] = refl
encode_chars-ascii_lower (c ∷ s) = let ih = encode_chars-ascii_lower s in ground arith

encode_chars-decides :
    (a b : Bytes)
    → IsName a
    → IsName b
    → encode_chars a ≡ encode_chars b
    → ascii_lower a ≡ ascii_lower b
encode_chars-decides a b ha hb e =
    sym (decode-encode_chars a ha) ∙ (ap decode e ∙ decode-encode_chars b hb)

ascii_lower-decides :
    (a b : Bytes) → ascii_lower a ≡ ascii_lower b → encode_chars a ≡ encode_chars b
ascii_lower-decides a b e =
    sym (encode_chars-ascii_lower a) ∙ (ap encode_chars e ∙ encode_chars-ascii_lower b)

-- Two non-empty names of letters, digits and underscores, `c` before `s` and `d` before `t`, have
-- the same encoding in a helper's name exactly when they are equal but for the case of their
-- letters.
pub encode_helper_ident_iff :
    (c : ℕ) (s : Bytes) (d : ℕ) (t : Bytes)
    → IsName (c ∷ s)
    → IsName (d ∷ t)
    → (encode_helper_ident (c ∷ s) ≡ encode_helper_ident (d ∷ t))
      ↔ (ascii_lower (c ∷ s) ≡ ascii_lower (d ∷ t))
unfolding encode_helper_ident
encode_helper_ident_iff c s d t ha hb =
    (encode_chars-decides (c ∷ s) (d ∷ t) ha hb, ascii_lower-decides (c ∷ s) (d ∷ t))
