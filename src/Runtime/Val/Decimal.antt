-- ===== src/Runtime/Val/Decimal.antt =====
-- `Val` on decimal numbers.
use mathlib.Core.Path.{subst}
use tp2cc.Runtime.Integers.{
  IntType, Width, bits_16, bits_32, bits_64, bits_8, cast, fits, integer_from_bits, patterns,
  to_bits,
}
use tp2cc.Prelude.{
  Bool, Bool-cases, Bytes, [], ap, arith, false, if◌then◌else◌, inl, inr, leb, ltb, not, pos, refl,
  some, sub_ℕ, suc, sym, true, zero, ℕ, ℤ, ◌%◌, ◌&&◌, ◌*◌, ◌++◌, ◌+◌, ◌-◌, ◌/◌, ◌<◌, ◌==◌, ◌||◌,
  ◌∙◌, ◌∷◌, ◌≡◌, ◌≤◌,
}
use tp2cc.Runtime.Val.{
  Parsed, digit_value, fail, finish, max_value, parse_based, parse_number, parse_pascal_integer,
  parse_signed, read_base, read_digits, read_sign, skip_spaces,
}

abbrev IsDecimal : Bytes → Type 0
IsDecimal [] = Unit
IsDecimal (c ∷ s) = ((b'0' ≤ c) × (c ≤ b'9')) × IsDecimal s

-- The number that decimal digits write, behind digits of the value `v`.
abbrev pub number_from : ℕ → Bytes → ℕ
number_from v [] = v
number_from v (c ∷ s) = number_from (v * 10 + (c - b'0')) s

number_from-ge : (v : ℕ) (s : Bytes) → v ≤ number_from v s
number_from-ge v [] = omega arith
number_from-ge v (c ∷ s) = omega (arith, number_from-ge (v * 10 + (c - b'0')) s)

digit_value-decimal : (c : ℕ) → b'0' ≤ c → c ≤ b'9' → digit_value c ≡ some (c - b'0')
unfolding digit_value
digit_value-decimal c h k = ground arith

overflow_test :
    (limit v d : ℕ)
    → d ≤ 9
    → 9 ≤ limit
    → (leb 10 d || (ltb (limit / 10) v || ltb (limit - d) (v * 10))) ≡ ltb limit (v * 10 + d)
overflow_test limit v d h k = ground arith

-- The two overflow tests of a round are one comparison.
read_digits-step :
    (limit i v c : ℕ) (s : Bytes)
    → b'0' ≤ c
    → c ≤ b'9'
    → 9 ≤ limit
    → read_digits 10 limit (c ∷ s) i v ≡ (
        if ltb limit (v * 10 + (c - b'0'))
        then inl i
        else read_digits 10 limit s (i + 1) (v * 10 + (c - b'0')))
unfolding read_digits
read_digits-step limit i v c s h k l =
    ground (arith, digit_value-decimal c h k, overflow_test limit v (c - b'0') (omega arith) l)

read_digits-fits :
    (limit i v : ℕ) (s : Bytes)
    → IsDecimal s
    → 9 ≤ limit
    → number_from v s ≤ limit
    → read_digits 10 limit s i v ≡ inr (number_from v s)
unfolding read_digits
read_digits-fits limit i v [] d l h = refl
read_digits-fits limit i v (c ∷ s) d l h =
    let w : ltb limit (v * 10 + (c - b'0')) ≡ false =
      ground (arith, number_from-ge (v * 10 + (c - b'0')) s) in
    read_digits-step limit i v c s d.0.0 d.0.1 l
    ∙ rw w (read_digits-fits limit (i + 1) (v * 10 + (c - b'0')) s d.1 l h)

read_digits-large :
    (limit i v : ℕ) (s : Bytes)
    → IsDecimal s
    → 9 ≤ limit
    → v ≤ limit
    → limit < number_from v s
    → (k : ℕ) × (read_digits 10 limit s i v ≡ inl k)
read_digits-large limit i v [] d l g h = absurd (omega arith)
read_digits-large limit i v (c ∷ s) d l g h =
    rw (read_digits-step limit i v c s d.0.0 d.0.1 l)
      (elim (Bool-cases (ltb limit (v * 10 + (c - b'0')))) [
        | inl e ↦ rw e (i, refl)
        | inr e ↦
            rw e (read_digits-large limit (i + 1) (v * 10 + (c - b'0')) s d.1 l (ground arith) h)
      ])

-- The characters of a sign.
abbrev sign_text : Bool → Bytes
sign_text true = b'-' ∷ []
sign_text false = []

abbrev blanks : ℕ → Bytes → Bytes
blanks zero s = s
blanks (suc n) s = b' ' ∷ blanks n s

abbrev pub signed_number : Bool → ℕ → ℤ
signed_number negative n = if negative then sub_ℕ 0 n else pos n

skip_spaces-blanks :
    (k i : ℕ) (c : ℕ) (s : Bytes)
    → (c == b' ' || c == 9) ≡ false
    → skip_spaces (blanks k (c ∷ s)) i ≡ (c ∷ s, i + k)
unfolding skip_spaces
skip_spaces-blanks zero i c s h = rw (h, skip_spaces) (ground arith)
skip_spaces-blanks (suc k) i c s h = skip_spaces-blanks k (i + 1) c s h ∙ ground arith

read_base-decimal :
    (c i : ℕ) (s : Bytes) → b'0' ≤ c → c ≤ b'9' → read_base (c ∷ s, i) ≡ (10, (c ∷ s, i))
unfolding read_base
read_base-decimal c i s h k = ground arith

abbrev start_of : ℕ → Bool → ℕ
start_of k negative = if negative then k + 1 else k

read_sign-decimal :
    (c i : ℕ) (s : Bytes) → b'0' ≤ c → c ≤ b'9' → read_sign (c ∷ s, i) ≡ (false, (c ∷ s, i))
unfolding read_sign
read_sign-decimal c i s h k = ground arith

read_sign-minus : (i : ℕ) (s : Bytes) → read_sign (b'-' ∷ s, i) ≡ (true, (s, i + 1))
unfolding read_sign
read_sign-minus i s = refl

parse_prefix :
    (R : IntType) (k : ℕ) (negative : Bool) (c : ℕ) (s : Bytes)
    → b'0' ≤ c
    → c ≤ b'9'
    → parse_pascal_integer R (blanks k (sign_text negative ++ (c ∷ s)))
      ≡ parse_number R negative 10 (c ∷ s, start_of k negative)
unfolding parse_pascal_integer
parse_prefix R k true c s h l =
    ap (λ x. parse_signed R (read_sign x)) (skip_spaces-blanks k 0 b'-' (c ∷ s) refl)
    ∙ ap (parse_signed R) (read_sign-minus (0 + k) (c ∷ s))
    ∙ ap (parse_based R true) (read_base-decimal c (0 + k + 1) s h l)
    ∙ ap (λ (i : ℕ). parse_number R true 10 (c ∷ s, i)) (omega arith)
parse_prefix R k false c s h l =
    ap (λ x. parse_signed R (read_sign x)) (skip_spaces-blanks k 0 c s (ground arith))
    ∙ ap (parse_signed R) (read_sign-decimal c (0 + k) s h l)
    ∙ ap (parse_based R false) (read_base-decimal c (0 + k) s h l)
    ∙ ap (λ (i : ℕ). parse_number R false 10 (c ∷ s, i)) (omega arith)

limit_at :
    (w : Width) (s negative : Bool) (n : ℕ)
    → (negative && not s) ≡ false
    → fits (record { width = w; is_signed = s }) (signed_number negative n)
      ≡ leb n (max_value (record { width = w; is_signed = s }) 10 negative)
unfolding max_value
limit_at bits_8 s b n h = ground arith
limit_at bits_16 s b n h = ground arith
limit_at bits_32 s b n h = ground arith
limit_at bits_64 s b n h = ground arith

value_at :
    (w : Width) (s negative : Bool) (n : ℕ)
    → (negative && not s) ≡ false
    → n ≤ max_value (record { width = w; is_signed = s }) 10 negative
    → cast
        (record { width = w; is_signed = s })
        (pos (if s && negative then (patterns w - n) % patterns w else n))
      ≡ signed_number negative n
unfolding max_value cast integer_from_bits to_bits
value_at bits_8 s b n h k = ground arith
value_at bits_16 s b n h k = ground arith
value_at bits_32 s b n h k = ground arith
value_at bits_64 s b n h k = ground arith

abbrev IsRead : IntType → ℤ → Parsed → Type 0
IsRead R v p = (p.out ≡ (if fits R v then v else pos 0)) × ((p.code == 0) ≡ fits R v)

limit_ge :
    (w : Width) (s negative : Bool)
    → 9 ≤ max_value (record { width = w; is_signed = s }) 10 negative
unfolding max_value
limit_ge bits_8 s b = ground arith
limit_ge bits_16 s b = ground arith
limit_ge bits_32 s b = ground arith
limit_ge bits_64 s b = ground arith

finish_reads :
    (R : IntType) (negative : Bool) (n : ℕ)
    → (negative && not R.is_signed) ≡ false
    → n ≤ max_value R 10 negative
    → IsRead R (signed_number negative n) (finish R negative (inr n))
unfolding finish
finish_reads R negative n h k =
    let f : fits R (signed_number negative n) ≡ true =
      limit_at R.width R.is_signed negative n h ∙ ground arith in
    rw f (value_at R.width R.is_signed negative n h k, refl)

refuses : (R : IntType) (v : ℤ) (i : ℕ) → fits R v ≡ false → IsRead R v (fail i)
refuses R v i f = rw f (refl, ground arith)

large_refused :
    (R : IntType) (negative : Bool) (s : Bytes) (i : ℕ)
    → IsDecimal s
    → (negative && not R.is_signed) ≡ false
    → 9 ≤ max_value R 10 negative
    → leb (number_from 0 s) (max_value R 10 negative) ≡ false
    → IsRead R
        (signed_number negative (number_from 0 s))
        (finish R negative (read_digits 10 (max_value R 10 negative) s i 0))
unfolding finish
large_refused R negative s i d h g e =
    let x = read_digits-large (max_value R 10 negative) i 0 s d g (omega arith) (ground arith) in
    subst (λ r. IsRead R (signed_number negative (number_from 0 s)) (finish R negative r)) (sym x.1)
      (refuses R (signed_number negative (number_from 0 s)) x.0
        (limit_at R.width R.is_signed negative (number_from 0 s) h ∙ e))

parse_number-reads :
    (R : IntType) (negative : Bool) (c : ℕ) (s : Bytes) (i : ℕ)
    → (negative && not R.is_signed) ≡ false
    → parse_number R negative 10 (c ∷ s, i)
      ≡ finish R negative (read_digits 10 (max_value R 10 negative) (c ∷ s) i 0)
unfolding parse_number
parse_number-reads R negative c s i h =
    let e : (not R.is_signed && negative) ≡ false = ground arith in rw e refl

number_reads :
    (R : IntType) (negative : Bool) (s : Bytes) (i : ℕ)
    → IsDecimal s
    → (negative && not R.is_signed) ≡ false
    → IsRead R
        (signed_number negative (number_from 0 s))
        (finish R negative (read_digits 10 (max_value R 10 negative) s i 0))
unfolding finish
number_reads R negative s i d h =
    let g = limit_ge R.width R.is_signed negative in
    elim (Bool-cases (leb (number_from 0 s) (max_value R 10 negative))) [
      | inl e ↦
          rw (read_digits-fits (max_value R 10 negative) i 0 s d g (ground arith))
            (finish_reads R negative (number_from 0 s) h (ground arith))
      | inr e ↦ large_refused R negative s i d h g e
    ]

-- A decimal number with blanks before it, and with a minus sign where the type is signed, is read
-- as its value where the type has that value, with the code 0; and refused elsewhere, with a code
-- other than 0 and the value 0.
pub parse_pascal_integer-decimal :
    (R : IntType) (k : ℕ) (negative : Bool) (c : ℕ) (s : Bytes)
    → IsDecimal (c ∷ s)
    → (negative && not R.is_signed) ≡ false
    → let p = parse_pascal_integer R (blanks k (sign_text negative ++ (c ∷ s))) in
      let v = signed_number negative (number_from 0 (c ∷ s)) in
      (p.out ≡ (if fits R v then v else pos 0)) × ((p.code == 0) ≡ fits R v)
parse_pascal_integer-decimal R k negative c s d h =
    let e =
      parse_prefix R k negative c s d.0.0 d.0.1
      ∙ parse_number-reads R negative c s (start_of k negative) h in
    subst (IsRead R (signed_number negative (number_from 0 (c ∷ s)))) (sym e)
      (number_reads R negative (c ∷ s) (start_of k negative) d h)
