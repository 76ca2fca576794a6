-- ===== src/Scan/Word/Case.antt =====
-- Words are read without regard to case, and whole.
use tp2cc.Source.Span.{All, Stops, span-All, span-Stops, span-append}
use tp2cc.Token.{find_keyword, keyword_table, token}
use tp2cc.Prelude.{Bool-cases, Bytes, [], ap, inl, inr, refl, ◌++◌, ◌∙◌, ◌∷◌, ◌≡◌}
use tp2cc.Text.{is_ident_cont, lower, lower_char}
use tp2cc.Text.Lower.{is_ident_cont-lower_char, lower_idem}
use tp2cc.Source.{Input, here, span}
use tp2cc.Scan.Word.{scan_identifier_or_keyword, word_kind}

span-lower :
    (r : Bytes) (i j : Input)
    → (span is_ident_cont (lower r) i).0 ≡ lower (span is_ident_cont r j).0
unfolding span lower
span-lower [] i j = refl
span-lower (c ∷ r) i j = elim (Bool-cases (is_ident_cont c)) [
  | inl h ↦ rw (h, is_ident_cont-lower_char c, h) (ap (◌∷◌ (lower_char c)) (span-lower r _ _))
  | inr h ↦ rw (h, is_ident_cont-lower_char c, h) refl
]

-- The same word in any mixture of cases gives the same token, and its text is lowercase.
pub scan_word_case :
    (r : Bytes) (inp : Input)
    → ((scan_identifier_or_keyword (record inp { rest = lower r })).token
        ≡ (scan_identifier_or_keyword (record inp { rest = r })).token)
      × (lower (scan_identifier_or_keyword (record inp { rest = r })).token.text
          ≡ (scan_identifier_or_keyword (record inp { rest = r })).token.text)
unfolding scan_identifier_or_keyword
scan_word_case r inp =
    let word = (span is_ident_cont r (record inp { rest = r })).0 in
    let key_of =
      λ (key : Bytes). token (word_kind (find_keyword key keyword_table)) (here inp) key in
    (ap key_of (ap lower (span-lower r _ _) ∙ lower_idem word), lower_idem word)

-- The word is the longest run of identifier bytes: the token's text is that run in lowercase, and
-- the input behind the token is what follows the run.
pub scan_word_maximal :
    (inp : Input)
    → (run : Bytes) × (run ++ (scan_identifier_or_keyword inp).input.rest ≡ inp.rest)
      × ((scan_identifier_or_keyword inp).token.text ≡ lower run)
      × All is_ident_cont run
      × Stops is_ident_cont (scan_identifier_or_keyword inp).input.rest
unfolding scan_identifier_or_keyword
scan_word_maximal inp = (
  (span is_ident_cont inp.rest inp).0,
  span-append is_ident_cont inp.rest inp refl,
  refl,
  span-All is_ident_cont inp.rest inp,
  span-Stops is_ident_cont inp.rest inp refl,
)
