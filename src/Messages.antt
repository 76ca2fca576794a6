-- ===== src/Messages.antt =====
-- What the reports say. The fixed text of a message is in the constructor's name.
use tp2cc.Prelude.{Bytes, ℕ}

-- The texts of `IfExprParser::error` and of the refusals of `eval_if_expr`; `no_reason` is the
-- empty string.
pub data IfError : Type 0 where
  no_reason expected_paren_after_defined expected_symbol_name : IfError
  expected_paren_after_symbol expected_operand not_requires_boolean : IfError
  and_requires_boolean or_requires_boolean mixed_comparison boolean_comparison : IfError
  unsupported_value : Bytes → Bytes → IfError
  undefined_symbol unexpected_text : Bytes → IfError
  not_a_boolean : IfError

-- What `report_error` and `report_warning` are told. A user's message and an illegal value stand
-- behind the head of their directive.
pub data Message : Type 0 where
  integer_exceeds_64_bits unterminated_string newline_in_string : Message
  char_escape_out_of_range : Message
  unexpected_character : ℕ → Message
  cannot_evaluate_if cannot_evaluate_elseif : IfError → Message
  elseif_without_if elseif_after_else else_without_ifdef duplicate_else : Message
  endif_without_ifdef t_on_unsupported typed_address_unsupported empty_include : Message
  user_message illegal_value : Bytes → Bytes → Message
  cannot_find_include cannot_read_include : Bytes → Message
  unsupported_include_macro : Bytes → Message
