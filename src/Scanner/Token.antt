-- ===== src/Scanner/Token.antt =====
-- The token alphabet and the token record of the scanner
-- (include/niki/l0_core/syntax/token.hpp).
use niki.Prelude.{ℕ}

-- `enum class TokenType`, in declaration order.
pub data TokenType : Type 0 where
  sym_paren_l sym_paren_r sym_bracket_l sym_bracket_r sym_brace_l sym_brace_r : TokenType
  sym_plus sym_minus sym_star sym_slash sym_mod sym_bang sym_equal sym_greater : TokenType
  sym_less sym_bit_and sym_bit_or sym_bit_xor sym_bit_not sym_dice sym_comma : TokenType
  sym_dot sym_concat sym_colon sym_semicolon sym_question sym_at sym_scope sym_and : TokenType
  sym_or sym_bang_equal sym_equal_equal sym_greater_equal sym_less_equal : TokenType
  sym_bit_shl sym_bit_shr sym_bit_and_equal sym_bit_or_equal sym_bit_xor_equal : TokenType
  sym_plus_equal sym_minus_equal sym_star_equal sym_slash_equal sym_mod_equal : TokenType
  sym_arrow sym_fat_arrow literal_int literal_float literal_string literal_char : TokenType
  identifier kw_nil kw_true kw_false kw_if kw_else kw_loop kw_match kw_case : TokenType
  kw_break kw_continue kw_return kw_for kw_var kw_func kw_const kw_int kw_float : TokenType
  kw_string kw_bool kw_void kw_any kw_type kw_interface kw_impl kw_wildcard kw_flow : TokenType
  kw_await kw_nock kw_async kw_import kw_export kw_from kw_as kw_system : TokenType
  kw_component kw_tag kw_taggroup kw_to kw_exclusive kw_set kw_unset kw_kits : TokenType
  kw_with kw_read kw_write kw_module kw_struct kw_enum kw_attach kw_detach : TokenType
  token_eof token_error comment : TokenType

-- `struct Token`: where the lexeme starts, the line and column that the scanner reports for it,
-- its length and its type.
pub record Token : Type 0 where
  pub start_offset : ℕ
  pub line : ℕ
  pub column : ℕ
  pub length : ℕ
  pub type : TokenType
