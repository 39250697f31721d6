-- ===== src/Scanner/Lexeme.antt =====
-- The rule of `Rule`, for the `switch` of `scanToken` and for all that it does behind the first
-- character of a lexeme (src/l0_core/syntax/scanner.cpp).
use niki.Prelude.{
  ℕ, ◌-◌, ◌≡◌, ◌≢◌, refl, Bool, true, false, not, ◌&&◌, ◌||◌, arith, ltb, ◌==◌, if_both, if_cases,
  ==_iff,
}
use niki.Scanner.Token.{
  TokenType, Token, literal_float, literal_int, kw_wildcard, sym_and, sym_arrow, sym_at, sym_bang,
  sym_bang_equal, sym_bit_and, sym_bit_and_equal, sym_bit_not, sym_bit_or, sym_bit_or_equal,
  sym_bit_shl, sym_bit_shr, sym_bit_xor, sym_bit_xor_equal, sym_brace_l, sym_brace_r, sym_bracket_l,
  sym_bracket_r, sym_colon, sym_comma, sym_concat, sym_dice, sym_dot, sym_equal, sym_equal_equal,
  sym_fat_arrow, sym_greater, sym_greater_equal, sym_less, sym_less_equal, sym_minus,
  sym_minus_equal, sym_mod, sym_mod_equal, sym_or, sym_paren_l, sym_paren_r, sym_plus,
  sym_plus_equal, sym_question, sym_scope, sym_semicolon, sym_star, sym_star_equal,
}
use niki.Scanner.Cursor.{
  Scanner, newline, single_quote, double_quote, advance, peek, peek_next, source_at, is_alpha,
  is_digit, remaining, make_error_token,
}
use niki.Scanner.Keyword.{is_eof}
use niki.Scanner.Keyword.Eof.{check_identifier_type_lem}
use niki.Scanner.Scan.{
  emit, make_identifier_token, skip_digits, make_number_token, make_char_token, scan_symbol,
  scan_lexeme,
}
use niki.Scanner.Rule.{
  Clean, Clean-refl, Clean-trans, advance-Clean, while-Clean, one_of_rule, two_of_rule,
  make_slash_token_rule, make_string_token_rule,
}

digit-ne-newline : (c : ℕ) → is_digit c ≡ true → c ≢ newline
unfolding is_digit
digit-ne-newline c h = ground arith

word-ne-newline : (c : ℕ) → (is_alpha c || is_digit c) ≡ true → c ≢ newline
unfolding is_digit is_alpha
word-ne-newline c h = ground arith

dot-ne-newline : (c : ℕ) (b : Bool) → (c == b'.' && b) ≡ true → c ≢ newline
dot-ne-newline c b h = ground arith

skip_digits-Clean : (s : Scanner) → Clean s (skip_digits s)
unfolding skip_digits
skip_digits-Clean s =
    while-Clean _ advance (λ t e. advance-Clean t (λ _. digit-ne-newline (peek t) e)) (remaining s)
      s

module _ {ℓ} (P : Scanner × Token → Type ℓ) (s : Scanner)
    (on_token : (t : Scanner) (type : TokenType)
      → is_eof type ≡ false
      → Clean s t
      → P (emit t type))
    (on_error : (t : Scanner) → Clean s t → P (make_error_token t)) where
  make_identifier_token_rule : P (make_identifier_token s)
  unfolding make_identifier_token
  make_identifier_token_rule = on_token _ _ (check_identifier_type_lem _) (
      while-Clean _ advance (λ t e. advance-Clean t (λ _. word-ne-newline (peek t) e)) (remaining s)
        s)

  make_number_token_rule : P (make_number_token s)
  unfolding make_number_token
  make_number_token_rule =
      let t = skip_digits s in
      let step = skip_digits-Clean s in
      if_cases P (peek t == b'.' && is_digit (peek_next t))
        (λ e. on_token _ literal_float refl (
          Clean-trans s t _ step (
            Clean-trans t (advance t) _
              (advance-Clean t (λ _. dot-ne-newline (peek t) (is_digit (peek_next t)) e))
              (skip_digits-Clean (advance t)))))
        (λ _. on_token t literal_int refl step)

  module _ (c : ℕ) (on_char : c ≡ single_quote → P (make_char_token s)) where
    scan_symbol_rule : P (scan_symbol c s)
    unfolding scan_symbol
    scan_symbol_rule =
        let self = Clean-refl s in
        let ones = one_of_rule P s on_token on_error in
        let twos = two_of_rule P s on_token on_error in
        let slash = make_slash_token_rule P s on_token on_error in
        let string = make_string_token_rule P s on_token on_error in
        if_both P (c == b'(') (on_token s sym_paren_l refl self) (
          if_both P (c == b')') (on_token s sym_paren_r refl self) (
            if_both P (c == b'[') (on_token s sym_bracket_l refl self) (
              if_both P (c == b']') (on_token s sym_bracket_r refl self) (
                if_both P (c == b'{') (on_token s sym_brace_l refl self) (
                  if_both P (c == b'}') (on_token s sym_brace_r refl self) (
                    if_both P (c == b'+')
                      (ones b'=' sym_plus_equal sym_plus s (omega arith) refl refl self)
                      (if_both P (c == b'-')
                        (twos b'>' sym_arrow b'=' sym_minus_equal sym_minus s (omega arith)
                          (omega arith) refl refl refl self)
                        (if_both P (c == b'*')
                          (ones b'=' sym_star_equal sym_star s (omega arith) refl refl self)
                          (if_both P (c == b'/') slash (
                            if_both P (c == b'%')
                              (ones b'=' sym_mod_equal sym_mod s (omega arith) refl refl self)
                              (if_both P (c == b'!')
                                (ones b'=' sym_bang_equal sym_bang s (omega arith) refl refl self)
                                (if_both P (c == b'=')
                                  (twos b'=' sym_equal_equal b'>' sym_fat_arrow sym_equal s
                                    (omega arith) (omega arith) refl refl refl self)
                                  (if_both P (c == b'>')
                                    (twos b'=' sym_greater_equal b'>' sym_bit_shr sym_greater s
                                      (omega arith) (omega arith) refl refl refl self)
                                    (if_both P (c == b'<')
                                      (twos b'=' sym_less_equal b'<' sym_bit_shl sym_less s
                                        (omega arith) (omega arith) refl refl refl self)
                                      (if_both P (c == b'&')
                                        (twos b'&' sym_and b'=' sym_bit_and_equal sym_bit_and s
                                          (omega arith) (omega arith) refl refl refl self)
                                        (if_both P (c == b'|')
                                          (twos b'|' sym_or b'=' sym_bit_or_equal sym_bit_or s
                                            (omega arith) (omega arith) refl refl refl self)
                                          (if_both P (c == b'^')
                                            (ones b'=' sym_bit_xor_equal sym_bit_xor s (omega arith)
                                              refl refl self)
                                            (if_both P (c == b'~')
                                              (on_token s sym_bit_not refl self)
                                              (if_both P (c == b',')
                                                (on_token s sym_comma refl self)
                                                (if_both P (c == b'.')
                                                  (ones b'.' sym_concat sym_dot s (omega arith) refl
                                                    refl self)
                                                  (if_both P (c == b':')
                                                    (ones b':' sym_scope sym_colon s (omega arith)
                                                      refl refl self)
                                                    (if_both P (c == b';')
                                                      (on_token s sym_semicolon refl self)
                                                      (if_both P (c == b'?')
                                                        (on_token s sym_question refl self)
                                                        (if_both P (c == b'@')
                                                          (on_token s sym_at refl self)
                                                          (if_both P (c == double_quote) string (
                                                            if_cases P (c == single_quote)
                                                            (λ e.
                                                            on_char ((==_iff c single_quote).0 e))
                                                            (λ _.
                                                            on_error s
                                                            self)))))))))))))))))))))))))))

    -- Behind the first character `c`, the result is a token of a state that was reached cleanly, an
    -- error token, or what `makeCharToken` gives behind a single quote.
    pub scan_lexeme_rule : P (scan_lexeme c s)
    unfolding scan_lexeme
    scan_lexeme_rule =
        let self = Clean-refl s in
        if_both P (c == b'_' && (not (is_alpha (peek s)) && not (is_digit (peek s))))
          (on_token s kw_wildcard refl self)
          (if_both P (c == b'd' && (ltb 0 s.start && is_digit (source_at s (s.start - 1))))
            (on_token s sym_dice refl self)
            (if_both P (is_alpha c) make_identifier_token_rule
              (if_both P (is_digit c) make_number_token_rule scan_symbol_rule)))
