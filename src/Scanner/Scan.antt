-- ===== src/Scanner/Scan.antt =====
-- `Scanner::scanToken` and the literal scanners (src/l0_core/syntax/scanner.cpp), and the loop of
-- `parseIntoCompilationUnit` that collects the tokens (src/meta/precompile/parse_stage.cpp).
use niki.Prelude.{
  ℕ, zero, suc, ◌-◌, not, ◌&&◌, ◌||◌, List, [], ◌∷◌, Option, none, some, ltb, ◌==◌, if◌then◌else◌,
}
use niki.Scanner.Token.{
  TokenType, Token, sym_paren_l, sym_paren_r, sym_bracket_l, sym_bracket_r, sym_brace_l,
  sym_brace_r, sym_plus, sym_minus, sym_star, sym_slash, sym_mod, sym_bang, sym_equal, sym_greater,
  sym_less, sym_bit_and, sym_bit_or, sym_bit_xor, sym_bit_not, sym_dice, sym_comma, sym_dot,
  sym_concat, sym_colon, sym_semicolon, sym_question, sym_at, sym_scope, sym_and, sym_or,
  sym_bang_equal, sym_equal_equal, sym_greater_equal, sym_less_equal, sym_bit_shl, sym_bit_shr,
  sym_bit_and_equal, sym_bit_or_equal, sym_bit_xor_equal, sym_plus_equal, sym_minus_equal,
  sym_star_equal, sym_slash_equal, sym_mod_equal, sym_arrow, sym_fat_arrow, literal_int,
  literal_float, literal_string, literal_char, kw_wildcard, token_eof, comment,
}
use niki.Scanner.Cursor.{
  Scanner, newline, single_quote, double_quote, unterminated_block_comment, is_at_end, advance,
  source_at, peek, peek_next, match, is_alpha, is_digit, while, remaining, consume, skip_whitespace,
  make_token, report, make_error_token,
}
use niki.Scanner.Keyword.{check_identifier_type, is_eof}

-- A token of the scanner's state with the state.
abbrev pub emit : Scanner → TokenType → Scanner × Token
emit s type = (s, make_token s type)

-- `makeIdentifierToken`.
unfoldable pub make_identifier_token : Scanner → Scanner × Token
make_identifier_token s =
    let t = while (remaining s) (λ u. is_alpha (peek u) || is_digit (peek u)) advance s in
    emit t (check_identifier_type t)

-- `while (isDigit(peek())) advance();`.
unfoldable pub skip_digits : Scanner → Scanner
skip_digits s = while (remaining s) (λ u. is_digit (peek u)) advance s

-- `makeNumberToken`.
unfoldable pub make_number_token : Scanner → Scanner × Token
make_number_token s =
    let t = skip_digits s in
    if peek t == b'.' && is_digit (peek_next t)
    then emit (skip_digits (advance t)) literal_float
    else emit t literal_int

-- `makeCharToken`.
unfoldable pub make_char_token : Scanner → Scanner × Token
make_char_token s =
    if is_at_end s
    then make_error_token s
    else let t = advance s in
      if not (peek t == single_quote) then make_error_token t else emit (advance t) literal_char

-- The loop of `makeStringToken`: it stops in front of the closing quote or at the end.
unfoldable pub skip_string : Scanner → Scanner
skip_string s =
    while (remaining s) (λ u. not (peek u == double_quote) && not (is_at_end u)) consume s

-- `makeStringToken`.
unfoldable pub make_string_token : Scanner → Scanner × Token
make_string_token s =
    let t = skip_string s in
    if is_at_end t then make_error_token t else emit (advance t) literal_string

-- The rest of a line comment, behind `//`.
unfoldable pub make_line_comment : Scanner → Scanner × Token
make_line_comment s =
    emit (while (remaining s) (λ u. not (peek u == newline) && not (is_at_end u)) advance s) comment

-- The loop over a block comment: it stops in front of `*/` or at the end of the source.
unfoldable pub skip_block_comment : Scanner → Scanner
skip_block_comment s =
    while (remaining s) (λ u. not (is_at_end u) && not (peek u == b'*' && peek_next u == b'/'))
      consume s

-- The rest of a block comment, behind `/*`.
unfoldable pub make_block_comment : Scanner → Scanner × Token
make_block_comment s =
    let t = skip_block_comment s in
    if is_at_end t
    then emit (report unterminated_block_comment t) comment
    else emit (advance (advance t)) comment

-- The case of a `/`.
unfoldable pub make_slash_token : Scanner → Scanner × Token
make_slash_token s =
    let (t, is_line) = match b'/' s in
    let (u, is_block) = match b'*' t in
    let (v, is_equal) = match b'=' u in
    if is_line
    then make_line_comment t
    else if is_block
    then make_block_comment u
    else if is_equal
    then emit v sym_slash_equal
    else emit v sym_slash

-- `match(expected) ? yes : no`.
unfoldable pub one_of : ℕ → TokenType → TokenType → Scanner → Scanner × Token
one_of expected yes_type no_type s =
    let (t, hit) = match expected s in emit t (if hit then yes_type else no_type)

-- `match(e1) ? t1 : match(e2) ? t2 : t3`.
unfoldable pub two_of : ℕ → TokenType → ℕ → TokenType → TokenType → Scanner → Scanner × Token
unfolding one_of
two_of e1 t1 e2 t2 t3 s = let (t, hit) = match e1 s in if hit then emit t t1 else one_of e2 t2 t3 t

-- The `switch` on the character `c` that was read last.
unfoldable pub scan_symbol : ℕ → Scanner → Scanner × Token
scan_symbol c s =
    if c == b'('
    then emit s sym_paren_l
    else if c == b')'
    then emit s sym_paren_r
    else if c == b'['
    then emit s sym_bracket_l
    else if c == b']'
    then emit s sym_bracket_r
    else if c == b'{'
    then emit s sym_brace_l
    else if c == b'}'
    then emit s sym_brace_r
    else if c == b'+'
    then one_of b'=' sym_plus_equal sym_plus s
    else if c == b'-'
    then two_of b'>' sym_arrow b'=' sym_minus_equal sym_minus s
    else if c == b'*'
    then one_of b'=' sym_star_equal sym_star s
    else if c == b'/'
    then make_slash_token s
    else if c == b'%'
    then one_of b'=' sym_mod_equal sym_mod s
    else if c == b'!'
    then one_of b'=' sym_bang_equal sym_bang s
    else if c == b'='
    then two_of b'=' sym_equal_equal b'>' sym_fat_arrow sym_equal s
    else if c == b'>'
    then two_of b'=' sym_greater_equal b'>' sym_bit_shr sym_greater s
    else if c == b'<'
    then two_of b'=' sym_less_equal b'<' sym_bit_shl sym_less s
    else if c == b'&'
    then two_of b'&' sym_and b'=' sym_bit_and_equal sym_bit_and s
    else if c == b'|'
    then two_of b'|' sym_or b'=' sym_bit_or_equal sym_bit_or s
    else if c == b'^'
    then one_of b'=' sym_bit_xor_equal sym_bit_xor s
    else if c == b'~'
    then emit s sym_bit_not
    else if c == b','
    then emit s sym_comma
    else if c == b'.'
    then one_of b'.' sym_concat sym_dot s
    else if c == b':'
    then one_of b':' sym_scope sym_colon s
    else if c == b';'
    then emit s sym_semicolon
    else if c == b'?'
    then emit s sym_question
    else if c == b'@'
    then emit s sym_at
    else if c == double_quote
    then make_string_token s
    else if c == single_quote
    then make_char_token s
    else make_error_token s

-- What `scanToken` does behind the first character `c` of a lexeme.
unfoldable pub scan_lexeme : ℕ → Scanner → Scanner × Token
scan_lexeme c s =
    if c == b'_' && (not (is_alpha (peek s)) && not (is_digit (peek s)))
    then emit s kw_wildcard
    else if c == b'd' && (ltb 0 s.start && is_digit (source_at s (s.start - 1)))
    then emit s sym_dice
    else if is_alpha c
    then make_identifier_token s
    else if is_digit c
    then make_number_token s
    else scan_symbol c s

-- `skipWhitespace(); start = current;`.
unfoldable pub begin_lexeme : Scanner → Scanner
begin_lexeme s = let t = skip_whitespace s in record t { start = t.current }

-- `scanToken`.
unfoldable pub scan_token : Scanner → Scanner × Token
scan_token s =
    let t = begin_lexeme s in
    if is_at_end t then emit t token_eof else scan_lexeme (source_at t t.current) (advance t)

-- The loop of `parseIntoCompilationUnit`: `none` when the fuel runs out before the end token.
unfoldable pub scan_tokens : ℕ → Scanner → Option (Scanner × List Token)
scan_tokens zero s = none
scan_tokens (suc fuel) s =
    let (t, token) = scan_token s in
    let rest = scan_tokens fuel t in
    if is_eof token.type
    then some (t, token ∷ [])
    else elim rest [ none ↦ none | some (u, tokens) ↦ some (u, token ∷ tokens) ]
