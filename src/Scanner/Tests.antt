-- ===== src/Scanner/Tests.antt =====
-- Runs of the scanner on small sources, and its theorems at them.
use niki.Prelude.{
  bytes_eq, ℕ, ◌≡◌, ◌≢◌, ◌+◌, ◌-◌, ◌%◌, ◌^◌, ◌<◌, refl, List, [], ◌∷◌, Option, none, some, map,
  arith, get_or,
}
use niki.Scanner.Token.{TokenType, Token, kw_const, identifier, sym_equal, literal_float, token_eof}
use niki.Scanner.Cursor.{
  Scanner, new, is_at_end, advance, peek, peek_next, match, is_alpha, is_digit, advance_line, while,
  is_blank, consume, skip_whitespace, make_token, single_quote,
}
use niki.Scanner.Keyword.{codes, check_keyword, check_identifier_type, starts_con, starts_c}
use niki.Scanner.Scan.{
  make_identifier_token, skip_digits, make_number_token, skip_string, make_string_token, one_of,
  two_of, scan_symbol, scan_lexeme, begin_lexeme, scan_token, scan_tokens,
}
use niki.Scanner.Moves.{IsTracking, newlines_before, line_start_before}
use niki.Scanner.Position.{IsLexeme, scan_token-IsLexeme, scan_token-IsTracking}
use niki.Scanner.Column.{scan_token_one_line, scan_token_many_lines}
use niki.Scanner.Run.{Tokenizes, scan_tokens-Tokenizes}

-- ` const x = 1.5`
abbrev declaration : Scanner
declaration = new (codes " const x = 1.5")

-- A string over two lines.
abbrev text : Scanner
text = new (34 ∷ 97 ∷ 10 ∷ 98 ∷ 34 ∷ [])

abbrev types : Option (Scanner × List Token) → List TokenType
types none = []
types (some (_, tokens)) = map (λ t. t.type) tokens

declaration_run :
    types (scan_tokens 9 declaration)
    ≡ kw_const ∷ identifier ∷ sym_equal ∷ literal_float ∷ token_eof ∷ []
unfolding scan_tokens scan_token begin_lexeme scan_lexeme scan_symbol skip_whitespace is_blank
    consume peek peek_next match is_at_end advance while advance_line make_identifier_token
    skip_digits make_number_token make_token is_alpha is_digit check_keyword check_identifier_type
    starts_con starts_c two_of one_of bytes_eq
declaration_run = refl

scan_token-IsLexeme_example : IsLexeme declaration (scan_token declaration)
scan_token-IsLexeme_example = scan_token-IsLexeme declaration (omega arith) (omega arith)

scan_tokens-Tokenizes_example : Tokenizes declaration (scan_tokens 15 declaration)
scan_tokens-Tokenizes_example =
    scan_tokens-Tokenizes 15 declaration (omega arith) (omega arith) (omega arith)

new-IsTracking : (source : List ℕ) → IsTracking (new source)
unfolding newlines_before line_start_before
new-IsTracking source = record { line = refl; line_start = refl }

declaration_first : get_or declaration.source (begin_lexeme declaration).current 0 ≢ single_quote
unfolding begin_lexeme skip_whitespace is_blank consume peek is_at_end advance while advance_line
declaration_first h = omega arith

text_first : get_or text.source (begin_lexeme text).current 0 ≢ single_quote
unfolding begin_lexeme skip_whitespace is_blank consume peek is_at_end advance while advance_line
text_first h = omega arith

declaration_line :
    newlines_before declaration.source (scan_token declaration).1.start_offset
    ≡ newlines_before declaration.source (scan_token declaration).0.current
unfolding newlines_before scan_token begin_lexeme scan_lexeme skip_whitespace is_blank consume peek
    is_at_end advance while advance_line make_identifier_token make_token is_alpha is_digit
declaration_line = refl

text_lines :
    newlines_before text.source (scan_token text).1.start_offset
    < newlines_before text.source (scan_token text).0.current
unfolding newlines_before scan_token begin_lexeme scan_lexeme scan_symbol skip_whitespace is_blank
    consume peek is_at_end advance while advance_line make_string_token skip_string make_token
    is_alpha is_digit
text_lines = omega arith

scan_token-IsTracking_example : IsTracking (scan_token declaration).0
scan_token-IsTracking_example =
    scan_token-IsTracking declaration declaration_first (omega arith)
      (new-IsTracking declaration.source)

scan_token_one_line_example :
    ((scan_token declaration).1.line
      ≡ 1 + newlines_before declaration.source (scan_token declaration).1.start_offset)
    × ((scan_token declaration).1.column
        ≡ ((scan_token declaration).1.start_offset
            - line_start_before declaration.source (scan_token declaration).1.start_offset
            + 1)
          % 2 ^ 16)
scan_token_one_line_example =
    scan_token_one_line declaration (omega arith) (omega arith) (new-IsTracking declaration.source)
      declaration_first declaration_line

scan_token_many_lines_example :
    (1 + newlines_before text.source (scan_token text).1.start_offset < (scan_token text).1.line)
    × ((scan_token text).1.start_offset < line_start_before text.source (scan_token text).0.current)
    × ((scan_token text).1.column
        ≡ ((scan_token text).1.start_offset
            + 1
            + 2 ^ 32
            - line_start_before text.source (scan_token text).0.current)
          % 2 ^ 16)
scan_token_many_lines_example =
    scan_token_many_lines text (omega arith) (omega arith) (new-IsTracking text.source) text_first
      text_lines
