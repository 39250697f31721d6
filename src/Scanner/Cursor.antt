-- ===== src/Scanner/Cursor.antt =====
-- The scanner's state, its cursor and character helpers and its token constructors
-- (src/l0_core/syntax/scanner.cpp).
use niki.Prelude.{
  ℕ, zero, suc, ◌+◌, ◌-◌, ◌%◌, ◌^◌, Bool, true, false, ◌&&◌, ◌||◌, List, [], ◌∷◌, ◌++◌, leb, ◌==◌,
  if◌then◌else◌, length, get_or,
}
use niki.Scanner.Token.{TokenType, token_error, Token}

-- The two messages that the scanner reports under its one diagnostic code.
pub data Message : Type 0 where
  unterminated_block_comment invalid_or_unsupported_token : Message

-- A diagnostic of the scanner with its source span.
pub record Diagnostic : Type 0 where
  pub message : Message
  pub line : ℕ
  pub column : ℕ
  pub length : ℕ

-- The fields of the class. A character is its byte. The three offsets are 32-bit numbers, which wrap
-- around; `line` is an `int`, whose overflow, behind 2 ^ 31 - 1 lines, the source leaves undefined.
pub record Scanner : Type 0 where
  pub source : List ℕ
  pub start : ℕ
  pub current : ℕ
  pub line : ℕ
  pub line_start : ℕ
  pub diagnostics : List Diagnostic

abbrev pub newline : ℕ
newline = 10

abbrev pub single_quote : ℕ
single_quote = 39

abbrev pub double_quote : ℕ
double_quote = 34

-- The constructor.
abbrev pub new : List ℕ → Scanner
new source = record {
  source = source;
  start = 0;
  current = 0;
  line = 1;
  line_start = 0;
  diagnostics = [];
}

-- `isAtEnd`.
unfoldable pub is_at_end : Scanner → Bool
is_at_end s = leb (length s.source) s.current

-- `current + 1`.
abbrev pub next_offset : Scanner → ℕ
next_offset s = (s.current + 1) % 2 ^ 32

-- `advance`: the new cursor. The character that it returns is `source_at` at the old one.
unfoldable pub advance : Scanner → Scanner
unfolding is_at_end
advance s = if is_at_end s then s else record s { current = next_offset s }

-- `source[i]`. A view of a `std::string` holds a 0 at its end.
abbrev pub source_at : Scanner → ℕ → ℕ
source_at s i = get_or s.source i 0

-- `peek`.
unfoldable pub peek : Scanner → ℕ
unfolding is_at_end
peek s = if is_at_end s then 0 else source_at s s.current

-- `peekNext`.
unfoldable pub peek_next : Scanner → ℕ
unfolding is_at_end
peek_next s =
    if is_at_end s
    then 0
    else if leb (length s.source) (next_offset s)
    then 0
    else source_at s (next_offset s)

-- `match`.
unfoldable pub match : ℕ → Scanner → Scanner × Bool
unfolding is_at_end
match expected s =
    if is_at_end s
    then (s, false)
    else if source_at s s.current == expected
    then (record s { current = next_offset s }, true)
    else (s, false)

-- `isAlpha`.
unfoldable pub is_alpha : ℕ → Bool
is_alpha c = (leb b'a' c && leb c b'z') || ((leb b'A' c && leb c b'Z') || c == b'_')

-- `isDigit`.
unfoldable pub is_digit : ℕ → Bool
is_digit c = leb b'0' c && leb c b'9'

-- Moves over a line feed and counts the line: `line++; advance(); lineStart = current;`.
unfoldable pub advance_line : Scanner → Scanner
unfolding advance
advance_line s =
    let t = advance (record s { line = s.line + 1 }) in record t { line_start = t.current }

-- `while (test()) body();`, on fuel. One round for each character left is enough.
unfoldable pub while : ℕ → (Scanner → Bool) → (Scanner → Scanner) → Scanner → Scanner
while zero goes_on round s = s
while (suc rounds) goes_on round s = elim (goes_on s) [
  | false ↦ s
  | true ↦ while rounds goes_on round (round s)
]

-- The characters left.
abbrev pub remaining : Scanner → ℕ
remaining s = length s.source - s.current

-- A character that `skipWhitespace` consumes.
unfoldable pub is_blank : ℕ → Bool
is_blank c = c == 32 || (c == 9 || (c == 13 || c == newline))

-- One round of `skipWhitespace`, and of the string loop.
unfoldable pub consume : Scanner → Scanner
unfolding peek advance advance_line
consume s = if peek s == newline then advance_line s else advance s

-- `skipWhitespace`.
unfoldable pub skip_whitespace : Scanner → Scanner
skip_whitespace s = while (remaining s) (λ t. is_blank (peek t)) consume s

-- `makeToken`.
unfoldable pub make_token : Scanner → TokenType → Token
make_token s type = record {
  start_offset = s.start;
  line = s.line;
  column = (s.start + 2 ^ 32 - s.line_start + 1) % 2 ^ 32 % 2 ^ 16;
  length = (s.current + 2 ^ 32 - s.start) % 2 ^ 32 % 2 ^ 16;
  type = type;
}

-- The diagnostic at the current lexeme.
unfoldable pub report : Message → Scanner → Scanner
report m s = record s {
  diagnostics =
      s.diagnostics
      ++ record {
        message = m;
        line = s.line;
        column = (s.start + 2 ^ 32 - s.line_start + 1) % 2 ^ 32 % 2 ^ 16;
        length = (s.current + 2 ^ 32 - s.start) % 2 ^ 32 % 2 ^ 16;
      }
        ∷ [];
}

-- `errorToken`.
unfoldable pub make_error_token : Scanner → Scanner × Token
unfolding report make_token
make_error_token s = (report invalid_or_unsupported_token s, make_token s token_error)
