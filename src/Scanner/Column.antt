-- ===== src/Scanner/Column.antt =====
-- The line and the column of a token of `scanToken` (src/l0_core/syntax/scanner.cpp): they are
-- computed when the lexeme has been read, from the line that the cursor is on then.
use niki.Prelude.{
  ℕ, zero, suc, ◌+◌, ◌-◌, ◌%◌, ◌^◌, ◌≤◌, ◌<◌, ◌≡◌, ◌≢◌, refl, ap, List, inl, inr, arith, ◌==◌,
  if_cases, length, get_or, Bool-cases,
}
use niki.Scanner.Token.{TokenType, token_eof, Token}
use niki.Scanner.Cursor.{Scanner, single_quote, is_at_end, advance, source_at, make_token}
use niki.Scanner.Scan.{begin_lexeme, scan_token}
use niki.Scanner.Moves.{IsSmall, IsTracking, newlines_before, line_start_before}
use niki.Scanner.Step.{scan_lexeme-Emits}
use niki.Scanner.Position.{scan_token-IsLexeme, scan_token-IsTracking}

module _ (source : List ℕ) where
  line_start_before-le : (i : ℕ) → line_start_before source i ≤ i
  unfolding line_start_before
  line_start_before-le zero = omega arith
  line_start_before-le (suc i) = ground (arith, line_start_before-le i)

  newlines_before_mono : (i j : ℕ) → i ≤ j → newlines_before source i ≤ newlines_before source j
  unfolding newlines_before
  newlines_before_mono i zero h = ground arith
  newlines_before_mono i (suc j) h = elim (Bool-cases (i == suc j)) [
    | inl same ↦ ground arith
    | inr other ↦ ground (arith, newlines_before_mono i j)
  ]

  -- With no line feed in between the line starts where it did.
  line_start_before_same :
      (i j : ℕ)
      → i ≤ j
      → newlines_before source i ≡ newlines_before source j
      → line_start_before source i ≡ line_start_before source j
  unfolding newlines_before line_start_before
  line_start_before_same i zero h e = ground arith
  line_start_before_same i (suc j) h e = elim (Bool-cases (i == suc j)) [
    | inl same ↦ ground arith
    | inr other ↦ ground (arith, line_start_before_same i j, newlines_before_mono i j)
  ]

  -- With a line feed in between it starts behind it.
  line_start_before_later :
      (i j : ℕ)
      → newlines_before source i < newlines_before source j
      → i ≤ j
      → i < line_start_before source j
  unfolding newlines_before line_start_before
  line_start_before_later i zero h k = ground arith
  line_start_before_later i (suc j) h k = elim (Bool-cases (i == suc j)) [
    | inl same ↦ ground arith
    | inr other ↦ ground (arith, line_start_before_later i j, newlines_before_mono i j)
  ]

-- The token is the one of the returned state, end token included.
scan_token-token :
    (s : Scanner) → (type : TokenType) × ((scan_token s).1 ≡ make_token (scan_token s).0 type)
unfolding scan_token
scan_token-token s =
    let t = begin_lexeme s in
    let m = scan_lexeme-Emits (source_at t t.current) (advance t) in
    if_cases (λ (r : Scanner × Token). (type : TokenType) × (r.1 ≡ make_token r.0 type))
      (is_at_end t) (λ _. (token_eof, refl)) (λ _. (m.type, m.token))

-- What the line and the column of the token are, by the cursor behind it.
scan_token_place :
    (s : Scanner)
    → get_or s.source (begin_lexeme s).current 0 ≢ single_quote
    → IsSmall s
    → s.current ≤ length s.source
    → IsTracking s
    → ((scan_token s).1.line ≡ 1 + newlines_before s.source (scan_token s).0.current)
      × ((scan_token s).1.column
          ≡ ((scan_token s).1.start_offset
              + 2 ^ 32
              - line_start_before s.source (scan_token s).0.current
              + 1)
            % 2 ^ 32
            % 2 ^ 16)
unfolding make_token
scan_token_place s q small h k =
    let r = scan_token s in
    let (type, e) = scan_token-token s in
    let tracks = scan_token-IsTracking s q small k in
    let lexeme = scan_token-IsLexeme s small h in
    let start : r.1.start_offset ≡ r.0.start = ap (λ (x : Token). x.start_offset) e in
    let line : r.1.line ≡ r.0.line = ap (λ (x : Token). x.line) e in
    let column : r.1.column ≡ (r.0.start + 2 ^ 32 - r.0.line_start + 1) % 2 ^ 32 % 2 ^ 16 =
      ap (λ (x : Token). x.column) e in
    let from_line : newlines_before r.0.source r.0.current ≡ newlines_before s.source r.0.current =
      ap (λ (x : List ℕ). newlines_before x r.0.current) lexeme.source in
    let from_start : line_start_before r.0.source r.0.current
        ≡ line_start_before s.source r.0.current =
      ap (λ (x : List ℕ). line_start_before x r.0.current) lexeme.source in
    (
      omega (arith, line, tracks.line, from_line),
      omega (arith, column, start, tracks.line_start, from_start),
    )

module _ (s : Scanner) (small : length s.source < 2 ^ 32) (here : s.current ≤ length s.source)
    (tracks : IsTracking s)
    (no_quote : get_or s.source (begin_lexeme s).current 0 ≢ single_quote) where
  -- At a state whose line counter is true, in a source below 4 GiB: a token that begins with no
  -- single quote and spans no line feed gets the line of its first byte and, modulo 2 ^ 16, the
  -- one-based column of its first byte.
  pub scan_token_one_line :
      newlines_before s.source (scan_token s).1.start_offset
        ≡ newlines_before s.source (scan_token s).0.current
      → ((scan_token s).1.line ≡ 1 + newlines_before s.source (scan_token s).1.start_offset)
        × ((scan_token s).1.column
            ≡ ((scan_token s).1.start_offset
                - line_start_before s.source (scan_token s).1.start_offset
                + 1)
              % 2 ^ 16)
  scan_token_one_line e =
      let r = scan_token s in
      let place = scan_token_place s no_quote small here tracks in
      let lexeme = scan_token-IsLexeme s small here in
      let same = line_start_before_same s.source r.1.start_offset r.0.current lexeme.covers e in
      (
        omega (arith, place.0, e),
        omega (
          arith,
          place.1,
          same,
          line_start_before-le s.source r.1.start_offset,
          lexeme.covers,
          lexeme.inside,
        ),
      )

  -- At a state whose line counter is true, in a source below 4 GiB: a token that begins with no
  -- single quote and spans a line feed gets a line behind that of its first byte, and its column is
  -- a difference that wraps around: its first byte lies in front of the line start that is
  -- subtracted.
  pub scan_token_many_lines :
      newlines_before s.source (scan_token s).1.start_offset
        < newlines_before s.source (scan_token s).0.current
      → (1 + newlines_before s.source (scan_token s).1.start_offset < (scan_token s).1.line)
        × ((scan_token s).1.start_offset < line_start_before s.source (scan_token s).0.current)
        × ((scan_token s).1.column
            ≡ ((scan_token s).1.start_offset
                + 1
                + 2 ^ 32
                - line_start_before s.source (scan_token s).0.current)
              % 2 ^ 16)
  scan_token_many_lines e =
      let r = scan_token s in
      let place = scan_token_place s no_quote small here tracks in
      let lexeme = scan_token-IsLexeme s small here in
      let later = line_start_before_later s.source r.1.start_offset r.0.current e lexeme.covers in
      (
        omega (arith, place.0, e),
        later,
        omega (
          arith,
          place.1,
          later,
          line_start_before-le s.source r.0.current,
          lexeme.covers,
          lexeme.inside,
        ),
      )
