-- ===== src/Scanner/Position.antt =====
-- What one call of `scanToken` returns (src/l0_core/syntax/scanner.cpp): the bytes that it skips and
-- covers, and the line and column of its token.
use niki.Prelude.{
  ℕ, ◌+◌, ◌-◌, ◌%◌, ◌^◌, ◌≤◌, ◌<◌, ◌≡◌, ◌≢◌, ◌∙◌, ap, true, false, arith, if_cases, length, get_or,
}
use niki.Scanner.Token.{token_eof, Token}
use niki.Scanner.Cursor.{
  Scanner, newline, single_quote, is_at_end, advance, source_at, peek, is_blank, make_token,
}
use niki.Scanner.Keyword.{is_eof}
use niki.Scanner.Scan.{emit, scan_lexeme, begin_lexeme, scan_token}
use niki.Scanner.Moves.{IsSmall, IsSmall-moved, IsTracking, advance-Moves, advance-IsTracking}
use niki.Scanner.Step.{
  begin_lexeme-Begins, begin_lexeme-IsTracking, scan_lexeme-Emits, scan_lexeme-IsTracking,
}

-- What a call of `scanToken` at the state `s` returns.
pub record IsLexeme (s : Scanner) (r : Scanner × Token) : Type 0 where
  pub source : r.0.source ≡ s.source
  pub after : s.current ≤ r.1.start_offset
  pub covers : r.1.start_offset ≤ r.0.current
  pub inside : r.0.current ≤ length s.source
  pub length_mod : r.1.length ≡ (r.0.current - r.1.start_offset) % 2 ^ 16
  pub gap : (i : ℕ) → s.current ≤ i → i < r.1.start_offset → is_blank (get_or s.source i 0) ≡ true
  pub ends : is_eof r.1.type ≡ true → r.1.start_offset ≡ length s.source
  pub grows :
      is_eof r.1.type ≡ false
      → (r.1.start_offset < r.0.current) × (is_blank (get_or s.source r.1.start_offset 0) ≡ false)

at_end_lem : (t : Scanner) → is_at_end t ≡ true → length t.source ≤ t.current
unfolding is_at_end
at_end_lem t h = ground arith

advance-at :
    (t : Scanner)
    → IsSmall t
    → is_at_end t ≡ false
    → ((advance t).current ≡ t.current + 1)
      × (t.current < length t.source)
      × (peek t ≡ get_or t.source t.current 0)
unfolding advance peek
advance-at t small h = (ground arith, ground arith, ground arith)

scan_token_end :
    (s : Scanner)
    → IsSmall s
    → s.current ≤ length s.source
    → is_at_end (begin_lexeme s) ≡ true
    → IsLexeme s (emit (begin_lexeme s) token_eof)
unfolding make_token
scan_token_end s small h e =
    let b = begin_lexeme-Begins s small in
    record {
      source = b.source;
      after = omega (arith, b.forward, b.start);
      covers = omega (arith, b.start);
      inside = b.inside h;
      length_mod = omega (arith, b.start);
      gap = λ i lo hi. b.gap i lo (omega (arith, b.start));
      ends = λ _.
          omega (arith, at_end_lem (begin_lexeme s) e, b.inside h, b.start, ap length b.source);
      grows = λ k. cc;
    }

scan_token-IsLexeme' :
    (s : Scanner)
    → IsSmall s
    → s.current ≤ length s.source
    → is_at_end (begin_lexeme s) ≡ false
    → IsLexeme s (
        scan_lexeme
          (source_at (begin_lexeme s) (begin_lexeme s).current)
          (advance (begin_lexeme s)))
unfolding make_token
scan_token-IsLexeme' s small h e =
    let t = begin_lexeme s in
    let b = begin_lexeme-Begins s small in
    let m = scan_lexeme-Emits (source_at t t.current) (advance t) in
    let small_t : IsSmall t = omega (arith, small, ap length b.source) in
    let a = advance-at t small_t e in
    let v = advance-Moves t in
    let small_v : IsSmall (advance t) = IsSmall-moved t (advance t) v small_t in
    let r = scan_lexeme (source_at t t.current) (advance t) in
    let from : r.1.start_offset ≡ t.current =
      ap (λ (k : Token). k.start_offset) m.token ∙ (m.moves.start ∙ (v.start ∙ b.start)) in
    let same : r.0.source ≡ s.source = m.moves.source ∙ (v.source ∙ b.source) in
    let kind : is_eof r.1.type ≡ false = ap (λ (k : Token). is_eof k.type) m.token ∙ m.not_end in
    let byte : peek t ≡ get_or s.source r.1.start_offset 0 = ground (arith, a.2, from, b.source) in
    let room : (advance t).current ≤ length (advance t).source =
      omega (arith, a.0, a.1, ap length v.source) in
    let inner : r.0.current ≤ length (advance t).source = m.moves.inside small_v room in
    let len : r.1.length ≡ (r.0.current + 2 ^ 32 - r.0.start) % 2 ^ 32 % 2 ^ 16 =
      ap (λ (k : Token). k.length) m.token in
    record {
      source = same;
      after = omega (arith, from, b.forward);
      covers = omega (arith, from, a.0, m.moves.forward small_v);
      inside = omega (arith, inner, ap length v.source, ap length b.source);
      length_mod = omega (
        arith,
        len,
        ap (λ (k : Token). k.start_offset) m.token,
        from,
        a.0,
        m.moves.forward small_v,
        inner,
        small_v,
      );
      gap = λ i lo hi. b.gap i lo (omega (arith, from));
      ends = λ k. cc;
      grows = λ _. (omega (arith, from, a.0, m.moves.forward small_v), rw (← byte) b.stop);
    }

-- From a cursor inside a source below 4 GiB, `scanToken` returns a lexeme: it skips blanks only, stays inside
-- the source, gives the offset and, modulo 2 ^ 16, the length of the bytes that it took, takes a byte
-- that is no blank unless it returns the end token, and returns that at the end of the source only.
pub scan_token-IsLexeme :
    (s : Scanner) → IsSmall s → s.current ≤ length s.source → IsLexeme s (scan_token s)
unfolding scan_token
scan_token-IsLexeme s small h =
    if_cases (λ r. IsLexeme s r) (is_at_end (begin_lexeme s)) (scan_token_end s small h)
      (scan_token-IsLexeme' s small h)

not_blank-ne-newline : (c : ℕ) → is_blank c ≡ false → c ≢ newline
unfolding is_blank
not_blank-ne-newline c h = ground arith

-- In a source below 4 GiB, where a token begins with no single quote, the line counter and the start of the line are those
-- of the cursor again.
pub scan_token-IsTracking :
    (s : Scanner)
    → get_or s.source (begin_lexeme s).current 0 ≢ single_quote
    → IsSmall s
    → IsTracking s
    → IsTracking (scan_token s).0
unfolding scan_token
scan_token-IsTracking s h small k =
    let t = begin_lexeme s in
    let b = begin_lexeme-Begins s small in
    let tracks = begin_lexeme-IsTracking s small k in
    let small_t : IsSmall t = omega (arith, small, ap length b.source) in
    if_cases (λ (r : Scanner × Token). IsTracking r.0) (is_at_end t) (λ _. tracks)
      (λ e.
        scan_lexeme-IsTracking (source_at t t.current) (advance t) (rw b.source h)
          (IsSmall-moved t (advance t) (advance-Moves t) small_t)
          (advance-IsTracking t (not_blank-ne-newline (peek t) b.stop) small_t tracks))
