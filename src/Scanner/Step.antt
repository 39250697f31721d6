-- ===== src/Scanner/Step.antt =====
-- One call of `scanToken` (src/l0_core/syntax/scanner.cpp): which bytes it skips, which bytes the
-- token covers, and which line and column the token is given.
use niki.Prelude.{
  ℕ, ◌+◌, ◌≤◌, ◌<◌, ◌≡◌, ◌≢◌, refl, true, false, not, inl, inr, arith, ◌==◌, if_both, Bool-cases,
  length, get_or,
}
use niki.Scanner.Token.{TokenType, token_error, literal_char, Token}
use niki.Scanner.Cursor.{
  Scanner, single_quote, is_at_end, advance, peek, is_blank, remaining, consume, skip_whitespace,
  make_token, report, make_error_token,
}
use niki.Scanner.Keyword.{is_eof}
use niki.Scanner.Scan.{make_char_token, scan_lexeme, begin_lexeme}
use niki.Scanner.Moves.{
  IsSmall, IsSmall-moved, Moves, Moves-refl, Moves-trans, IsTracking, advance-Moves, report-Moves,
  while_rule, while-ends, consume_falls, consume-IsTracking, consume-Moves, report-IsTracking,
}
use niki.Scanner.Lexeme.{scan_lexeme_rule}

-- The state in front of a lexeme of a small source: only blanks were passed over, and the next byte is none.
pub record Begins (s t : Scanner) : Type 0 where
  pub source : t.source ≡ s.source
  pub start : t.start ≡ t.current
  pub forward : s.current ≤ t.current
  pub inside : s.current ≤ length s.source → t.current ≤ length s.source
  pub gap : (i : ℕ) → s.current ≤ i → i < t.current → is_blank (get_or s.source i 0) ≡ true
  pub stop : is_blank (peek t) ≡ false

abbrev Passed : Scanner → Scanner → Type 0
Passed s t =
    Moves s t × ((i : ℕ) → s.current ≤ i → i < t.current → is_blank (get_or s.source i 0) ≡ true)

blank-not-end : (t : Scanner) → is_blank (peek t) ≡ true → is_at_end t ≡ false
unfolding is_blank peek
blank-not-end t h = ground arith

consume-next : (t : Scanner) → IsSmall t → is_at_end t ≡ false → (consume t).current ≡ t.current + 1
unfolding consume
consume-next t small h = ground arith

peek-get_or : (t : Scanner) → is_at_end t ≡ false → peek t ≡ get_or t.source t.current 0
unfolding peek
peek-get_or t h = ground arith

skip_whitespace-Passed : (s : Scanner) → IsSmall s → Passed s (skip_whitespace s)
unfolding skip_whitespace
skip_whitespace-Passed s small =
    while_rule (λ t. Passed s t) (λ t. is_blank (peek t)) consume
      (λ t e p. (
        Moves-trans s t (consume t) p.0 (consume-Moves t),
        λ i lo hi. elim (Bool-cases (i == t.current)) [
          | inl same ↦ ground (arith, blank-not-end t, peek-get_or t, p.0.source)
          | inr other ↦
              p.1 i lo
                (ground (arith, consume-next t (IsSmall-moved s t p.0 small) (blank-not-end t e)))
        ],
      ))
      (remaining s) s (Moves-refl s, λ i lo hi. absurd (omega arith))

skip_whitespace_stop : (s : Scanner) → IsSmall s → is_blank (peek (skip_whitespace s)) ≡ false
unfolding skip_whitespace
skip_whitespace_stop s small =
    while-ends (λ t. is_blank (peek t)) consume (λ t k e. consume_falls t k (blank-not-end t e))
      consume-Moves (remaining s) s small (omega arith)

pub begin_lexeme-Begins : (s : Scanner) → IsSmall s → Begins s (begin_lexeme s)
unfolding begin_lexeme peek
begin_lexeme-Begins s small =
    let p = skip_whitespace-Passed s small in
    record {
      source = p.0.source;
      start = refl;
      forward = p.0.forward small;
      inside = p.0.inside small;
      gap = p.1;
      stop = skip_whitespace_stop s small;
    }

pub begin_lexeme-IsTracking : (s : Scanner) → IsSmall s → IsTracking s → IsTracking (begin_lexeme s)
unfolding begin_lexeme skip_whitespace
begin_lexeme-IsTracking s small h =
    let t =
      while_rule (λ u. Moves s u × IsTracking u) (λ u. is_blank (peek u)) consume
        (λ u _ k. (
          Moves-trans s u (consume u) k.0 (consume-Moves u),
          consume-IsTracking u (IsSmall-moved s u k.0 small) k.1,
        ))
        (remaining s) s (Moves-refl s, h) in
    record { line = t.1.line; line_start = t.1.line_start }

-- The result is the token of its state, is no end token, and its state lies ahead.
pub record Emits (s : Scanner) (r : Scanner × Token) : Type 0 where
  pub moves : Moves s r.0
  pub type : TokenType
  pub token : r.1 ≡ make_token r.0 type
  pub not_end : is_eof type ≡ false

make_error_token-Emits : (s t : Scanner) → Moves s t → Emits s (make_error_token t)
unfolding make_error_token make_token report
make_error_token-Emits s t m = record {
  moves = Moves-trans s t _ m (report-Moves _ t);
  type = token_error;
  token = refl;
  not_end = refl;
}

make_char_token-Emits : (s : Scanner) → Emits s (make_char_token s)
unfolding make_char_token
make_char_token-Emits s =
    let t = advance s in
    let step = advance-Moves s in
    if_both (λ r. Emits s r) (is_at_end s) (make_error_token-Emits s s (Moves-refl s))
      (if_both (λ r. Emits s r) (not (peek t == single_quote)) (make_error_token-Emits s t step)
        (record {
          moves = Moves-trans s t (advance t) step (advance-Moves t);
          type = literal_char;
          token = refl;
          not_end = refl;
        }))

pub scan_lexeme-Emits : (c : ℕ) (s : Scanner) → Emits s (scan_lexeme c s)
scan_lexeme-Emits c s =
    scan_lexeme_rule (λ r. Emits s r) s
      (λ t type e k. record { moves = k.moves; type = type; token = refl; not_end = e })
      (λ t k. make_error_token-Emits s t k.moves) c (λ _. make_char_token-Emits s)

pub scan_lexeme-IsTracking :
    (c : ℕ) (s : Scanner)
    → c ≢ single_quote
    → IsSmall s
    → IsTracking s
    → IsTracking (scan_lexeme c s).0
unfolding make_error_token
scan_lexeme-IsTracking c s h =
    scan_lexeme_rule (λ r. IsSmall s → IsTracking s → IsTracking r.0) s (λ t type e k. k.tracks)
      (λ t k small h. report-IsTracking _ t (k.tracks small h)) c (λ e. absurd (h e))
