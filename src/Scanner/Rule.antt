-- ===== src/Scanner/Rule.antt =====
-- A rule for what `scanToken` does behind the first character of a lexeme
-- (src/l0_core/syntax/scanner.cpp): every branch ends in one of its token constructors.
use niki.Prelude.{
  ℕ, ◌≡◌, ◌≢◌, refl, Bool, true, false, not, ◌&&◌, arith, ◌==◌, if_both, if_cases, Bool-cases, inl,
  inr,
}
use niki.Scanner.Token.{TokenType, Token}
use niki.Scanner.Cursor.{
  Scanner, newline, double_quote, is_at_end, advance, peek, peek_next, match, while, remaining,
  consume, report, unterminated_block_comment, make_error_token,
}
use niki.Scanner.Keyword.{is_eof}
use niki.Scanner.Scan.{
  emit, make_string_token, make_line_comment, skip_block_comment, skip_string, make_block_comment,
  make_slash_token, one_of, two_of,
}
use niki.Scanner.Moves.{
  IsSmall, IsSmall-moved, IsSmall-back, Moves, Moves-refl, Moves-trans, IsTracking, advance-Moves,
  consume-Moves, match-Moves, report-Moves, while-ends, consume_falls, while_rule,
  advance-IsTracking, consume-IsTracking, match-IsTracking, report-IsTracking,
}

-- The cursor moves forward and the line counter stays true.
pub record Clean (s t : Scanner) : Type 0 where
  pub moves : Moves s t
  pub tracks : IsSmall s → IsTracking s → IsTracking t

pub Clean-refl : (s : Scanner) → Clean s s
Clean-refl s = record { moves = Moves-refl s; tracks = λ _ h. h }

pub Clean-trans : (s t u : Scanner) → Clean s t → Clean t u → Clean s u
Clean-trans s t u p q = record {
  moves = Moves-trans s t u p.moves q.moves;
  tracks = λ small h. q.tracks (IsSmall-moved s t p.moves small) (p.tracks small h);
}

pub advance-Clean : (s : Scanner) → (IsSmall s → peek s ≢ newline) → Clean s (advance s)
advance-Clean s h = record {
  moves = advance-Moves s;
  tracks = λ small. advance-IsTracking s (h small) small;
}

consume-Clean : (s : Scanner) → Clean s (consume s)
consume-Clean s = record { moves = consume-Moves s; tracks = consume-IsTracking s }

match-Clean : (c : ℕ) (s : Scanner) → c ≢ newline → Clean s (match c s).0
match-Clean c s h = record { moves = match-Moves c s; tracks = match-IsTracking c s h }

report-Clean : (s : Scanner) → Clean s (report unterminated_block_comment s)
report-Clean s = record { moves = report-Moves _ s; tracks = λ _. report-IsTracking _ s }

pub while-Clean :
    (test : Scanner → Bool) (body : Scanner → Scanner)
    → ((t : Scanner) → test t ≡ true → Clean t (body t))
    → (fuel : ℕ) (s : Scanner) → Clean s (while fuel test body s)
while-Clean test body step fuel s =
    while_rule (λ t. Clean s t) test body (λ t e h. Clean-trans s t (body t) h (step t e)) fuel s
      (Clean-refl s)

-- The test of the loop over a block comment, when it fails before the end.
block_comment_end :
    (t : Scanner)
    → is_at_end t ≡ false
    → (not (is_at_end t) && not (peek t == b'*' && peek_next t == b'/')) ≡ false
    → (peek t ≡ b'*') × (peek (advance t) ≡ b'/')
unfolding peek peek_next advance
block_comment_end t h e = ground arith

skip_block_comment-Clean : (s : Scanner) → Clean s (skip_block_comment s)
unfolding skip_block_comment
skip_block_comment-Clean s = while-Clean _ consume (λ t _. consume-Clean t) (remaining s) s

-- Away from the end the loop over a block comment stops at `*/`.
skip_block_comment_end :
    (s : Scanner)
    → IsSmall (skip_block_comment s)
    → is_at_end (skip_block_comment s) ≡ false
    → (peek (skip_block_comment s) ≡ b'*') × (peek (advance (skip_block_comment s)) ≡ b'/')
unfolding skip_block_comment
skip_block_comment_end s small h =
    let before = IsSmall-back s (skip_block_comment s) (skip_block_comment-Clean s).moves small in
    let test : Scanner → Bool =
      λ u. not (is_at_end u) && not (peek u == b'*' && peek_next u == b'/') in
    let ended : test (skip_block_comment s) ≡ false =
      while-ends test consume (λ t k e. consume_falls t k (ground arith)) consume-Moves
        (remaining s) s before (omega arith) in
    block_comment_end (skip_block_comment s) h ended

skip_string-Clean : (s : Scanner) → Clean s (skip_string s)
unfolding skip_string
skip_string-Clean s = while-Clean _ consume (λ t _. consume-Clean t) (remaining s) s

-- Away from the end the loop over a string stops at its quote.
skip_string_end :
    (s : Scanner)
    → IsSmall (skip_string s)
    → is_at_end (skip_string s) ≡ false
    → peek (skip_string s) ≡ double_quote
unfolding skip_string
skip_string_end s small h =
    let before = IsSmall-back s (skip_string s) (skip_string-Clean s).moves small in
    let test : Scanner → Bool = λ u. not (peek u == double_quote) && not (is_at_end u) in
    let ended : test (skip_string s) ≡ false =
      while-ends test consume (λ t k e. consume_falls t k (ground arith)) consume-Moves
        (remaining s) s before (omega arith) in
    ground arith

module _ {ℓ} (P : Scanner × Token → Type ℓ) (s : Scanner)
    (on_token : (t : Scanner) (type : TokenType)
      → is_eof type ≡ false
      → Clean s t
      → P (emit t type))
    (on_error : (t : Scanner) → Clean s t → P (make_error_token t)) where
  pub one_of_rule :
      (c : ℕ) (a b : TokenType) (t : Scanner)
      → c ≢ newline
      → is_eof a ≡ false
      → is_eof b ≡ false
      → Clean s t
      → P (one_of c a b t)
  unfolding one_of
  one_of_rule c a b t h ha hb k =
      let step = Clean-trans s t _ k (match-Clean c t h) in
      elim (Bool-cases (match c t).1) [
        | inl e ↦ rw e (on_token (match c t).0 a ha step)
        | inr e ↦ rw e (on_token (match c t).0 b hb step)
      ]

  pub two_of_rule :
      (c : ℕ) (a : TokenType) (d : ℕ) (b e : TokenType) (t : Scanner)
      → c ≢ newline
      → d ≢ newline
      → is_eof a ≡ false
      → is_eof b ≡ false
      → is_eof e ≡ false
      → Clean s t
      → P (two_of c a d b e t)
  unfolding two_of
  two_of_rule c a d b e t h k ha hb he m =
      let step = Clean-trans s t _ m (match-Clean c t h) in
      if_both P (match c t).1 (on_token (match c t).0 a ha step)
        (one_of_rule d b e (match c t).0 k hb he step)

  make_line_comment_rule : (t : Scanner) → Clean s t → P (make_line_comment t)
  unfolding make_line_comment
  make_line_comment_rule t k = on_token _ _ refl (
      Clean-trans s t _ k
        (while-Clean _ advance (λ u e. advance-Clean u (λ _. ground arith)) (remaining t) t))

  make_block_comment_rule : (t : Scanner) → Clean s t → P (make_block_comment t)
  unfolding make_block_comment
  make_block_comment_rule t k =
      let u = skip_block_comment t in
      let step = Clean-trans s t u k (skip_block_comment-Clean t) in
      if_cases P (is_at_end u) (λ _. on_token _ _ refl (Clean-trans s u _ step (report-Clean u)))
        (λ e. on_token _ _ refl (
          Clean-trans s u _ step (
            Clean-trans u (advance u) _
              (advance-Clean u (λ k. omega (arith, (skip_block_comment_end t k e).0)))
              (advance-Clean (advance u) (λ k. omega (
                arith,
                (skip_block_comment_end t (IsSmall-back u (advance u) (advance-Moves u) k) e).1,
              ))))))

  pub make_slash_token_rule : P (make_slash_token s)
  unfolding make_slash_token
  make_slash_token_rule =
      let t = (match b'/' s).0 in
      let u = (match b'*' t).0 in
      let to_t = match-Clean b'/' s (omega arith) in
      let to_u = Clean-trans s t u to_t (match-Clean b'*' t (omega arith)) in
      let to_v = Clean-trans s u (match b'=' u).0 to_u (match-Clean b'=' u (omega arith)) in
      if_both P (match b'/' s).1 (make_line_comment_rule t to_t) (
        if_both P (match b'*' t).1 (make_block_comment_rule u to_u)
          (if_both P (match b'=' u).1 (on_token _ _ refl to_v) (on_token _ _ refl to_v)))

  pub make_string_token_rule : P (make_string_token s)
  unfolding make_string_token
  make_string_token_rule =
      let t = skip_string s in
      let step = skip_string-Clean s in
      if_cases P (is_at_end t) (λ _. on_error t step)
        (λ e.
          on_token _ _ refl
            (Clean-trans s t _ step (advance-Clean t (λ k. omega (arith, skip_string_end s k e)))))
