-- ===== src/Scanner/Run.antt =====
-- The loop over `scanToken` as a whole (src/meta/precompile/parse_stage.cpp).
use niki.Prelude.{
  ℕ, zero, suc, ◌-◌, ◌%◌, ◌^◌, ◌≤◌, ◌<◌, ◌≡◌, ap, ◌∙◌, true, false, List, [], ◌∷◌, Option, none,
  some, inl, inr, arith, length, get_or, Bool-cases,
}
use mathlib.Core.Path.{subst}
use niki.Scanner.Token.{Token}
use niki.Scanner.Cursor.{Scanner, is_blank}
use niki.Scanner.Keyword.{is_eof}
use niki.Scanner.Scan.{scan_token, scan_tokens}
use niki.Scanner.Moves.{IsSmall}
use niki.Scanner.Position.{IsLexeme, scan_token-IsLexeme}

-- The tokens cover the bytes of the source from `i` on, in order and without overlap: what lies
-- between them is blank, every token but the last has bytes of its own and is no end token, and the
-- last is an end token that stands at the end of the source.
pub data Tiles (source : List ℕ) : ℕ → List Token → Type 0 where
  stop :
      {i : ℕ} (token : Token)
      → token.start_offset ≡ length source
      → is_eof token.type ≡ true
      → ((j : ℕ) → i ≤ j → j < token.start_offset → is_blank (get_or source j 0) ≡ true)
      → Tiles source i (token ∷ [])
  next :
      {i : ℕ} (token : Token) (end : ℕ) (rest : List Token)
      → i ≤ token.start_offset
      → token.start_offset < end
      → end ≤ length source
      → token.length ≡ (end - token.start_offset) % 2 ^ 16
      → is_eof token.type ≡ false
      → ((j : ℕ) → i ≤ j → j < token.start_offset → is_blank (get_or source j 0) ≡ true)
      → Tiles source end rest
      → Tiles source i (token ∷ rest)

-- The result of the loop from the state `s`.
abbrev pub Tokenizes : Scanner → Option (Scanner × List Token) → Type 0
Tokenizes s none = ⊥
Tokenizes s (some (t, tokens)) = (t.source ≡ s.source) × Tiles s.source s.current tokens

-- A token in front of what the loop returns from the state behind it.
extend :
    (s t : Scanner) (token : Token)
    → IsLexeme s (t, token)
    → is_eof token.type ≡ false
    → (o : Option (Scanner × List Token)) → Tokenizes t o
    → Tokenizes s (elim o [ none ↦ none | some (u, tokens) ↦ some (u, token ∷ tokens) ])
extend s t token lexeme e none h = h
extend s t token lexeme e (some (u, tokens)) (same, tiles) =
    let (grows, _) = lexeme.grows e in
    (
      same ∙ lexeme.source,
      Tiles.next token t.current tokens lexeme.after grows lexeme.inside lexeme.length_mod e
          lexeme.gap (subst (λ x. Tiles x t.current tokens) lexeme.source tiles),
    )

-- From any cursor inside a source below 4 GiB, fuel for one call for each byte left and one more is enough:
-- the loop ends with an end token, and the tokens tile the rest of the source.
pub scan_tokens-Tokenizes :
    (fuel : ℕ) (s : Scanner)
    → IsSmall s
    → s.current ≤ length s.source
    → length s.source - s.current < fuel
    → Tokenizes s (scan_tokens fuel s)
unfolding scan_tokens
scan_tokens-Tokenizes zero s small h f = absurd (omega arith)
scan_tokens-Tokenizes (suc fuel) s small h f =
    let r = scan_token s in
    let lexeme = scan_token-IsLexeme s small h in
    elim (Bool-cases (is_eof r.1.type)) [
      | inl e ↦ rw e (lexeme.source, Tiles.stop r.1 (lexeme.ends e) e lexeme.gap)
      | inr e ↦ rw e (
          extend s r.0 r.1 lexeme e (scan_tokens fuel r.0) (
            scan_tokens-Tokenizes fuel r.0 (omega (arith, small, ap length lexeme.source))
              (omega (arith, lexeme.inside, ap length lexeme.source))
              (omega (arith, (lexeme.grows e).0, lexeme.after, ap length lexeme.source))))
    ]
