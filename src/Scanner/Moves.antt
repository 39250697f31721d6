-- ===== src/Scanner/Moves.antt =====
-- How the scanner's helpers (src/l0_core/syntax/scanner.cpp) move the cursor, and what keeps the
-- line counter true.
use niki.Prelude.{
  ℕ, zero, suc, ◌+◌, ◌≤◌, ◌<◌, ◌≡◌, ◌≢◌, refl, ap, ◌^◌, Bool, true, false, List, inl, inr, arith,
  ◌==◌, if◌then◌else◌, Bool-cases, length, get_or,
}
use niki.Scanner.Cursor.{
  is_at_end, Scanner, Message, newline, advance, peek, match, while, remaining, consume, report,
}

-- The line feeds among the first `i` bytes.
unfoldable pub newlines_before : List ℕ → ℕ → ℕ
newlines_before source zero = 0
newlines_before source (suc i) =
    newlines_before source i + (if get_or source i 0 == newline then 1 else 0)

-- The offset behind the last line feed among the first `i` bytes.
unfoldable pub line_start_before : List ℕ → ℕ → ℕ
line_start_before source zero = 0
line_start_before source (suc i) =
    if get_or source i 0 == newline then suc i else line_start_before source i

-- The line counter and the start of the line are those of the cursor.
pub record IsTracking (s : Scanner) : Type 0 where
  pub line : s.line ≡ 1 + newlines_before s.source s.current
  pub line_start : s.line_start ≡ line_start_before s.source s.current

-- A source below 4 GiB: no offset wraps around.
abbrev pub IsSmall : Scanner → Type 0
IsSmall s = length s.source < 2 ^ 32

-- From `s` to `t` the cursor moves forward inside the same source, if this is small.
pub record Moves (s t : Scanner) : Type 0 where
  pub source : t.source ≡ s.source
  pub start : t.start ≡ s.start
  pub forward : IsSmall s → s.current ≤ t.current
  pub inside : IsSmall s → s.current ≤ length s.source → t.current ≤ length s.source

pub Moves-refl : (s : Scanner) → Moves s s
Moves-refl s = record { source = refl; start = refl; forward = λ _. omega arith; inside = λ _ h. h }

pub Moves-trans : (s t u : Scanner) → Moves s t → Moves t u → Moves s u
Moves-trans s t u p q = ground arith

pub advance-Moves : (s : Scanner) → Moves s (advance s)
unfolding advance
advance-Moves s = ground arith

pub consume-Moves : (s : Scanner) → Moves s (consume s)
unfolding consume
consume-Moves s = ground arith

pub match-Moves : (c : ℕ) (s : Scanner) → Moves s (match c s).0
unfolding match
match-Moves c s = ground arith

pub report-Moves : (m : Message) (s : Scanner) → Moves s (report m s)
unfolding report
report-Moves m s = record {
  source = refl;
  start = refl;
  forward = λ _. omega arith;
  inside = λ _ h. h;
}

-- A source stays small.
pub IsSmall-moved : (s t : Scanner) → Moves s t → IsSmall s → IsSmall t
IsSmall-moved s t m small = omega (arith, small, ap length m.source)

pub IsSmall-back : (s t : Scanner) → Moves s t → IsSmall t → IsSmall s
IsSmall-back s t m small = omega (arith, small, ap length m.source)

-- The invariant rule of the loops.
pub while_rule {ℓ} :
    (P : Scanner → Type ℓ) (test : Scanner → Bool) (body : Scanner → Scanner)
    → ((t : Scanner) → test t ≡ true → P t → P (body t))
    → (fuel : ℕ) (s : Scanner) → P s
    → P (while fuel test body s)
unfolding while
while_rule P test body keep zero s h = h
while_rule P test body keep (suc fuel) s h = elim (Bool-cases (test s)) [
  | inl e ↦ rw (e, while) (while_rule P test body keep fuel (body s) (keep s e h))
  | inr e ↦ rw (e, while) h
]

-- A loop that moves at each round ends by its test: the characters left are enough fuel.
pub while-ends :
    (test : Scanner → Bool) (body : Scanner → Scanner)
    → ((t : Scanner) → IsSmall t → test t ≡ true → remaining (body t) < remaining t)
    → ((t : Scanner) → Moves t (body t))
    → (fuel : ℕ) (s : Scanner) → IsSmall s
    → remaining s ≤ fuel
    → test (while fuel test body s) ≡ false
unfolding while
while-ends test body step moves zero s small h = elim (Bool-cases (test s)) [
  | inl e ↦ absurd (omega (arith, step s small e))
  | inr e ↦ e
]
while-ends test body step moves (suc fuel) s small h = elim (Bool-cases (test s)) [
  | inl e ↦
      rw (e, while)
        (while-ends test body step moves fuel (body s) (IsSmall-moved s (body s) (moves s) small)
          (omega (arith, step s small e)))
  | inr e ↦ rw (e, while) e
]

-- Moving over a byte that is no line feed, or over one by `advance_line`, keeps the counter true.
pub advance-IsTracking :
    (s : Scanner) → peek s ≢ newline → IsSmall s → IsTracking s → IsTracking (advance s)
unfolding advance peek newlines_before line_start_before
advance-IsTracking s h small t = ground arith

pub consume-IsTracking : (s : Scanner) → IsSmall s → IsTracking s → IsTracking (consume s)
unfolding consume newlines_before line_start_before
consume-IsTracking s small t = ground arith

pub match-IsTracking :
    (c : ℕ) (s : Scanner) → c ≢ newline → IsSmall s → IsTracking s → IsTracking (match c s).0
unfolding match newlines_before line_start_before
match-IsTracking c s h small t = ground arith

pub report-IsTracking : (m : Message) (s : Scanner) → IsTracking s → IsTracking (report m s)
unfolding report
report-IsTracking m s t = record { line = t.line; line_start = t.line_start }

-- Away from the end a round of the consuming loops leaves one character less.
pub consume_falls :
    (s : Scanner) → IsSmall s → is_at_end s ≡ false → remaining (consume s) < remaining s
unfolding consume
consume_falls s small h = ground arith
