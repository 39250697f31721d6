-- ===== src/Ir/Verify/Wrap.antt =====
-- The sums of the verifier are 32-bit sums (src/l0_core/ir/verify.cpp): what follows where one of them
-- wraps around.
use native.Mathlib.Nat.{mod-eq_of_lt}
use niki.Prelude.{
  ℕ, zero, suc, ◌+◌, ◌%◌, ◌^◌, ◌≤◌, ◌<◌, ◌≡◌, refl, false, List, [], ◌∷◌, none, some, arith, ltb,
  leb, length, get_elem?,
}
use niki.Ir.Kinds.{entry_block_out_of_range}
use niki.Ir.Module.{FuncRecord, ModuleIr}
use niki.Ir.Checks.{Checks, unknown_index, add, add_if, both, each, with_entry}
use niki.Ir.Verify.{check_block_at, check_function}

get_elem?-beyond {ℓ} : {A : Type ℓ} (xs : List A) (i : ℕ) → length xs ≤ i → get_elem? xs i ≡ none
get_elem?-beyond [] i h = refl
get_elem?-beyond (x ∷ xs) zero h = absurd (omega arith)
get_elem?-beyond (x ∷ xs) (suc i) h = get_elem?-beyond xs i (omega arith)

both_none : (a : Checks) → both a none ≡ none
unfolding both
both_none none = refl
both_none (some a) = refl

each_none :
    (rounds : ℕ) (body : ℕ → Checks) → 0 < rounds → body 0 ≡ none → each rounds 0 body ≡ none
unfolding each both
each_none zero body h e = absurd (omega arith)
each_none (suc rounds) body h e = rw (e, both) refl

-- Where the blocks of a function begin behind the block table, and the sum that is compared with
-- the size of the table wraps around to at most that size, the function is not rejected: its first
-- round reads a block outside of the table.
pub check_function-wraps :
    (m : ModuleIr) (func : ℕ) (f : FuncRecord)
    → length m.blocks ≤ f.block_span.begin
    → f.block_span.begin < 2 ^ 32
    → 0 < f.block_span.count
    → (f.block_span.begin + f.block_span.count) % 2 ^ 32 ≤ length m.blocks
    → check_function m func f ≡ none
unfolding check_function check_block_at with_entry
check_function-wraps m func f outside small nonempty wraps =
    let first : get_elem? m.blocks (f.block_span.begin + 0) ≡ none =
      get_elem?-beyond m.blocks (f.block_span.begin + 0) (omega arith) in
    let fits : f.block_span.begin + 0 < 2 ^ 32 = omega arith in
    let start : check_block_at m func f 0 ≡ none = rw (mod-eq_of_lt fits, first) refl in
    let passes : ltb (length m.blocks) ((f.block_span.begin + f.block_span.count) % 2 ^ 32)
        ≡ false =
      ground arith in
    rw
      (
        passes,
        each_none f.block_span.count (check_block_at m func f) nonempty start,
        both_none (
            add_if (leb f.block_span.count f.entry_block)
              (add entry_block_out_of_range func unknown_index unknown_index)),
      )
      (both_none _)
