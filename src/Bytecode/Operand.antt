-- ===== src/Bytecode/Operand.antt =====
-- What the virtual machine reads of what the lowering wrote (src/l0_core/ir/lower_to_chunk.cpp,
-- src/l0_core/vm/vm.cpp).
use native.Mathlib.Nat.{mod-eq_of_lt}
use niki.Prelude.{
  ℕ, zero, suc, ◌+◌, ◌*◌, ◌%◌, ◌^◌, ◌<◌, ◌≡◌, ◌≢◌, refl, sym, ap, ◌∙◌, false, List, [], ◌∷◌, ◌++◌,
  some, arith, ltb, leb, length, length-append, length-set, get_elem?, get_elem?-some-lt,
  get_elem?-set_self, get_elem?-set_ne, get_or, set,
}
use niki.Pool.Ids.{get_elem?-append, get_elem?-append_last}
use niki.Linker.Link.{Chunk}
use niki.Bytecode.Stream.{
  write_byte, high_byte, low_byte, write_u16, patch_u16, add_constant, try_read_short,
}

-- Every byte has a line and a column.
pub record HasPlaces {V : Type 0} (chunk : Chunk V) : Type 0 where
  pub lines : length chunk.lines ≡ length chunk.code
  pub columns : length chunk.columns ≡ length chunk.code

pub get_or-get_elem? : (xs : List ℕ) (i a : ℕ) → get_elem? xs i ≡ some a → get_or xs i 0 ≡ a
get_or-get_elem? [] i a h = cc
get_or-get_elem? (x ∷ xs) zero a h = cc
get_or-get_elem? (x ∷ xs) (suc i) a h = get_or-get_elem? xs i a h

-- The bytes of a number side by side read as the number.
read_short_lem :
    (code : List ℕ) (ip value : ℕ)
    → value < 2 ^ 16
    → get_elem? code ip ≡ some (high_byte value)
    → get_elem? code (ip + 1) ≡ some (low_byte value)
    → try_read_short code ip ≡ some (value, ip + 2)
unfolding try_read_short
read_short_lem code ip value small high low =
    let inside : ltb (length code) (ip + 2) ≡ false =
      ground (arith, get_elem?-some-lt code (ip + 1) (low_byte value) low) in
    let whole : (high_byte value * 2 ^ 8 + low_byte value) % 2 ^ 16 ≡ value = omega arith in
    rw
      (
        inside,
        get_or-get_elem? code ip (high_byte value) high,
        get_or-get_elem? code (ip + 1) (low_byte value) low,
        whole,
      )
      refl

append_two :
    {A : Type 0} (xs : List A) (ys : List ℕ) (a b : A) (c d : ℕ)
    → length xs ≡ length ys
    → length ((xs ++ a ∷ []) ++ b ∷ []) ≡ length ((ys ++ c ∷ []) ++ d ∷ [])
append_two xs ys a b c d h = omega (
  arith,
  length-append (xs ++ a ∷ []) (b ∷ []),
  length-append xs (a ∷ []),
  length-append (ys ++ c ∷ []) (d ∷ []),
  length-append ys (c ∷ []),
)

-- A 16-bit number that is written at the end of a chunk is read there by the machine, and every byte
-- keeps its line and its column.
pub write_u16_lem :
    {V : Type 0} (value line column : ℕ) (chunk : Chunk V)
    → value < 2 ^ 16
    → HasPlaces chunk
    → (try_read_short (write_u16 value line column chunk).code (length chunk.code)
        ≡ some (value, length chunk.code + 2))
      × HasPlaces (write_u16 value line column chunk)
unfolding write_u16 write_byte
write_u16_lem value line column chunk small places =
    let code = chunk.code in
    let first = code ++ high_byte value ∷ [] in
    let size : length first ≡ length code + 1 =
      omega (arith, length-append code (high_byte value ∷ [])) in
    (
      read_short_lem (first ++ low_byte value ∷ []) (length code) value small
          (get_elem?-append first (low_byte value) (length code) (high_byte value)
            (get_elem?-append_last code (high_byte value)))
          (ap (get_elem? (first ++ low_byte value ∷ [])) (sym size)
            ∙ get_elem?-append_last first (low_byte value)),
      record {
        lines =
            append_two chunk.lines chunk.code line line (high_byte value) (low_byte value)
              places.lines;
        columns =
            append_two chunk.columns chunk.code column column (high_byte value) (low_byte value)
              places.columns;
      },
    )

-- Patching a 16-bit number inside the code succeeds, the machine reads the number there, and every
-- other byte, the size of the code and the rest of the chunk stay as they are.
pub patch_u16_lem :
    {V : Type 0} (offset value : ℕ) (chunk : Chunk V)
    → value < 2 ^ 16
    → offset + 1 < length chunk.code
    → (next : Chunk V) × (patch_u16 offset value chunk ≡ some next)
      × (try_read_short next.code offset ≡ some (value, offset + 2))
      × (length next.code ≡ length chunk.code)
      × ((j : ℕ) → j ≢ offset → j ≢ offset + 1 → get_elem? next.code j ≡ get_elem? chunk.code j)
      × (next ≡ record chunk { code = next.code })
unfolding patch_u16
patch_u16_lem offset value chunk small inside =
    let first = set chunk.code offset (high_byte value) in
    let code = set first (offset + 1) (low_byte value) in
    let fits : leb (length chunk.code) (offset + 1) ≡ false = ground arith in
    let size : length first ≡ length chunk.code = length-set chunk.code offset (high_byte value) in
    let high : get_elem? code offset ≡ some (high_byte value) =
      get_elem?-set_ne first (low_byte value) (λ e. omega arith)
      ∙ get_elem?-set_self chunk.code offset (high_byte value) (omega arith) in
    let low : get_elem? code (offset + 1) ≡ some (low_byte value) =
      get_elem?-set_self first (offset + 1) (low_byte value) (omega arith) in
    (
      record chunk { code = code },
      rw fits refl,
      read_short_lem code offset value small high low,
      length-set first (offset + 1) (low_byte value) ∙ size,
      λ j p q.
          get_elem?-set_ne first (low_byte value) (λ e. q (sym e))
          ∙ get_elem?-set_ne chunk.code (high_byte value) (λ e. p (sym e)),
      refl,
    )

-- In a chunk with fewer than 2 ^ 16 constants the index of an added constant leads to it, and every
-- constant in use keeps its index.
pub add_constant_lem :
    {V : Type 0} (value : V) (chunk : Chunk V)
    → length chunk.constants < 2 ^ 16
    → (get_elem? (add_constant value chunk).0.constants (add_constant value chunk).1 ≡ some value)
      × ((i : ℕ) (old : V)
          → get_elem? chunk.constants i ≡ some old
          → get_elem? (add_constant value chunk).0.constants i ≡ some old)
unfolding add_constant
add_constant_lem value chunk h = (
  rw (mod-eq_of_lt h) (get_elem?-append_last chunk.constants value),
  λ i old e. get_elem?-append chunk.constants value i old e,
)
