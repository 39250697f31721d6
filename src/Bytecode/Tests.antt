-- ===== src/Bytecode/Tests.antt =====
-- Runs of the bytecode writer and the operand reads, and their theorems at them.
use niki.Prelude.{ℕ, ◌+◌, ◌≡◌, ◌≢◌, refl, [], ◌∷◌, none, some, arith, length, get_elem?}
use niki.Linker.Link.{Chunk}
use niki.Bytecode.Stream.{
  write_byte, write_u16, patch_u16, add_constant, try_read_byte, try_read_short,
}
use niki.Bytecode.Operand.{HasPlaces, write_u16_lem, patch_u16_lem, add_constant_lem}

abbrev chunk : Chunk ℕ
chunk = record {
  module_id = 0;
  code = 9 ∷ 1 ∷ 2 ∷ 3 ∷ [];
  constants = 5 ∷ [];
  lines = 1 ∷ 1 ∷ 1 ∷ 1 ∷ [];
  columns = 1 ∷ 1 ∷ 1 ∷ 1 ∷ [];
  string_pool = [];
  max_register_slots = 0;
}

written : (write_u16 0x1234 2 7 chunk).code ≡ 9 ∷ 1 ∷ 2 ∷ 3 ∷ 0x12 ∷ 0x34 ∷ []
unfolding write_u16 write_byte
written = refl

first_byte : try_read_byte chunk.code 0 ≡ some (9, 1)
unfolding try_read_byte
first_byte = refl

behind : try_read_byte chunk.code 4 ≡ none
unfolding try_read_byte
behind = refl

write_u16_lem_example :
    (try_read_short (write_u16 0x1234 2 7 chunk).code (length chunk.code)
      ≡ some (0x1234, length chunk.code + 2))
    × HasPlaces (write_u16 0x1234 2 7 chunk)
write_u16_lem_example =
    write_u16_lem 0x1234 2 7 chunk (omega arith) (record { lines = refl; columns = refl })

patch_u16_lem_example :
    (next : Chunk ℕ) × (patch_u16 1 0x1234 chunk ≡ some next)
    × (try_read_short next.code 1 ≡ some (0x1234, 3))
    × (length next.code ≡ length chunk.code)
    × ((j : ℕ) → j ≢ 1 → j ≢ 2 → get_elem? next.code j ≡ get_elem? chunk.code j)
    × (next ≡ record chunk { code = next.code })
patch_u16_lem_example = patch_u16_lem 1 0x1234 chunk (omega arith) (omega arith)

add_constant_lem_example :
    (get_elem? (add_constant 6 chunk).0.constants (add_constant 6 chunk).1 ≡ some 6)
    × ((i : ℕ) (old : ℕ)
        → get_elem? chunk.constants i ≡ some old
        → get_elem? (add_constant 6 chunk).0.constants i ≡ some old)
add_constant_lem_example = add_constant_lem 6 chunk (omega arith)
