-- ===== src/Bytecode/Stream.antt =====
-- `BytecodeWriter` (src/l0_core/ir/lower_to_chunk.cpp) and the reads of operands, `tryReadByte` and
-- `tryReadShort` (src/l0_core/vm/vm.cpp).
use niki.Prelude.{
  ℕ, ◌+◌, ◌*◌, ◌/◌, ◌%◌, ◌^◌, List, [], ◌∷◌, ◌++◌, Option, none, some, ltb, leb, if◌then◌else◌,
  length, get_or, set,
}
use niki.Linker.Link.{Chunk}

-- `writeByte`.
unfoldable pub write_byte : {V : Type 0} → ℕ → ℕ → ℕ → Chunk V → Chunk V
write_byte byte line column chunk = record chunk {
  code = chunk.code ++ byte ∷ [];
  lines = chunk.lines ++ line ∷ [];
  columns = chunk.columns ++ column ∷ [];
}

-- The two bytes of a 16-bit number.
abbrev pub high_byte : ℕ → ℕ
high_byte value = value / 2 ^ 8 % 2 ^ 8

abbrev pub low_byte : ℕ → ℕ
low_byte value = value % 2 ^ 8

-- `writeU16`.
unfoldable pub write_u16 : {V : Type 0} → ℕ → ℕ → ℕ → Chunk V → Chunk V
write_u16 value line column chunk =
    write_byte (low_byte value) line column (write_byte (high_byte value) line column chunk)

-- `patchU16`: `none` where it writes outside of the code.
unfoldable pub patch_u16 : {V : Type 0} → ℕ → ℕ → Chunk V → Option (Chunk V)
patch_u16 offset value chunk =
    if leb (length chunk.code) (offset + 1)
    then none
    else some (record chunk {
      code = set (set chunk.code offset (high_byte value)) (offset + 1) (low_byte value);
    })

-- `addConstant`, with the index that it returns.
unfoldable pub add_constant : {V : Type 0} → V → Chunk V → Chunk V × ℕ
add_constant value chunk =
    (record chunk { constants = chunk.constants ++ value ∷ [] }, length chunk.constants % 2 ^ 16)

-- `tryReadByte` at an instruction pointer: the byte and the next one, or the end of the code.
unfoldable pub try_read_byte : List ℕ → ℕ → Option (ℕ × ℕ)
try_read_byte code ip = if leb (length code) ip then none else some (get_or code ip 0, ip + 1)

-- `tryReadShort`. The two bytes share no bit, so `|` is `+`.
unfoldable pub try_read_short : List ℕ → ℕ → Option (ℕ × ℕ)
try_read_short code ip =
    if ltb (length code) (ip + 2)
    then none
    else some ((get_or code ip 0 * 2 ^ 8 + get_or code (ip + 1) 0) % 2 ^ 16, ip + 2)
