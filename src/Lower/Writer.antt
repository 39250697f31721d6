-- ===== src/Lower/Writer.antt =====
-- The bytecode writer with its error paths, and the instructions that it emits
-- (src/l0_core/ir/lower_to_chunk.cpp).
use Prim.Native.String.{String}
use niki.Prelude.{ℕ, ◌%◌, ◌^◌, List, [], ◌∷◌, Option, none, some, ltb, leb, if◌then◌else◌}
use niki.Opcode.Code.{Opcode, to_int, op_load_const, op_load_const_w, op_move}
use niki.Opcode.Capability.{is_runnable, name_of}
use niki.Linker.Link.{Chunk}
use niki.Bytecode.Stream.{write_byte, write_u16}
use niki.Ir.Kinds.{ValueKind, vreg}
use niki.Object.Value.{Value, Heap}

-- The texts of `std::unexpected`: a message, that of an opcode that does not run, and that of a
-- function of a module. `undefined` is a read or a write outside of a vector.
pub data LowerError : Type 0 where
  message : String → LowerError
  not_runnable : String → LowerError
  function_failed : ℕ → LowerError → LowerError
  undefined : LowerError

-- `std::expected`.
pub data Result {ℓ} (A : Type ℓ) : Type ℓ where
  ok : A → Result A
  err : LowerError → Result A

infixl 5 ◌>>=◌
abbrev pub ◌>>=◌ {ℓ κ} : {A : Type ℓ} {B : Type κ} → Result A → (A → Result B) → Result B
ok a >>= f = f a
err e >>= f = err e

-- `struct PendingJumpPatch`.
pub record PendingJumpPatch : Type 0 where
  pub offset_u16_code_index : ℕ
  pub target_block_id : ℕ
  pub offset_base_code_index : ℕ
  pub original_opcode : Opcode
  pub opcode_off_back : ℕ

-- The local variables of `lowerOneFunction`, with the heap of the strings that it allocates.
pub record Lowering : Type 0 where
  pub chunk : Chunk Value
  pub heap : Heap
  pub block_entry_code_index : List (ℕ × ℕ)
  pub pending_patches : List PendingJumpPatch

-- `writeOp`.
unfoldable pub write_op : {V : Type 0} → Opcode → ℕ → ℕ → Chunk V → Chunk V
write_op op line column chunk = write_byte (to_int op) line column chunk

-- `writeRunnableOp`.
unfoldable pub write_runnable_op : {V : Type 0} → Opcode → ℕ → ℕ → Chunk V → Result (Chunk V)
write_runnable_op op line column chunk =
    if is_runnable op then ok (write_op op line column chunk) else err (not_runnable (name_of op))

-- Calls of `writeByte` one after the other.
unfoldable pub write_bytes : {V : Type 0} → List ℕ → ℕ → ℕ → Chunk V → Chunk V
write_bytes [] line column chunk = chunk
write_bytes (byte ∷ bytes) line column chunk =
    write_bytes bytes line column (write_byte byte line column chunk)

-- `writeRunnableOp` and the bytes of the operands.
unfoldable pub emit : {V : Type 0} → Opcode → List ℕ → ℕ → ℕ → Chunk V → Result (Chunk V)
unfolding write_runnable_op
emit op operands line column chunk = do
  started ← write_runnable_op op line column chunk
  ok (write_bytes operands line column started)

-- An instruction on a register and a constant, narrow where the index fits a byte.
unfoldable pub emit_indexed :
    {V : Type 0} → Opcode → Opcode → ℕ → ℕ → ℕ → ℕ → Chunk V → Result (Chunk V)
unfolding emit write_runnable_op
emit_indexed narrow wide reg constant_index line column chunk =
    if leb constant_index 255
    then emit narrow (reg ∷ (constant_index % 2 ^ 8) ∷ []) line column chunk
    else do
      started ← write_runnable_op wide line column chunk
      ok (write_u16 constant_index line column (write_byte reg line column started))

-- `emitLoadConst`.
unfoldable pub emit_load_const : {V : Type 0} → ℕ → ℕ → ℕ → ℕ → Chunk V → Result (Chunk V)
unfolding emit_indexed
emit_load_const dst_reg constant_index line column chunk =
    emit_indexed op_load_const op_load_const_w dst_reg constant_index line column chunk

-- `emitMove`.
unfoldable pub emit_move : {V : Type 0} → ℕ → ℕ → ℕ → ℕ → Chunk V → Result (Chunk V)
unfolding emit
emit_move dst_reg src_reg line column chunk =
    emit op_move (dst_reg ∷ src_reg ∷ []) line column chunk

-- `requireVReg`: the register, if there is one.
unfoldable pub require_vreg : ValueKind → ℕ → Option ℕ
require_vreg vreg payload = if ltb 255 payload then none else some payload
require_vreg _ payload = none

-- Calls of `requireVReg` joined by `||`.
unfoldable pub require_all : List (Option ℕ) → Option (List ℕ)
require_all [] = some []
require_all (none ∷ regs) = none
require_all (some reg ∷ regs) = elim (require_all regs) [
  | none ↦ none
  | some operands ↦ some (reg ∷ operands)
]
