-- ===== src/Vm/Fetch.antt =====
-- The moves of the instruction pointer (src/l0_core/vm/vm.cpp), as an index of the code.
use niki.Prelude.{ℕ, ◌+◌, ◌-◌, List, Option, none, some, ltb, if◌then◌else◌, length}
use niki.Bytecode.Stream.{try_read_byte, try_read_short}
use niki.Opcode.Code.{Opcode, op_jmp, op_loop, op_jnz, op_jz}

-- `tryJumpForward`: `none` where the target is behind the end.
unfoldable pub try_jump_forward : List ℕ → ℕ → ℕ → Option ℕ
try_jump_forward code ip offset =
    if ltb (length code) (ip + offset) then none else some (ip + offset)

-- `tryJumpBackward`: `none` where the target is before the start.
unfoldable pub try_jump_backward : List ℕ → ℕ → ℕ → Option ℕ
try_jump_backward code ip offset = if ltb ip offset then none else some (ip - offset)

-- An offset, and a jump by it.
unfoldable pub read_and_jump : (List ℕ → ℕ → ℕ → Option ℕ) → List ℕ → ℕ → Option ℕ
read_and_jump jump code ip = elim (try_read_short code ip) [
  | none ↦ none
  | some (offset, next) ↦ jump code next offset
]

-- The cases of `OP_JMP` and `OP_LOOP`, and of `OP_JNZ` and `OP_JZ` when they jump, behind the opcode.
unfoldable pub jump_from : Opcode → List ℕ → ℕ → Option ℕ
jump_from op_jmp code ip = read_and_jump try_jump_forward code ip
jump_from op_loop code ip = read_and_jump try_jump_backward code ip
jump_from op_jnz code ip = elim (try_read_byte code ip) [
  | none ↦ none
  | some (cond_reg, next) ↦ read_and_jump try_jump_forward code next
]
jump_from op_jz code ip = elim (try_read_byte code ip) [
  | none ↦ none
  | some (cond_reg, next) ↦ read_and_jump try_jump_forward code next
]
jump_from _ code ip = none
