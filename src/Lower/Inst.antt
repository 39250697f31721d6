-- ===== src/Lower/Inst.antt =====
-- The `switch` of `lowerOneFunction` (src/l0_core/ir/lower_to_chunk.cpp): one instruction.
use Prim.Native.String.{String}
use niki.Prelude.{
  ℕ, ◌+◌, ◌-◌, ◌%◌, ◌^◌, not, List, [], ◌∷◌, ◌++◌, Option, none, some, ltb, ◌==◌, if◌then◌else◌,
  length, get_elem?,
}
use niki.Opcode.Code.{
  Opcode, op_iadd, op_isub, op_imul, op_idiv, op_imod, op_dice, op_ieq, op_ine, op_ilt, op_igt,
  op_ile, op_ige, op_and, op_or, op_jmp, op_jnz, op_call, op_return, op_get_global, op_get_global_w,
  op_set_global, op_set_global_w,
}
use niki.Linker.Link.{Chunk}
use niki.Bytecode.Stream.{write_u16, add_constant}
use niki.Ir.Kinds.{
  ValueKind, invalid, vreg, imm_i64, imm_f64_bits, imm_bool, string_id, symbol_id, block_id,
  InstKind,
}
use niki.Ir.Module.{ModuleIr}
use niki.Ir.Table.{Inst}
use niki.Object.Value.{Value, Heap, Obj, allocate}
use niki.Lower.Writer.{
  message, Result, ok, err, ◌>>=◌, Lowering, emit, emit_indexed, emit_load_const, emit_move,
  require_vreg, require_all,
}

-- `lowerImmediateToValue`, with the heap of its string.
unfoldable pub lower_immediate_to_value :
    ValueKind → ℕ → ℕ → ℕ → ModuleIr → Heap → Result (Heap × Value)
lower_immediate_to_value imm_i64 u32 i64 u64 unit heap = ok (heap, Value.int i64)
lower_immediate_to_value imm_bool u32 i64 u64 unit heap = ok (heap, Value.bool (not (u32 == 0)))
lower_immediate_to_value imm_f64_bits u32 i64 u64 unit heap = ok (heap, Value.float u64)
lower_immediate_to_value string_id u32 i64 u64 unit heap = elim (get_elem? unit.string_pool u32) [
  | none ↦ err (message "StringId out of range during lowering.")
  | some text ↦ ok (allocate (Obj.string text) heap)
]
lower_immediate_to_value _ u32 i64 u64 unit heap =
    err (message "Unsupported immediate kind for Constant lowering.")

-- `mapBinaryOpcode`.
unfoldable pub map_binary_opcode : InstKind → Result Opcode
map_binary_opcode InstKind.add = ok op_iadd
map_binary_opcode InstKind.sub = ok op_isub
map_binary_opcode InstKind.mul = ok op_imul
map_binary_opcode InstKind.div = ok op_idiv
map_binary_opcode InstKind.mod_ = ok op_imod
map_binary_opcode InstKind.dice = ok op_dice
map_binary_opcode InstKind.cmp_eq = ok op_ieq
map_binary_opcode InstKind.cmp_ne = ok op_ine
map_binary_opcode InstKind.cmp_lt = ok op_ilt
map_binary_opcode InstKind.cmp_le = ok op_ile
map_binary_opcode InstKind.cmp_gt = ok op_igt
map_binary_opcode InstKind.cmp_ge = ok op_ige
map_binary_opcode InstKind.logic_and = ok op_and
map_binary_opcode InstKind.logic_or = ok op_or
map_binary_opcode _ = err (message "InstKind has no direct VM binary opcode mapping.")

-- The operands of an instruction as registers.
abbrev pub dst : Inst → Option ℕ
dst r = require_vreg r.dst_kind r.dst_u32

abbrev pub first : Inst → Option ℕ
first r = require_vreg r.a_kind r.a_u32

abbrev pub second : Inst → Option ℕ
second r = require_vreg r.b_kind r.b_u32

abbrev pub third : Inst → Option ℕ
third r = require_vreg r.c_kind r.c_u32

-- The low byte of the auxiliary field.
abbrev pub aux_byte : Inst → ℕ
aux_byte r = r.aux % 2 ^ 8

-- Go on with the chunk that was emitted.
abbrev pub with_chunk : Lowering → Result (Chunk Value) → Result Lowering
with_chunk st emitted = emitted >>= λ chunk. ok (record st { chunk = chunk })

-- The registers or a message, then the instruction on them and on the bytes that follow.
unfoldable pub emit_on :
    Opcode → String → List (Option ℕ) → List ℕ → Inst → Lowering → Result Lowering
emit_on op text regs rest r st = elim (require_all regs) [
  | none ↦ err (message text)
  | some operands ↦ with_chunk st (emit op (operands ++ rest) r.src_line r.src_col st.chunk)
]

-- The case of the fourteen binary instructions.
unfoldable pub lower_binary : Inst → Lowering → Result Lowering
lower_binary r st = do
  op ← map_binary_opcode r.kind
  emit_on op "Binary instruction expects VReg operands <= 255." (dst r ∷ first r ∷ second r ∷ []) []
      r st

-- `case InstKind::Constant`.
unfoldable pub lower_constant : ModuleIr → Inst → Lowering → Result Lowering
lower_constant unit r st = elim (dst r) [
  | none ↦ err (message "Constant expects dst VReg <= 255.")
  | some dst_reg ↦ do
    (heap, value) ← lower_immediate_to_value r.a_kind r.a_u32 r.a_i64 r.a_u64 unit st.heap
    let (chunk, index) = add_constant value st.chunk
    with_chunk (record st { heap = heap })
        (emit_load_const dst_reg index r.src_line r.src_col chunk)
]

-- The name of a top-level symbol: an id, or a constant in the range of `uint32_t`, whose sign bit is
-- then clear.
unfoldable pub name_sid : String → String → ValueKind → ℕ → ℕ → Result ℕ
name_sid range kind symbol_id u32 i64 = ok u32
name_sid range kind imm_i64 u32 i64 = if ltb (2 ^ 32 - 1) i64 then err (message range) else ok i64
name_sid range kind _ u32 i64 = err (message kind)

-- The constant of a name, and the instruction on it.
unfoldable pub lower_global : Opcode → Opcode → ℕ → Result ℕ → Inst → Lowering → Result Lowering
lower_global narrow wide reg name r st = do
  sid ← name
  let (chunk, index) = add_constant (Value.int sid) st.chunk
  with_chunk st (emit_indexed narrow wide reg index r.src_line r.src_col chunk)

-- `case InstKind::LoadGlobal`.
unfoldable pub lower_load_global : Inst → Lowering → Result Lowering
lower_load_global r st = elim (dst r) [
  | none ↦ err (message "LoadGlobal expects dst VReg <= 255.")
  | some dst_reg ↦
      lower_global op_get_global op_get_global_w dst_reg
        (name_sid "LoadGlobal ImmI64 payload out of uint32 range."
          "LoadGlobal expects SymbolId/ImmI64 payload." r.a_kind r.a_u32 r.a_i64)
        r st
]

-- `case InstKind::StoreGlobal`.
unfoldable pub lower_store_global : Inst → Lowering → Result Lowering
lower_store_global r st = elim (first r) [
  | none ↦ err (message "StoreGlobal expects value VReg <= 255.")
  | some value_reg ↦
      lower_global op_set_global op_set_global_w value_reg
        (name_sid "StoreGlobal ImmI64 payload out of uint32 range."
          "StoreGlobal expects SymbolId/ImmI64 name payload in operand b." r.b_kind r.b_u32 r.b_i64)
        r st
]

-- The first register of the arguments: 0 where the operand is absent.
unfoldable pub arg_start : Inst → Option ℕ
arg_start r = elim r.b_kind [ invalid ↦ some 0 | kind ↦ require_vreg kind r.b_u32 ]

-- `case InstKind::Call`.
unfoldable pub lower_call : Inst → Lowering → Result Lowering
lower_call r st = elim (dst r) [
  | none ↦ err (message "Call expects dst VReg <= 255.")
  | some out_reg ↦ elim (first r) [
    | none ↦ err (message "Call currently expects callee as VReg.")
    | some callee_reg ↦
        emit_on op_call "Call arg base must be VReg <= 255."
          (some out_reg ∷ some callee_reg ∷ arg_start r ∷ []) (aux_byte r ∷ []) r st
  ]
]

-- A jump to a block: its opcode, its operands, an offset of 0, and the patch that will set it.
unfoldable pub emit_jump : Opcode → List ℕ → ℕ → Inst → Lowering → Result Lowering
emit_jump op operands target r st = do
  started ← emit op operands r.src_line r.src_col st.chunk
  let chunk = write_u16 0 r.src_line r.src_col started
  ok (record st {
    chunk = chunk;
    pending_patches =
        st.pending_patches
        ++ (record {
          offset_u16_code_index = length started.code;
          target_block_id = target;
          offset_base_code_index = length chunk.code;
          original_opcode = op;
          opcode_off_back = 1 + length operands;
        })
          ∷ [];
  })

-- `case InstKind::Jump`.
unfoldable pub lower_jump : ValueKind → Inst → Lowering → Result Lowering
lower_jump block_id r st = emit_jump op_jmp [] r.a_u32 r st
lower_jump _ r st = err (message "Jump expects BlockId target.")

-- `case InstKind::Branch`.
unfoldable pub lower_branch : ValueKind → ValueKind → ValueKind → Inst → Lowering → Result Lowering
lower_branch vreg block_id block_id r st = elim (first r) [
  | none ↦ err (message "Branch condition register out of 8-bit range.")
  | some cond_reg ↦ do
    taken ← emit_jump op_jnz (cond_reg ∷ []) r.b_u32 r st
    emit_jump op_jmp [] r.c_u32 r taken
]
lower_branch _ _ _ r st = err (message "Branch expects cond(VReg), true(BlockId), false(BlockId).")

-- The result of a function goes to register 0.
unfoldable pub move_result : ValueKind → Inst → Lowering → Result Lowering
move_result vreg r st = if r.a_u32 == 0 then ok st else elim (first r) [
  | none ↦ err (message "Return register out of 8-bit range.")
  | some src_reg ↦ with_chunk st (emit_move 0 src_reg r.src_line r.src_col st.chunk)
]
move_result _ r st = ok st

-- `case InstKind::Return`.
unfoldable pub lower_return : Inst → Lowering → Result Lowering
lower_return r st = do
  moved ← move_result r.a_kind r st
  with_chunk moved (emit op_return [] r.src_line r.src_col moved.chunk)
