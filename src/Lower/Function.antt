-- ===== src/Lower/Function.antt =====
-- `lowerOneFunction`, `lowerFunctionToChunk` and `lowerModuleToChunk`
-- (src/l0_core/ir/lower_to_chunk.cpp).
use niki.Prelude.{
  ℕ, zero, suc, ◌+◌, ◌-◌, ◌%◌, ◌^◌, List, [], ◌∷◌, ◌++◌, none, some, ltb, if◌then◌else◌, length,
  get_elem?, set,
}
use niki.Opcode.Code.{Opcode, to_int, op_jmp, op_loop}
use niki.Linker.Link.{Chunk}
use niki.Bytecode.Stream.{patch_u16}
use niki.Pool.Mapped.{lookup}
use niki.Semantic.Namespace.{module_ids}
use niki.Ir.Kinds.{InstKind}
use niki.Ir.Module.{Span, FuncRecord, BlockRecord, InstTable, ModuleIr}
use niki.Ir.Table.{Inst}
use niki.Object.Value.{Heap, ObjFunction}
use niki.Lower.Writer.{
  message, function_failed, undefined, Result, ok, err, ◌>>=◌, PendingJumpPatch, Lowering,
}
use niki.Lower.Direct.{
  lower_move, lower_neg, lower_logic_not, lower_new_array, lower_push_array, lower_new_map,
  lower_set_map, lower_get_index, lower_set_index, lower_get_member, lower_set_member, lower_free,
}
use niki.Lower.Inst.{
  lower_binary, lower_constant, lower_load_global, lower_store_global, lower_call, lower_jump,
  lower_branch, lower_return,
}

-- The `switch` on the kind of an instruction.
unfoldable pub lower_kind : InstKind → ModuleIr → Inst → Lowering → Result Lowering
lower_kind InstKind.nop unit r st = ok st
lower_kind InstKind.constant unit r st = lower_constant unit r st
lower_kind InstKind.move unit r st = lower_move r st
lower_kind InstKind.add unit r st = lower_binary r st
lower_kind InstKind.sub unit r st = lower_binary r st
lower_kind InstKind.mul unit r st = lower_binary r st
lower_kind InstKind.div unit r st = lower_binary r st
lower_kind InstKind.mod_ unit r st = lower_binary r st
lower_kind InstKind.dice unit r st = lower_binary r st
lower_kind InstKind.cmp_eq unit r st = lower_binary r st
lower_kind InstKind.cmp_ne unit r st = lower_binary r st
lower_kind InstKind.cmp_lt unit r st = lower_binary r st
lower_kind InstKind.cmp_le unit r st = lower_binary r st
lower_kind InstKind.cmp_gt unit r st = lower_binary r st
lower_kind InstKind.cmp_ge unit r st = lower_binary r st
lower_kind InstKind.logic_and unit r st = lower_binary r st
lower_kind InstKind.logic_or unit r st = lower_binary r st
lower_kind InstKind.neg unit r st = lower_neg r st
lower_kind InstKind.logic_not unit r st = lower_logic_not r st
lower_kind InstKind.new_array unit r st = lower_new_array r st
lower_kind InstKind.push_array unit r st = lower_push_array r st
lower_kind InstKind.new_map unit r st = lower_new_map r st
lower_kind InstKind.set_map unit r st = lower_set_map r st
lower_kind InstKind.get_index unit r st = lower_get_index r st
lower_kind InstKind.set_index unit r st = lower_set_index r st
lower_kind InstKind.get_member unit r st = lower_get_member r st
lower_kind InstKind.set_member unit r st = lower_set_member r st
lower_kind InstKind.load_global unit r st = lower_load_global r st
lower_kind InstKind.store_global unit r st = lower_store_global r st
lower_kind InstKind.call unit r st = lower_call r st
lower_kind InstKind.jump unit r st = lower_jump r.a_kind r st
lower_kind InstKind.branch unit r st = lower_branch r.a_kind r.b_kind r.c_kind r st
lower_kind InstKind.free unit r st = lower_free r st
lower_kind InstKind.return unit r st = lower_return r st
lower_kind InstKind.phi unit r st = err (message "Unsupported InstKind in MVP lowering.")

-- An element of a vector; outside of it the source defines nothing.
abbrev pub at {ℓ} : {A : Type ℓ} → List A → ℕ → Result A
at xs i = elim (get_elem? xs i) [ none ↦ err undefined | some a ↦ ok a ]

-- The columns of an instruction that are read.
unfoldable pub snapshot : InstTable → ℕ → Result Inst
snapshot t i = do
  kind ← at t.kind i
  dst_kind ← at t.dst_kind i
  dst_u32 ← at t.dst_u32 i
  a_kind ← at t.a_kind i
  a_u32 ← at t.a_u32 i
  a_i64 ← at t.a_i64 i
  a_u64 ← at t.a_u64 i
  b_kind ← at t.b_kind i
  b_u32 ← at t.b_u32 i
  b_i64 ← at t.b_i64 i
  c_kind ← at t.c_kind i
  c_u32 ← at t.c_u32 i
  aux ← at t.aux i
  src_line ← at t.src_line i
  src_col ← at t.src_col i
  ok (record {
    kind = kind;
    dst_kind = dst_kind;
    dst_u32 = dst_u32;
    dst_i64 = 0;
    dst_u64 = 0;
    a_kind = a_kind;
    a_u32 = a_u32;
    a_i64 = a_i64;
    a_u64 = a_u64;
    b_kind = b_kind;
    b_u32 = b_u32;
    b_i64 = b_i64;
    b_u64 = 0;
    c_kind = c_kind;
    c_u32 = c_u32;
    c_i64 = 0;
    c_u64 = 0;
    aux = aux;
    src_line = src_line;
    src_col = src_col;
  })

-- The loop over instructions: the rounds left, and the index.
unfoldable pub lower_insts : ℕ → ℕ → ModuleIr → Lowering → Result Lowering
lower_insts zero i unit st = ok st
lower_insts (suc rounds) i unit st = do
  r ← snapshot unit.insts i
  next ← lower_kind r.kind unit r st
  lower_insts rounds (i + 1) unit next

-- A block: its entry, and its instructions. The end of the span is a `uint32_t`.
unfoldable pub lower_block : ModuleIr → BlockRecord → Lowering → Result Lowering
lower_block unit b st =
    let begin = b.inst_span.begin in
    let end = (begin + b.inst_span.count) % 2 ^ 32 in
    lower_insts (end - begin) begin unit (record st {
      block_entry_code_index = (b.block_id, length st.chunk.code) ∷ st.block_entry_code_index;
    })

-- The loop over blocks: the rounds left, and the index within the span.
unfoldable pub lower_blocks : ℕ → ℕ → ModuleIr → Span → Lowering → Result Lowering
lower_blocks zero i unit span st = ok st
lower_blocks (suc rounds) i unit span st = do
  b ← at unit.blocks ((span.begin + i) % 2 ^ 32)
  next ← lower_block unit b st
  lower_blocks rounds (i + 1) unit span next

-- A backward jump becomes a loop; a conditional one stays.
unfoldable pub backward_opcode : Opcode → Opcode
backward_opcode op_jmp = op_loop
backward_opcode op = op

-- `code[index] = byte`.
unfoldable pub store_byte : {V : Type 0} → ℕ → ℕ → Chunk V → Result (Chunk V)
store_byte index byte chunk =
    if ltb index (length chunk.code)
    then ok (record chunk { code = set chunk.code index byte })
    else err undefined

-- The last writes of a patch.
unfoldable pub write_patch :
    {V : Type 0} → PendingJumpPatch → Opcode → ℕ → Chunk V → Result (Chunk V)
write_patch patch op offset chunk =
    if ltb 65535 offset then err (message "Jump offset exceeds uint16 range.") else do
      stored ← store_byte (patch.offset_u16_code_index - patch.opcode_off_back) (to_int op) chunk
      elim (patch_u16 patch.offset_u16_code_index offset stored) [
        | none ↦ err undefined
        | some patched ↦ ok patched
      ]

-- A round of the loop over the patches.
unfoldable pub apply_patch :
    {V : Type 0} → List (ℕ × ℕ) → PendingJumpPatch → Chunk V → Result (Chunk V)
apply_patch entries patch chunk = elim (lookup patch.target_block_id entries) [
  | none ↦ err (message "Jump target block id not found during patch.")
  | some target ↦
      let base = patch.offset_base_code_index in
      if ltb target base
      then write_patch patch (backward_opcode patch.original_opcode) (base - target) chunk
      else write_patch patch patch.original_opcode (target - base) chunk
]

unfoldable pub apply_patches :
    {V : Type 0} → List (ℕ × ℕ) → List PendingJumpPatch → Chunk V → Result (Chunk V)
apply_patches entries [] chunk = ok chunk
apply_patches entries (patch ∷ patches) chunk =
    apply_patch entries patch chunk >>= λ next. apply_patches entries patches next

-- The state before the loop over the blocks.
abbrev pub begin_lowering : ModuleIr → FuncRecord → Heap → Lowering
begin_lowering unit f heap = record {
  chunk = record {
    module_id = 0;
    code = [];
    constants = [];
    lines = [];
    columns = [];
    string_pool = unit.string_pool;
    max_register_slots = f.next_vreg % 2 ^ 16;
  };
  heap = heap;
  block_entry_code_index = [];
  pending_patches = [];
}

-- `lowerOneFunction`, with the heap of the strings: the function object and not its pointer.
unfoldable pub lower_one_function : ModuleIr → FuncRecord → Heap → Result (Heap × ObjFunction)
lower_one_function unit f heap =
    let span = f.block_span in
    if ltb (length unit.blocks) ((span.begin + span.count) % 2 ^ 32)
    then err (message "Function block span out of range.")
    else if ltb 255 f.arity
    then err (message "Function parameter count exceeds VM arity limit.")
    else do
      st ← lower_blocks span.count 0 unit span (begin_lowering unit f heap)
      chunk ← apply_patches st.block_entry_code_index st.pending_patches st.chunk
      ok (
        st.heap,
        record {
          name_id = f.func_name_sid;
          arity = f.arity;
          max_registers = f.next_vreg % 2 ^ 16;
          chunk = record chunk { module_id = unit.module_id };
        },
      )

-- `lowerFunctionToChunk`.
unfoldable pub lower_function_to_chunk : ModuleIr → ℕ → Heap → Result (Heap × ObjFunction)
lower_function_to_chunk unit function_id heap = elim (get_elem? unit.funcs function_id) [
  | none ↦ err (message "Function id out of range.")
  | some f ↦ lower_one_function unit f heap
]

-- `lower function #i failed: …`.
abbrev pub in_function {ℓ} : {A : Type ℓ} → ℕ → Result A → Result A
in_function i (ok a) = ok a
in_function i (err undefined) = err undefined
in_function i (err e) = err (function_failed i e)

-- The loop of `lowerModuleToChunk`: the rounds left, and the index.
unfoldable pub lower_functions :
    ℕ → ℕ → ModuleIr → Heap → List ObjFunction → Result (Heap × List ObjFunction)
lower_functions zero i unit heap functions = ok (heap, functions)
lower_functions (suc rounds) i unit heap functions = do
  (next, function) ← in_function i (lower_function_to_chunk unit i heap)
  lower_functions rounds (i + 1) unit next (functions ++ function ∷ [])

-- `lowerModuleToChunk`.
unfoldable pub lower_module_to_chunk : ModuleIr → Heap → Result (Heap × List ObjFunction)
lower_module_to_chunk unit heap = lower_functions (length unit.funcs) 0 unit heap []
