-- ===== src/Ir/Verify.antt =====
-- `verifyModuleIRFlat` (src/l0_core/ir/verify.cpp). Indices are 32-bit and wrap around.
pub mod Instructions
pub mod Blocks
pub mod Functions
pub mod Wrap
use niki.Prelude.{
  ℕ, ◌+◌, ◌-◌, ◌%◌, ◌^◌, not, ◌&&◌, List, Option, none, some, ltb, leb, ◌==◌, if◌then◌else◌, length,
  get_elem?,
}
use niki.Ir.Kinds.{
  ValueKind, vreg, symbol_id, string_id, block_id, func_id, is_terminator, is_free, is_vreg,
  function_id_mismatch, function_block_span_out_of_range, entry_block_out_of_range,
  block_inst_span_out_of_range, block_empty, terminator_not_last, missing_terminator,
  vreg_out_of_range, func_ref_out_of_range, block_ref_out_of_range, symbol_ref_out_of_range,
  string_ref_out_of_range, inst_columns_misaligned,
}
use niki.Ir.Module.{FuncRecord, BlockRecord, ModuleIr}
use niki.Ir.Table.{aligned, size}
use niki.Ir.Checks.{Checks, unknown_index, add32, clean, add, both, add_if, each, with_entry}

-- `DomainVerifyAppendFn`: the hook of src/l0_core/ir/extensions.cpp, `none` where none is registered.
abbrev pub DomainChecks : Type 0
DomainChecks = Option (ModuleIr → Checks)

module _ (m : ModuleIr) (func : ℕ) (f : FuncRecord) (block : ℕ) (inst : ℕ) where
  -- One round of the loop over the operand slots.
  unfoldable pub check_operand : ValueKind → ℕ → Checks
  check_operand vreg n = add_if (leb f.next_vreg n) (add vreg_out_of_range func block inst)
  check_operand func_id n =
      add_if (leb (length m.funcs) n) (add func_ref_out_of_range func block inst)
  check_operand block_id n =
      add_if (leb f.block_span.count n) (add block_ref_out_of_range func block inst)
  check_operand symbol_id n =
      add_if (leb (length m.syms) n) (add symbol_ref_out_of_range func block inst)
  check_operand string_id n =
      add_if (leb (length m.string_pool) n) (add string_ref_out_of_range func block inst)
  check_operand _ n = clean

  -- The operand slot whose kind and payload stand at the index `i` of two columns.
  unfoldable pub check_slot : List ValueKind → List ℕ → ℕ → Checks
  check_slot kinds payloads i =
      with_entry (get_elem? kinds i) (λ k. with_entry (get_elem? payloads i) (check_operand k))

-- One round of the loop over the instructions of a block that begins at `begin` and ends at `end`.
unfoldable pub check_inst : ModuleIr → ℕ → FuncRecord → ℕ → ℕ → ℕ → ℕ → Checks
check_inst m func f block begin end i =
    let t = m.insts in
    let rel = i - begin in
    with_entry (get_elem? t.kind i) (λ kind.
      both
        (with_entry (get_elem? t.dst_kind i) (λ dst_kind.
          add_if (is_free kind && not (is_vreg dst_kind)) (add vreg_out_of_range func block rel)))
        (both
          (add_if (is_terminator kind && not (i + 1 == end))
            (add terminator_not_last func block rel))
          (both (check_slot m func f block rel t.dst_kind t.dst_u32 i) (
            both (check_slot m func f block rel t.a_kind t.a_u32 i) (
              both (check_slot m func f block rel t.b_kind t.b_u32 i)
                (check_slot m func f block rel t.c_kind t.c_u32 i))))))

-- The test of the last instruction of a block.
unfoldable pub check_tail : ModuleIr → ℕ → ℕ → ℕ → ℕ → Checks
check_tail m func block end count =
    with_entry (get_elem? m.insts.kind ((end + 2 ^ 32 - 1) % 2 ^ 32))
      (λ kind. add_if (not (is_terminator kind)) (add missing_terminator func block (count - 1)))

-- One round of the loop over the blocks, at the block record that it reads.
unfoldable pub check_block : ModuleIr → ℕ → FuncRecord → ℕ → BlockRecord → Checks
check_block m func f block b =
    let begin = b.inst_span.begin in
    let count = b.inst_span.count in
    let end = add32 begin count in
    if ltb (size m.insts) (add32 begin count)
    then add block_inst_span_out_of_range func block unknown_index
    else if count == 0
    then add block_empty func block unknown_index
    else both (each (end - begin) begin (check_inst m func f block begin end))
        (check_tail m func block end count)

-- The block of a function at the relative index `block`.
unfoldable pub check_block_at : ModuleIr → ℕ → FuncRecord → ℕ → Checks
check_block_at m func f block =
    with_entry (get_elem? m.blocks (add32 f.block_span.begin block)) (check_block m func f block)

-- One round of the loop over the functions, at the function record that it reads.
unfoldable pub check_function : ModuleIr → ℕ → FuncRecord → Checks
check_function m func f =
    both
      (add_if (not (f.func_id == func)) (add function_id_mismatch func unknown_index unknown_index))
      (if ltb (length m.blocks) (add32 f.block_span.begin f.block_span.count)
        then add function_block_span_out_of_range func unknown_index unknown_index
        else both
            (add_if (leb f.block_span.count f.entry_block)
              (add entry_block_out_of_range func unknown_index unknown_index))
            (each f.block_span.count 0 (check_block_at m func f)))

unfoldable pub check_function_at : ModuleIr → ℕ → Checks
check_function_at m func = with_entry (get_elem? m.funcs func) (check_function m func)

-- The checks of the registered hook.
unfoldable pub check_domain : DomainChecks → ModuleIr → Checks
check_domain none m = clean
check_domain (some checks) m = checks m

-- `verifyModuleIRFlat`.
unfoldable pub verify : DomainChecks → ModuleIr → Checks
verify domain m =
    if not (aligned m.insts)
    then add inst_columns_misaligned unknown_index unknown_index unknown_index
    else both (check_domain domain m) (each (length m.funcs) 0 (check_function_at m))
