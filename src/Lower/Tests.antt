-- ===== src/Lower/Tests.antt =====
-- Runs of the lowering, and its theorems at them.
use niki.Prelude.{
  ℕ, ◌+◌, ◌≡◌, ◌≢◌, ◌⊎◌, refl, true, [], ◌∷◌, some, arith, length, get_elem?, All, ◌==◌, ltb, leb,
}
use niki.Ir.Kinds.{invalid, vreg, return}
use niki.Ir.Module.{FuncRecord, InstTable, ModuleIr}
use niki.Linker.Link.{Chunk}
use niki.Pool.Mapped.{lookup}
use niki.Opcode.Code.{Opcode, to_int, of_int, op_jnz}
use niki.Opcode.Class.{is_ctrl_op}
use niki.Opcode.Capability.{is_runnable}
use niki.Object.Value.{Value, ObjFunction, nil}
use niki.Vm.Fetch.{jump_from}
use niki.Vm.State.{Vm, Outcome, ◌>>=◌, read_byte, or_fail, get_register, pure, set_register}
use niki.Vm.Numbers.{Host, read_operand}
use niki.Vm.Run.{execute, step, move_register}
use niki.Lower.Writer.{
  ok, err, message, function_failed, PendingJumpPatch, require_vreg, emit_move, write_bytes,
  write_op,
}
use niki.Lower.Inst.{lower_return, move_result}
use niki.Bytecode.Stream.{write_byte, patch_u16, try_read_byte}
use niki.Lower.Function.{
  lower_one_function, lower_blocks, lower_module_to_chunk, apply_patch, lower_functions,
  lower_function_to_chunk, lower_block, lower_insts, snapshot, lower_kind, apply_patches,
  write_patch, store_byte, backward_opcode,
}
use niki.Lower.Layout.{operand_bytes}
use niki.Lower.Correct.{
  IsExecutable, lower_one_function-IsExecutable, lower_module_to_chunk-IsExecutable,
}
use niki.Lower.Failure.{FailsAt, lower_module_to_chunk-FailsAt, backward_branch}
use niki.Lower.Fetches.{step-IsExecutable}

-- One instruction: a return of register 1, from line 7 and column 3.
abbrev insts : InstTable
insts = record {
  kind = return ∷ [];
  dst_kind = invalid ∷ [];
  dst_u32 = 0 ∷ [];
  dst_i64 = 0 ∷ [];
  dst_u64 = 0 ∷ [];
  a_kind = vreg ∷ [];
  a_u32 = 1 ∷ [];
  a_i64 = 0 ∷ [];
  a_u64 = 0 ∷ [];
  b_kind = invalid ∷ [];
  b_u32 = 0 ∷ [];
  b_i64 = 0 ∷ [];
  b_u64 = 0 ∷ [];
  c_kind = invalid ∷ [];
  c_u32 = 0 ∷ [];
  c_i64 = 0 ∷ [];
  c_u64 = 0 ∷ [];
  aux = 0 ∷ [];
  src_line = 7 ∷ [];
  src_col = 3 ∷ [];
}

abbrev leaves : FuncRecord
leaves = record {
  func_id = 0;
  func_name_sid = 0;
  src_sid = 0;
  entry_block = 0;
  param_count = 0;
  next_vreg = 2;
  arity = 0;
  block_span = record { begin = 0; count = 1 };
}

abbrev unit_of : FuncRecord → ModuleIr
unit_of f = record {
  module_id = 0;
  module_name = [];
  module_src_path = [];
  string_pool = (1 ∷ []) ∷ [];
  init_func = 0;
  funcs = f ∷ [];
  blocks =
      (record { block_id = 0; debug_name_sid = 0; inst_span = record { begin = 0; count = 1 } })
      ∷ [];
  insts = insts;
  syms = [];
  kits = [];
  kits_items = [];
  components = [];
}

abbrev code : Chunk Value
code = record {
  module_id = 0;
  code = 107 ∷ 0 ∷ 1 ∷ 74 ∷ [];
  constants = [];
  lines = 7 ∷ 7 ∷ 7 ∷ 7 ∷ [];
  columns = 3 ∷ 3 ∷ 3 ∷ 3 ∷ [];
  string_pool = (1 ∷ []) ∷ [];
  max_register_slots = 2;
}

abbrev lowered : ObjFunction
lowered = record { name_id = 0; arity = 0; max_registers = 2; chunk = code }

lowers : lower_one_function (unit_of leaves) leaves [] ≡ ok ([], lowered)
unfolding lower_one_function lower_blocks lower_block lower_insts snapshot lower_kind lower_return
    move_result require_vreg emit_move is_runnable apply_patches write_bytes write_op write_byte
lowers = refl

lowers_all : lower_module_to_chunk (unit_of leaves) [] ≡ ok ([], lowered ∷ [])
unfolding lower_module_to_chunk lower_functions lower_function_to_chunk lower_one_function
    lower_blocks lower_block lower_insts snapshot lower_kind lower_return move_result require_vreg
    emit_move is_runnable apply_patches write_bytes write_op write_byte
lowers_all = refl

-- The blocks of this function reach behind the table.
abbrev torn : FuncRecord
torn = record leaves { block_span = record { begin = 0; count = 2 } }

fails :
    lower_module_to_chunk (unit_of torn) []
    ≡ err (function_failed 0 (message "Function block span out of range."))
unfolding lower_module_to_chunk lower_functions lower_function_to_chunk lower_one_function
fails = refl

lower_one_function-IsExecutable_example : IsExecutable lowered
lower_one_function-IsExecutable_example =
    lower_one_function-IsExecutable (unit_of leaves) leaves [] [] lowered lowers

lower_module_to_chunk-IsExecutable_example :
    All IsExecutable (lowered ∷ []) × (length (lowered ∷ []) ≡ length (unit_of leaves).funcs)
lower_module_to_chunk-IsExecutable_example =
    lower_module_to_chunk-IsExecutable (unit_of leaves) [] [] (lowered ∷ []) lowers_all

lower_module_to_chunk-FailsAt_example :
    FailsAt
      (unit_of torn)
      []
      0
      1
      []
      (function_failed 0 (message "Function block span out of range."))
lower_module_to_chunk-FailsAt_example =
    lower_module_to_chunk-FailsAt (unit_of torn) []
      (function_failed 0 (message "Function block span out of range.")) fails

-- A conditional jump behind four other bytes, to the block at the start.
abbrev back : PendingJumpPatch
back = record {
  offset_u16_code_index = 6;
  target_block_id = 2;
  offset_base_code_index = 8;
  original_opcode = op_jnz;
  opcode_off_back = 2;
}

abbrev before : Chunk ℕ
before = record {
  module_id = 0;
  code = 107 ∷ 0 ∷ 1 ∷ 74 ∷ 68 ∷ 1 ∷ 0 ∷ 0 ∷ [];
  constants = [];
  lines = [];
  columns = [];
  string_pool = [];
  max_register_slots = 2;
}

abbrev after : Chunk ℕ
after = record before { code = 107 ∷ 0 ∷ 1 ∷ 74 ∷ 68 ∷ 1 ∷ 0 ∷ 8 ∷ [] }

patched : apply_patch ((2, 0) ∷ []) back before ≡ ok after
unfolding apply_patch lookup write_patch store_byte patch_u16 to_int backward_opcode
patched = refl

backward_branch_example :
    (get_elem? after.code 4 ≡ some (to_int op_jnz)) × (jump_from op_jnz after.code 5 ≢ some 0)
unfolding lookup
backward_branch_example =
    backward_branch 4 0 ((2, 0) ∷ []) back before after refl refl refl refl (omega arith) refl
      (omega arith) patched

-- A machine whose frame is at the start of the lowered function.
abbrev starting : Vm
starting = record {
  stack = nil ∷ nil ∷ [];
  frame = record { function = lowered; ip = 0; base_register = 0; out_register = 0 };
  callers = [];
  globals = [];
  global_objects = [];
  current_string_pool = [];
  current_chunk_module_id = 0;
  heap = [];
  drawn = 0;
}

abbrev host : Host
host = record {
  float_add = λ a b. a;
  float_sub = λ a b. a;
  float_mul = λ a b. a;
  float_div = λ a b. a;
  float_neg = λ a. a;
  float_eq = ◌==◌;
  float_lt = ltb;
  float_le = leb;
  rand = λ n. n;
}

lowered-IsExecutable : IsExecutable lowered
lowered-IsExecutable = lower_one_function-IsExecutable (unit_of leaves) leaves [] [] lowered lowers

abbrev stepped : Vm
stepped = record starting { frame = record starting.frame { ip = 3 } }

steps : step host starting ≡ Outcome.ok tt stepped
unfolding step execute ◌>>=◌ read_byte try_read_byte or_fail of_int move_register read_operand
    get_register pure set_register
steps = refl

step-IsExecutable_example :
    (op : Opcode) × (get_elem? lowered.chunk.code 0 ≡ some (to_int op))
    × (is_runnable op ≡ true)
    × ((is_ctrl_op op ≡ true)
        ⊎ ((stepped.frame ≡ record starting.frame { ip = 0 + 1 + operand_bytes op })
            × (stepped.callers ≡ starting.callers)
            × (lowered-IsExecutable.starts stepped.frame.ip ≡ true)))
step-IsExecutable_example =
    step-IsExecutable lowered host starting stepped lowered-IsExecutable refl
      lowered-IsExecutable.layout.first (omega arith) steps
