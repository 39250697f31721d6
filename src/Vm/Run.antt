-- ===== src/Vm/Run.antt =====
-- The loop of `VM::run`, `executeChunk` and `executeFunction` (src/l0_core/vm/vm.cpp).
use niki.Prelude.{ℕ, zero, suc, true, false, not, ◌&&◌, ◌||◌, [], ◌∷◌, ◌==◌, if◌then◌else◌}
use niki.Linker.Link.{Chunk}
use niki.Opcode.Code
use niki.Opcode.Code.{Opcode, of_int}
use niki.Object.Value.{Value, nil, bool, ObjFunction}
use niki.Vm.Bits
use niki.Vm.Int64
use niki.Vm.State.{
  Vm, M, ok, finished, runtime_error, undefined, ◌>>=◌, fail, or_fail, read_byte, read_short,
  read_constant, set_register,
}
use niki.Vm.Numbers.{
  Host, int_binary, int_division, int_compare, float_binary, float_division, float_compare, dice,
  int_unary, float_negate, is_false, is_true, logic_not, logic_binary,
}
use niki.Vm.Objects
use niki.Vm.Objects.{string_compare, object_compare}
use niki.Vm.Control
use niki.Vm.Control.{conditional_jump, define_global, get_global, set_global}

-- `OP_LOAD_CONST` and `OP_LOAD_CONST_W` behind their operands.
unfoldable pub load_const : ℕ → ℕ → M (Unit {0})
load_const target index = read_constant index >>= set_register target

-- `OP_MOVE`.
unfoldable pub move_register : M (Unit {0})
move_register = do (target, value) ← niki.Vm.Numbers.read_operand; set_register target value

-- `OP_TRUE`, `OP_FALSE`, `OP_NIL`.
unfoldable pub write_value : Value → M (Unit {0})
write_value value = do target ← read_byte; set_register target value

-- The operands of an instruction on a register and a constant.
unfoldable pub narrow_operands : (ℕ → ℕ → M (Unit {0})) → M (Unit {0})
narrow_operands operation = do reg ← read_byte; index ← read_byte; operation reg index

unfoldable pub wide_operands : (ℕ → ℕ → M (Unit {0})) → M (Unit {0})
wide_operands operation = do reg ← read_byte; index ← read_short; operation reg index

-- The `switch` of `VM::run`.
unfoldable pub execute : Host → Opcode → M (Unit {0})
execute host Code.op_load_const = narrow_operands load_const
execute host Code.op_load_const_w = wide_operands load_const
execute host Code.op_move = move_register
execute host Code.op_iadd = int_binary Int64.add
execute host Code.op_isub = int_binary Int64.sub
execute host Code.op_imul = int_binary Int64.mul
execute host Code.op_idiv = int_division Int64.div "Division by zero."
execute host Code.op_imod = int_division Int64.rem "Modulo by zero."
execute host Code.op_dice = dice host
execute host Code.op_fadd = float_binary host.float_add
execute host Code.op_fsub = float_binary host.float_sub
execute host Code.op_fmul = float_binary host.float_mul
execute host Code.op_fdiv = float_division host
execute host Code.op_concat = Objects.op_concat
execute host Code.op_neg = int_unary Int64.neg "Operand must be a number."
execute host Code.op_fneg = float_negate host
execute host Code.op_not = logic_not
execute host Code.op_bit_not = Bits.op_bit_not
execute host Code.op_bit_and = Bits.op_bit_and
execute host Code.op_bit_or = Bits.op_bit_or
execute host Code.op_bit_xor = Bits.op_bit_xor
execute host Code.op_bit_shl = Bits.op_bit_shl
execute host Code.op_bit_shr = Bits.op_bit_shr
execute host Code.op_true = write_value (bool true)
execute host Code.op_false = write_value (bool false)
execute host Code.op_nil = write_value nil
execute host Code.op_new_map = Objects.op_new_map
execute host Code.op_set_map = Objects.op_set_map host
execute host Code.op_get_map = Objects.op_get_map host
execute host Code.op_new_array = Objects.op_new_array
execute host Code.op_push_array = Objects.op_push_array
execute host Code.op_get_array = Objects.op_get_array
execute host Code.op_set_array = Objects.op_set_array
execute host Code.op_and = logic_binary ◌&&◌
execute host Code.op_or = logic_binary ◌||◌
execute host Code.op_ieq = int_compare ◌==◌
execute host Code.op_ine = int_compare (λ a b. not (a == b))
execute host Code.op_ilt = int_compare Int64.lt
execute host Code.op_igt = int_compare (λ a b. Int64.lt b a)
execute host Code.op_ile = int_compare (λ a b. not (Int64.lt b a))
execute host Code.op_ige = int_compare (λ a b. not (Int64.lt a b))
execute host Code.op_feq = float_compare host.float_eq
execute host Code.op_fne = float_compare (λ a b. not (host.float_eq a b))
execute host Code.op_flt = float_compare host.float_lt
execute host Code.op_fgt = float_compare (λ a b. host.float_lt b a)
execute host Code.op_fle = float_compare host.float_le
execute host Code.op_fge = float_compare (λ a b. host.float_le b a)
execute host Code.op_return = Control.op_return
execute host Code.op_jmp = Control.op_jmp
execute host Code.op_loop = Control.op_loop
execute host Code.op_jz = conditional_jump is_false
execute host Code.op_jnz = conditional_jump is_true
execute host Code.op_define_global = read_byte >>= define_global
execute host Code.op_define_global_w = read_short >>= define_global
execute host Code.op_get_global = narrow_operands get_global
execute host Code.op_get_global_w = wide_operands get_global
execute host Code.op_set_global = narrow_operands set_global
execute host Code.op_set_global_w = wide_operands set_global
execute host Code.op_new_instance = Objects.op_new_instance
execute host Code.op_get_field = Objects.op_get_field
execute host Code.op_set_field = Objects.op_set_field
execute host Code.op_call = Control.op_call
execute host Code.op_free = Objects.op_free
execute host Code.op_seq = string_compare host (λ b. b) "OP_SEQ expects string operands."
execute host Code.op_sne = string_compare host not "OP_SNE expects string operands."
execute host Code.op_oeq = object_compare host "OP_ONQ expects string operands."
execute host Code.op_one = object_compare host "OP_ONE expects string operands."
execute host Code.op_invoke = fail "Opcode not implemented yet."
execute host Code.op_get_property = fail "Opcode not implemented yet."
execute host Code.op_set_property = fail "Opcode not implemented yet."
execute host Code.op_method = fail "Opcode not implemented yet."
execute host _ = fail "Unknown opcode."

-- A round of the loop: an instruction.
unfoldable pub step : Host → M (Unit {0})
step host = do byte ← read_byte; op ← or_fail (of_int byte) "Unknown opcode."; execute host op

-- `VM::run`, for as many rounds as there is fuel: with none left it is still running.
unfoldable pub run : ℕ → Host → M (Unit {0})
run zero host vm = ok tt vm
run (suc fuel) host vm = elim (step host vm) [
  | ok _ next ↦ run fuel host next
  | finished value next ↦ finished value next
  | runtime_error message ↦ runtime_error message
  | undefined ↦ undefined
]

-- `executeFunction`: code that is empty gives nil.
unfoldable pub execute_function : ℕ → Host → ObjFunction → M (Unit {0})
execute_function fuel host f vm =
    let ready : Vm = record vm {
      current_string_pool = f.chunk.string_pool;
      current_chunk_module_id = f.chunk.module_id;
    } in
    elim f.chunk.code [
      | [] ↦ finished nil ready
      | byte ∷ bytes ↦ run fuel host (record ready {
        frame = record { function = f; ip = 0; base_register = 0; out_register = 0 };
        callers = [];
      })
    ]

-- The function that `executeChunk` makes of a chunk.
abbrev pub script_function : Chunk Value → ObjFunction
script_function chunk = record {
  name_id = 0;
  arity = 0;
  max_registers = if chunk.max_register_slots == 0 then 256 else chunk.max_register_slots;
  chunk = chunk;
}

-- `executeChunk`.
unfoldable pub execute_chunk : ℕ → Host → Chunk Value → M (Unit {0})
unfolding execute_function
execute_chunk fuel host chunk = execute_function fuel host (script_function chunk)
