-- ===== src/Lower/Operands.antt =====
-- The operands of each instruction but for jumps, calls and returns (src/l0_core/vm/vm.cpp).
use Prim.Native.String.{String}
use niki.Prelude.{ℕ, ◌≡◌, Bool, false, Option}
use niki.Opcode.Code
use niki.Opcode.Code.{Opcode}
use niki.Opcode.Class.{is_ctrl_op}
use niki.Object.Value.{Value}
use niki.Vm.State.{M}
use niki.Vm.Numbers.{
  Host, int_binary, int_division, int_compare, float_binary, float_division, float_compare, dice,
  int_unary, float_negate, logic_not, logic_binary,
}
use niki.Vm.Objects
use niki.Vm.Run.{execute, load_const, move_register, write_value, narrow_operands, wide_operands}
use niki.Vm.Stays.{
  Stays, staying, read_arguments-Stays, field_count_of-Stays, release-Stays, define_global-Stays,
  get_global-Stays, set_global-Stays,
}
use niki.Vm.Reads.{Reads, reading}
use niki.Lower.Layout.{operand_bytes}

int_binary-Reads : (operation : ℕ → ℕ → Option ℕ) → Reads 3 (int_binary operation)
unfolding int_binary
int_binary-Reads operation = search reading depth 24

int_division-Reads :
    (operation : ℕ → ℕ → Option ℕ) (message : String) → Reads 3 (int_division operation message)
unfolding int_division
int_division-Reads operation message = search reading depth 24

int_compare-Reads : (test : ℕ → ℕ → Bool) → Reads 3 (int_compare test)
unfolding int_compare
int_compare-Reads test = search reading depth 24

float_binary-Reads : (operation : ℕ → ℕ → ℕ) → Reads 3 (float_binary operation)
unfolding float_binary
float_binary-Reads operation = search reading depth 24

float_division-Reads : (host : Host) → Reads 3 (float_division host)
unfolding float_division
float_division-Reads host = search reading depth 24

float_compare-Reads : (test : ℕ → ℕ → Bool) → Reads 3 (float_compare test)
unfolding float_compare
float_compare-Reads test = search reading depth 24

dice-Reads : (host : Host) → Reads 3 (dice host)
unfolding dice
dice-Reads host = search reading depth 24

int_unary-Reads :
    (operation : ℕ → Option ℕ) (message : String) → Reads 2 (int_unary operation message)
unfolding int_unary
int_unary-Reads operation message = search reading depth 24

float_negate-Reads : (host : Host) → Reads 2 (float_negate host)
unfolding float_negate
float_negate-Reads host = search reading depth 24

logic_not-Reads : Reads 2 logic_not
unfolding logic_not
logic_not-Reads = search reading depth 24

logic_binary-Reads : (operation : Bool → Bool → Bool) → Reads 3 (logic_binary operation)
unfolding logic_binary
logic_binary-Reads operation = search reading depth 24

op_new_map-Reads : Reads 2 Objects.op_new_map
unfolding Objects.op_new_map
op_new_map-Reads = search reading depth 24

op_set_map-Reads : (host : Host) → Reads 3 (Objects.op_set_map host)
unfolding Objects.op_set_map
op_set_map-Reads host = search reading depth 24

op_get_map-Reads : (host : Host) → Reads 3 (Objects.op_get_map host)
unfolding Objects.op_get_map
op_get_map-Reads host = search reading depth 24

op_new_array-Reads : Reads 2 Objects.op_new_array
unfolding Objects.op_new_array
op_new_array-Reads = search reading depth 24

op_push_array-Reads : Reads 2 Objects.op_push_array
unfolding Objects.op_push_array
op_push_array-Reads = search reading depth 24

op_get_array-Reads : Reads 3 Objects.op_get_array
unfolding Objects.op_get_array
op_get_array-Reads = search reading depth 24

op_set_array-Reads : Reads 3 Objects.op_set_array
unfolding Objects.op_set_array
op_set_array-Reads = search reading depth 24

op_concat-Reads : Reads 3 Objects.op_concat
unfolding Objects.op_concat
op_concat-Reads = search reading depth 24

string_compare-Reads :
    (host : Host) (result : Bool → Bool) (message : String)
    → Reads 3 (Objects.string_compare host result message)
unfolding Objects.string_compare
string_compare-Reads host result message = search reading depth 24

object_compare-Reads :
    (host : Host) (message : String) → Reads 3 (Objects.object_compare host message)
unfolding Objects.object_compare
object_compare-Reads host message = search reading depth 24

op_new_instance-Reads : Reads 4 Objects.op_new_instance
unfolding Objects.op_new_instance
op_new_instance-Reads = search (read_arguments-Stays, reading) depth 24

op_get_field-Reads : Reads 3 Objects.op_get_field
unfolding Objects.op_get_field
op_get_field-Reads = search (field_count_of-Stays, reading) depth 24

op_set_field-Reads : Reads 3 Objects.op_set_field
unfolding Objects.op_set_field
op_set_field-Reads = search (field_count_of-Stays, reading) depth 24

op_free-Reads : Reads 1 Objects.op_free
unfolding Objects.op_free
op_free-Reads = search (release-Stays, reading) depth 24

move_register-Reads : Reads 2 move_register
unfolding move_register
move_register-Reads = search reading depth 24

write_value-Reads : (value : Value) → Reads 1 (write_value value)
unfolding write_value
write_value-Reads value = search reading depth 24

load_const-Stays : (target index : ℕ) → Stays (load_const target index)
unfolding load_const
load_const-Stays target index = search staying depth 24

narrow_operands-Reads :
    (operation : ℕ → ℕ → M (Unit {0}))
    → ((reg index : ℕ) → Stays (operation reg index))
    → Reads 2 (narrow_operands operation)
unfolding narrow_operands
narrow_operands-Reads operation h = search (h, reading) depth 12

wide_operands-Reads :
    (operation : ℕ → ℕ → M (Unit {0}))
    → ((reg index : ℕ) → Stays (operation reg index))
    → Reads 3 (wide_operands operation)
unfolding wide_operands
wide_operands-Reads operation h = search (h, reading) depth 12

ruleset instructions = (
  reading, load_const-Stays, define_global-Stays, get_global-Stays, set_global-Stays,
  narrow_operands-Reads, wide_operands-Reads, int_binary-Reads, int_division-Reads,
  int_compare-Reads, float_binary-Reads, float_division-Reads, float_compare-Reads, dice-Reads,
  int_unary-Reads, float_negate-Reads, logic_not-Reads, logic_binary-Reads, op_new_map-Reads,
  op_set_map-Reads, op_get_map-Reads, op_new_array-Reads, op_push_array-Reads, op_get_array-Reads,
  op_set_array-Reads, op_concat-Reads, string_compare-Reads, object_compare-Reads,
  op_new_instance-Reads, op_get_field-Reads, op_set_field-Reads, op_free-Reads, move_register-Reads,
  write_value-Reads,
)

-- An instruction that is not of control flow takes `operand_bytes` bytes where it goes through.
pub execute-Reads :
    (host : Host) (op : Opcode) → is_ctrl_op op ≡ false → Reads (operand_bytes op) (execute host op)
unfolding execute operand_bytes is_ctrl_op
execute-Reads host Code.op_return h = cc
execute-Reads host Code.op_jmp h = cc
execute-Reads host Code.op_loop h = cc
execute-Reads host Code.op_jz h = cc
execute-Reads host Code.op_jnz h = cc
execute-Reads host Code.op_call h = cc
execute-Reads host _ h = search instructions depth 12
