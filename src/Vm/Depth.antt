-- ===== src/Vm/Depth.antt =====
-- The loop of the virtual machine keeps the limits of its stacks (src/l0_core/vm/vm.cpp).
use mathlib.Core.Path.{subst}
use niki.Prelude.{ℕ, zero, suc, ◌≡◌}
use niki.Opcode.Code
use niki.Opcode.Code.{Opcode, of_int}
use niki.Vm.State.{Outcome, Vm, ok, finished, runtime_error, undefined}
use niki.Vm.Numbers.{Host}
use niki.Vm.Run.{execute, step, run}
use niki.Vm.Safe.{IsSafe, Leaves, Keeps, keeping}
use niki.Vm.Limits.{
  int_binary-Keeps, int_division-Keeps, int_compare-Keeps, float_binary-Keeps, float_division-Keeps,
  float_compare-Keeps, dice-Keeps, int_unary-Keeps, float_negate-Keeps, logic_not-Keeps,
  logic_binary-Keeps, op_new_map-Keeps, op_set_map-Keeps, op_get_map-Keeps, op_new_array-Keeps,
  op_push_array-Keeps, op_get_array-Keeps, op_set_array-Keeps, op_concat-Keeps,
  string_compare-Keeps, object_compare-Keeps, op_new_instance-Keeps, op_get_field-Keeps,
  op_set_field-Keeps, op_free-Keeps, op_jmp-Keeps, op_loop-Keeps, conditional_jump-Keeps,
  define_global-Keeps, get_global-Keeps, set_global-Keeps, op_call-Keeps, op_return-Keeps,
  load_const-Keeps, move_register-Keeps, write_value-Keeps, narrow_operands-Keeps,
  wide_operands-Keeps,
}

ruleset instructions = (
  keeping, int_binary-Keeps, int_division-Keeps, int_compare-Keeps, float_binary-Keeps,
  float_division-Keeps, float_compare-Keeps, dice-Keeps, int_unary-Keeps, float_negate-Keeps,
  logic_not-Keeps, logic_binary-Keeps, op_new_map-Keeps, op_set_map-Keeps, op_get_map-Keeps,
  op_new_array-Keeps, op_push_array-Keeps, op_get_array-Keeps, op_set_array-Keeps, op_concat-Keeps,
  string_compare-Keeps, object_compare-Keeps, op_new_instance-Keeps, op_get_field-Keeps,
  op_set_field-Keeps, op_free-Keeps, op_jmp-Keeps, op_loop-Keeps, conditional_jump-Keeps,
  define_global-Keeps, get_global-Keeps, set_global-Keeps, op_call-Keeps, op_return-Keeps,
  load_const-Keeps, move_register-Keeps, write_value-Keeps, narrow_operands-Keeps,
  wide_operands-Keeps,
)

execute-Keeps : (host : Host) (op : Opcode) → Keeps (execute host op)
unfolding execute
execute-Keeps host Code.op_iadd = search instructions depth 4
execute-Keeps host _ = search instructions depth 4

step-Keeps : (host : Host) → Keeps (step host)
unfolding step
step-Keeps host = search (keeping, execute-Keeps) depth 6

going :
    (o : Outcome (Unit {0})) (more : Vm → Outcome (Unit {0}))
    → ((next : Vm) → IsSafe next → Leaves (more next))
    → Leaves o
    → Leaves (elim o as (λ _. Outcome (Unit {0})) [
      | ok _ next ↦ more next
      | finished value next ↦ finished value next
      | runtime_error message ↦ runtime_error message
      | undefined ↦ undefined
    ])
going (ok _ next) more k h = k next h
going (finished value next) more k h = h
going (runtime_error message) more k h = tt
going undefined more k h = tt

run-Leaves : (fuel : ℕ) (host : Host) (vm : Vm) → IsSafe vm → Leaves (run fuel host vm)
unfolding run
run-Leaves zero host vm safe = safe
run-Leaves (suc fuel) host vm safe =
    going (step host vm) (λ next. run fuel host next) (run-Leaves fuel host)
      ((step-Keeps host).keeps vm safe)

-- Whatever state `VM::run` reaches from a state within the limits is within the limits: the stack has
-- its 8192 slots, there are at most 256 frames, and the register window of every frame that was called
-- lies inside the stack.
pub run-IsSafe :
    (fuel : ℕ) (host : Host) (vm next : Vm)
    → IsSafe vm
    → run fuel host vm ≡ ok tt next
    → IsSafe next
run-IsSafe fuel host vm next safe e = subst Leaves e (run-Leaves fuel host vm safe)
