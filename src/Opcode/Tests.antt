-- ===== src/Opcode/Tests.antt =====
-- The theorem on opcodes at an example.
use niki.Prelude.{◌≡◌, refl, true}
use niki.Opcode.Code.{op_jmp}
use niki.Opcode.Class.{is_calc_op, is_ctrl_op, is_data_op}
use niki.Opcode.Capability.{is_runnable}
use niki.Opcode.Laws.{ExactlyOne, runnable_class}

runs_jmp : is_runnable op_jmp ≡ true
unfolding is_runnable
runs_jmp = refl

runnable_class_example : ExactlyOne (is_calc_op op_jmp) (is_ctrl_op op_jmp) (is_data_op op_jmp)
runnable_class_example = runnable_class op_jmp runs_jmp
