-- ===== src/Opcode/Laws.antt =====
-- The numbers and the classes of opcodes (include/niki/l0_core/vm/opcode.hpp).
use niki.Prelude.{◌≡◌, refl, ◌⊎◌, Bool, true, false, some, arith}
use niki.Opcode.Code.{Opcode, to_int, of_int, calc_start, op_loop}
use niki.Opcode.Class.{is_calc_op, is_ctrl_op, is_data_op}
use niki.Opcode.Capability.{is_runnable}

-- An opcode is read back from its number.
pub of_int-to_int : (op : Opcode) → of_int (to_int op) ≡ some op
unfolding of_int to_int
of_int-to_int calc_start = refl
of_int-to_int _ = refl

-- Exactly one of three tests holds.
abbrev pub ExactlyOne : Bool → Bool → Bool → Type 0
ExactlyOne a b c =
    ((a ≡ true) × (b ≡ false) × (c ≡ false))
    ⊎ ((a ≡ false) × (b ≡ true) × (c ≡ false))
    ⊎ ((a ≡ false) × (b ≡ false) × (c ≡ true))

-- An opcode that runs is a calculation, a piece of control flow or an operation on data, and only one
-- of the three.
pub runnable_class :
    (op : Opcode)
    → is_runnable op ≡ true
    → ExactlyOne (is_calc_op op) (is_ctrl_op op) (is_data_op op)
unfolding is_runnable is_calc_op is_ctrl_op is_data_op
runnable_class op_loop h = ground arith
runnable_class _ h = ground arith
