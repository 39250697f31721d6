-- ===== src/Opcode/Class.antt =====
-- The classes of instructions (include/niki/l0_core/vm/opcode.hpp).
use niki.Prelude.{leb, Bool, ◌&&◌, ◌||◌}
use niki.Opcode.Code.{
  Opcode, to_int, ◌is◌, arith_end, arith_start, binary_end, binary_start, bit_end, bit_start,
  calc_end, calc_start, call_end, call_start, cmp_end, cmp_start, ctrl_end, ctrl_start,
  data_ctrl_end, data_ctrl_start, data_end, data_start, ds_end, ds_start, float_arith_end,
  float_arith_start, float_cmp_end, float_cmp_start, int_arith_end, int_arith_start, int_cmp_end,
  int_cmp_start, jmp_end, jmp_start, logic_end, logic_start, obj_cmp_end, obj_cmp_start, op_bit_not,
  op_neg, op_not, string_cmp_end, string_cmp_start, unary_end, unary_start, var_end, var_start,
}

-- Between two sentinels, both included.
unfoldable pub between : Opcode → Opcode → Opcode → Bool
unfolding to_int
between first last op = leb (to_int first) (to_int op) && leb (to_int op) (to_int last)

-- `IsCalcOP`.
unfoldable pub is_calc_op : Opcode → Bool
unfolding between
is_calc_op op = between calc_start calc_end op

-- `IsBinaryOP`.
unfoldable is_binary_op : Opcode → Bool
unfolding between
is_binary_op op = between binary_start binary_end op

-- `IsArithOP`.
unfoldable is_arith_op : Opcode → Bool
unfolding between
is_arith_op op = between arith_start arith_end op

-- `IsIntArithOP`.
unfoldable is_int_arith_op : Opcode → Bool
unfolding between
is_int_arith_op op = between int_arith_start int_arith_end op

-- `IsFloatArithOP`.
unfoldable is_float_arith_op : Opcode → Bool
unfolding between
is_float_arith_op op = between float_arith_start float_arith_end op

-- `IsCmpOP`.
unfoldable is_cmp_op : Opcode → Bool
unfolding between
is_cmp_op op = between cmp_start cmp_end op

-- `IsIntCmpOP`.
unfoldable is_int_cmp_op : Opcode → Bool
unfolding between
is_int_cmp_op op = between int_cmp_start int_cmp_end op

-- `IsFloatCmpOP`.
unfoldable is_float_cmp_op : Opcode → Bool
unfolding between
is_float_cmp_op op = between float_cmp_start float_cmp_end op

-- `IsStringCmpOP`.
unfoldable is_string_cmp_op : Opcode → Bool
unfolding between
is_string_cmp_op op = between string_cmp_start string_cmp_end op

-- `IsObjCmpOP`.
unfoldable is_obj_cmp_op : Opcode → Bool
unfolding between
is_obj_cmp_op op = between obj_cmp_start obj_cmp_end op

-- `IsLogicOP`.
unfoldable is_logic_op : Opcode → Bool
unfolding between ◌is◌
is_logic_op op = between logic_start logic_end op || op is op_not

-- `IsBitOP`.
unfoldable is_bit_op : Opcode → Bool
unfolding between ◌is◌
is_bit_op op = between bit_start bit_end op || op is op_bit_not

-- `IsUnaryOP`.
unfoldable is_unary_op : Opcode → Bool
unfolding between
is_unary_op op = between unary_start unary_end op

-- `IsNegOP`.
unfoldable is_neg_op : Opcode → Bool
unfolding ◌is◌
is_neg_op op = op is op_neg

-- `IsCtrlOP`.
unfoldable pub is_ctrl_op : Opcode → Bool
unfolding between
is_ctrl_op op = between ctrl_start ctrl_end op

-- `IsJmpOP`.
unfoldable is_jmp_op : Opcode → Bool
unfolding between
is_jmp_op op = between jmp_start jmp_end op

-- `IsCallOP`.
unfoldable is_call_op : Opcode → Bool
unfolding between
is_call_op op = between call_start call_end op

-- `IsDataOP`.
unfoldable pub is_data_op : Opcode → Bool
unfolding between
is_data_op op = between data_start data_end op

-- `IsVarOP`.
unfoldable is_var_op : Opcode → Bool
unfolding between
is_var_op op = between var_start var_end op

-- `IsDSOP`.
unfoldable is_ds_op : Opcode → Bool
unfolding between
is_ds_op op = between ds_start ds_end op

-- `IsDataCtrlOP`.
unfoldable is_data_ctrl_op : Opcode → Bool
unfolding between
is_data_ctrl_op op = between data_ctrl_start data_ctrl_end op
