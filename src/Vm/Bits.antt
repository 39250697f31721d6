-- ===== src/Vm/Bits.antt =====
-- The operations on bits of `VM::run` (src/l0_core/vm/vm.cpp).
use niki.Vm.State.{M}
use niki.Vm.Int64.{and_bits, or_bits, xor_bits, not_bits, shift_left, shift_right}
use niki.Vm.Numbers.{int_binary, int_unary}

-- `OP_BIT_NOT`.
abbrev pub op_bit_not : M (Unit {0})
op_bit_not = int_unary not_bits "Operand must be an integer."

-- `OP_BIT_AND`.
abbrev pub op_bit_and : M (Unit {0})
op_bit_and = int_binary and_bits

-- `OP_BIT_OR`.
abbrev pub op_bit_or : M (Unit {0})
op_bit_or = int_binary or_bits

-- `OP_BIT_XOR`.
abbrev pub op_bit_xor : M (Unit {0})
op_bit_xor = int_binary xor_bits

-- `OP_BIT_SHL`.
abbrev pub op_bit_shl : M (Unit {0})
op_bit_shl = int_binary shift_left

-- `OP_BIT_SHR`.
abbrev pub op_bit_shr : M (Unit {0})
op_bit_shr = int_binary shift_right
