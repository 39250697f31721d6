-- ===== src/Opcode/Code.antt =====
-- The instruction set (include/niki/l0_core/vm/opcode.hpp).
use niki.Prelude.{ℕ, ◌==◌, Bool, List, [], ◌∷◌, Option, get_elem?}

-- `enum class OPCODE`, its sentinels included.
pub data Opcode : Type 0 where
  calc_start binary_start arith_start int_arith_start op_iadd op_isub : Opcode
  op_imul op_idiv op_imod op_concat op_dice int_arith_end : Opcode
  float_arith_start op_fadd op_fsub op_fmul op_fdiv float_arith_end : Opcode
  arith_end cmp_start int_cmp_start op_ieq op_ine op_ilt : Opcode
  op_igt op_ile op_ige int_cmp_end float_cmp_start op_feq : Opcode
  op_fne op_flt op_fgt op_fle op_fge float_cmp_end : Opcode
  string_cmp_start op_seq op_sne string_cmp_end obj_cmp_start op_oeq : Opcode
  op_one obj_cmp_end cmp_end logic_start op_and op_or : Opcode
  logic_end bit_start op_bit_and op_bit_or op_bit_xor op_bit_shl : Opcode
  op_bit_shr bit_end binary_end unary_start op_not op_bit_not : Opcode
  op_neg op_fneg unary_end calc_end ctrl_start jmp_start : Opcode
  op_jmp op_loop op_jnz op_jz jmp_end call_start : Opcode
  op_call op_invoke op_return call_end ctrl_end data_start : Opcode
  var_start op_define_global op_define_global_w op_get_global op_get_global_w op_set_global : Opcode
  op_set_global_w op_new_instance op_get_field op_set_field var_end ds_start : Opcode
  op_new_map op_set_map op_get_map op_new_array op_push_array op_get_array : Opcode
  op_set_array op_get_property op_set_property op_method ds_end data_ctrl_start : Opcode
  op_true op_false op_nil op_load_const op_load_const_w op_move : Opcode
  op_free data_ctrl_end data_end op_count : Opcode

-- `ToInt`: the number of an opcode.
unfoldable pub to_int : Opcode → ℕ
to_int calc_start = 0
to_int binary_start = 1
to_int arith_start = 2
to_int int_arith_start = 3
to_int op_iadd = 4
to_int op_isub = 5
to_int op_imul = 6
to_int op_idiv = 7
to_int op_imod = 8
to_int op_concat = 9
to_int op_dice = 10
to_int int_arith_end = 11
to_int float_arith_start = 12
to_int op_fadd = 13
to_int op_fsub = 14
to_int op_fmul = 15
to_int op_fdiv = 16
to_int float_arith_end = 17
to_int arith_end = 18
to_int cmp_start = 19
to_int int_cmp_start = 20
to_int op_ieq = 21
to_int op_ine = 22
to_int op_ilt = 23
to_int op_igt = 24
to_int op_ile = 25
to_int op_ige = 26
to_int int_cmp_end = 27
to_int float_cmp_start = 28
to_int op_feq = 29
to_int op_fne = 30
to_int op_flt = 31
to_int op_fgt = 32
to_int op_fle = 33
to_int op_fge = 34
to_int float_cmp_end = 35
to_int string_cmp_start = 36
to_int op_seq = 37
to_int op_sne = 38
to_int string_cmp_end = 39
to_int obj_cmp_start = 40
to_int op_oeq = 41
to_int op_one = 42
to_int obj_cmp_end = 43
to_int cmp_end = 44
to_int logic_start = 45
to_int op_and = 46
to_int op_or = 47
to_int logic_end = 48
to_int bit_start = 49
to_int op_bit_and = 50
to_int op_bit_or = 51
to_int op_bit_xor = 52
to_int op_bit_shl = 53
to_int op_bit_shr = 54
to_int bit_end = 55
to_int binary_end = 56
to_int unary_start = 57
to_int op_not = 58
to_int op_bit_not = 59
to_int op_neg = 60
to_int op_fneg = 61
to_int unary_end = 62
to_int calc_end = 63
to_int ctrl_start = 64
to_int jmp_start = 65
to_int op_jmp = 66
to_int op_loop = 67
to_int op_jnz = 68
to_int op_jz = 69
to_int jmp_end = 70
to_int call_start = 71
to_int op_call = 72
to_int op_invoke = 73
to_int op_return = 74
to_int call_end = 75
to_int ctrl_end = 76
to_int data_start = 77
to_int var_start = 78
to_int op_define_global = 79
to_int op_define_global_w = 80
to_int op_get_global = 81
to_int op_get_global_w = 82
to_int op_set_global = 83
to_int op_set_global_w = 84
to_int op_new_instance = 85
to_int op_get_field = 86
to_int op_set_field = 87
to_int var_end = 88
to_int ds_start = 89
to_int op_new_map = 90
to_int op_set_map = 91
to_int op_get_map = 92
to_int op_new_array = 93
to_int op_push_array = 94
to_int op_get_array = 95
to_int op_set_array = 96
to_int op_get_property = 97
to_int op_set_property = 98
to_int op_method = 99
to_int ds_end = 100
to_int data_ctrl_start = 101
to_int op_true = 102
to_int op_false = 103
to_int op_nil = 104
to_int op_load_const = 105
to_int op_load_const_w = 106
to_int op_move = 107
to_int op_free = 108
to_int data_ctrl_end = 109
to_int data_end = 110
to_int op_count = 111

-- The opcodes in the order of their numbers.
abbrev pub opcodes : List Opcode
opcodes =
    calc_start ∷ binary_start ∷ arith_start ∷ int_arith_start ∷ op_iadd ∷ op_isub ∷ op_imul
    ∷ op_idiv ∷ op_imod ∷ op_concat ∷ op_dice ∷ int_arith_end ∷ float_arith_start ∷ op_fadd
    ∷ op_fsub ∷ op_fmul ∷ op_fdiv ∷ float_arith_end ∷ arith_end ∷ cmp_start ∷ int_cmp_start ∷ op_ieq
    ∷ op_ine ∷ op_ilt ∷ op_igt ∷ op_ile ∷ op_ige ∷ int_cmp_end ∷ float_cmp_start ∷ op_feq ∷ op_fne
    ∷ op_flt ∷ op_fgt ∷ op_fle ∷ op_fge ∷ float_cmp_end ∷ string_cmp_start ∷ op_seq ∷ op_sne
    ∷ string_cmp_end ∷ obj_cmp_start ∷ op_oeq ∷ op_one ∷ obj_cmp_end ∷ cmp_end ∷ logic_start
    ∷ op_and ∷ op_or ∷ logic_end ∷ bit_start ∷ op_bit_and ∷ op_bit_or ∷ op_bit_xor ∷ op_bit_shl
    ∷ op_bit_shr ∷ bit_end ∷ binary_end ∷ unary_start ∷ op_not ∷ op_bit_not ∷ op_neg ∷ op_fneg
    ∷ unary_end ∷ calc_end ∷ ctrl_start ∷ jmp_start ∷ op_jmp ∷ op_loop ∷ op_jnz ∷ op_jz ∷ jmp_end
    ∷ call_start ∷ op_call ∷ op_invoke ∷ op_return ∷ call_end ∷ ctrl_end ∷ data_start ∷ var_start
    ∷ op_define_global ∷ op_define_global_w ∷ op_get_global ∷ op_get_global_w ∷ op_set_global
    ∷ op_set_global_w ∷ op_new_instance ∷ op_get_field ∷ op_set_field ∷ var_end ∷ ds_start
    ∷ op_new_map ∷ op_set_map ∷ op_get_map ∷ op_new_array ∷ op_push_array ∷ op_get_array
    ∷ op_set_array ∷ op_get_property ∷ op_set_property ∷ op_method ∷ ds_end ∷ data_ctrl_start
    ∷ op_true ∷ op_false ∷ op_nil ∷ op_load_const ∷ op_load_const_w ∷ op_move ∷ op_free
    ∷ data_ctrl_end ∷ data_end ∷ op_count ∷ []

-- `static_cast<OPCODE>` of a byte: `none` where no opcode has that number.
unfoldable pub of_int : ℕ → Option Opcode
of_int byte = get_elem? opcodes byte

-- `==` on opcodes.
infix 50 ◌is◌
unfoldable pub ◌is◌ : Opcode → Opcode → Bool
unfolding to_int
a is b = to_int a == to_int b
