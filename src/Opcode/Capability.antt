-- ===== src/Opcode/Capability.antt =====
-- The capability table (include/niki/l0_core/vm/opcode_capobility.hpp).
use Prim.Native.String.{String}
use niki.Prelude.{Bool, true, false, List, [], ◌∷◌, if◌then◌else◌}
use niki.Opcode.Code.{
  Opcode, ◌is◌, op_iadd, op_isub, op_imul, op_idiv, op_imod, op_concat, op_dice, op_fadd, op_fsub,
  op_fmul, op_fdiv, op_ieq, op_ine, op_ilt, op_igt, op_ile, op_ige, op_feq, op_fne, op_flt, op_fgt,
  op_fle, op_fge, op_seq, op_sne, op_oeq, op_one, op_and, op_or, op_bit_and, op_bit_or, op_bit_xor,
  op_bit_shl, op_bit_shr, op_not, op_bit_not, op_neg, op_fneg, op_jmp, op_loop, op_jnz, op_jz,
  op_call, op_invoke, op_return, op_define_global, op_define_global_w, op_get_global,
  op_get_global_w, op_set_global, op_set_global_w, op_new_instance, op_get_field, op_set_field,
  op_new_map, op_set_map, op_get_map, op_new_array, op_push_array, op_get_array, op_set_array,
  op_get_property, op_set_property, op_method, op_true, op_false, op_nil, op_load_const,
  op_load_const_w, op_move, op_free,
}

-- `enum class OpcodeCapability`.
pub data Capability : Type 0 where
  implemented lowering_blocked planned : Capability

-- `struct OpcodeInfo`.
pub record OpcodeInfo : Type 0 where
  pub opcode : Opcode
  pub name : String
  pub capability : Capability

abbrev pub info : Opcode → String → Capability → OpcodeInfo
info opcode name capability = record { opcode = opcode; name = name; capability = capability }

-- `kOpcodeInfos`.
abbrev pub opcode_infos : List OpcodeInfo
opcode_infos =
    info op_iadd "OP_IADD" implemented
    ∷ info op_isub "OP_ISUB" implemented
    ∷ info op_imul "OP_IMUL" implemented
    ∷ info op_idiv "OP_IDIV" implemented
    ∷ info op_imod "OP_IMOD" implemented
    ∷ info op_concat "OP_CONCAT" implemented
    ∷ info op_dice "OP_DICE" implemented
    ∷ info op_fadd "OP_FADD" implemented
    ∷ info op_fsub "OP_FSUB" implemented
    ∷ info op_fmul "OP_FMUL" implemented
    ∷ info op_fdiv "OP_FDIV" implemented
    ∷ info op_ieq "OP_IEQ" implemented
    ∷ info op_ine "OP_INE" implemented
    ∷ info op_ilt "OP_ILT" implemented
    ∷ info op_igt "OP_IGT" implemented
    ∷ info op_ile "OP_ILE" implemented
    ∷ info op_ige "OP_IGE" implemented
    ∷ info op_feq "OP_FEQ" implemented
    ∷ info op_fne "OP_FNE" implemented
    ∷ info op_flt "OP_FLT" implemented
    ∷ info op_fgt "OP_FGT" implemented
    ∷ info op_fle "OP_FLE" implemented
    ∷ info op_fge "OP_FGE" implemented
    ∷ info op_seq "OP_SEQ" implemented
    ∷ info op_sne "OP_SNE" implemented
    ∷ info op_oeq "OP_OEQ" implemented
    ∷ info op_one "OP_ONE" implemented
    ∷ info op_and "OP_AND" implemented
    ∷ info op_or "OP_OR" implemented
    ∷ info op_bit_and "OP_BIT_AND" implemented
    ∷ info op_bit_or "OP_BIT_OR" implemented
    ∷ info op_bit_xor "OP_BIT_XOR" implemented
    ∷ info op_bit_shl "OP_BIT_SHL" implemented
    ∷ info op_bit_shr "OP_BIT_SHR" implemented
    ∷ info op_not "OP_NOT" implemented
    ∷ info op_bit_not "OP_BIT_NOT" implemented
    ∷ info op_neg "OP_NEG" implemented
    ∷ info op_fneg "OP_FNEG" implemented
    ∷ info op_jmp "OP_JMP" implemented
    ∷ info op_loop "OP_LOOP" implemented
    ∷ info op_jnz "OP_JNZ" implemented
    ∷ info op_jz "OP_JZ" implemented
    ∷ info op_call "OP_CALL" implemented
    ∷ info op_invoke "OP_INVOKE" lowering_blocked
    ∷ info op_return "OP_RETURN" implemented
    ∷ info op_define_global "OP_DEFINE_GLOBAL" implemented
    ∷ info op_define_global_w "OP_DEFINE_GLOBAL_W" implemented
    ∷ info op_get_global "OP_GET_GLOBAL" implemented
    ∷ info op_get_global_w "OP_GET_GLOBAL_W" implemented
    ∷ info op_set_global "OP_SET_GLOBAL" implemented
    ∷ info op_set_global_w "OP_SET_GLOBAL_W" implemented
    ∷ info op_new_instance "OP_NEW_INSTANCE" implemented
    ∷ info op_get_field "OP_GET_FIELD" implemented
    ∷ info op_set_field "OP_SET_FIELD" implemented
    ∷ info op_new_map "OP_NEW_MAP" implemented
    ∷ info op_set_map "OP_SET_MAP" implemented
    ∷ info op_get_map "OP_GET_MAP" implemented
    ∷ info op_new_array "OP_NEW_ARRAY" implemented
    ∷ info op_push_array "OP_PUSH_ARRAY" implemented
    ∷ info op_get_array "OP_GET_ARRAY" implemented
    ∷ info op_set_array "OP_SET_ARRAY" implemented
    ∷ info op_get_property "OP_GET_PROPERTY" lowering_blocked
    ∷ info op_set_property "OP_SET_PROPERTY" lowering_blocked
    ∷ info op_method "OP_METHOD" lowering_blocked
    ∷ info op_true "OP_TRUE" implemented
    ∷ info op_false "OP_FALSE" implemented
    ∷ info op_nil "OP_NIL" implemented
    ∷ info op_load_const "OP_LOAD_CONST" implemented
    ∷ info op_load_const_w "OP_LOAD_CONST_W" implemented
    ∷ info op_move "OP_MOVE" implemented
    ∷ info op_free "OP_FREE" implemented
    ∷ []

-- `capabilityOf`: the first row with the opcode.
unfoldable pub capability_in : List OpcodeInfo → Opcode → Capability
unfolding ◌is◌
capability_in [] op = planned
capability_in (row ∷ rows) op = if row.opcode is op then row.capability else capability_in rows op

unfoldable pub capability_of : Opcode → Capability
unfolding capability_in
capability_of op = capability_in opcode_infos op

-- `nameOf`.
unfoldable pub name_in : List OpcodeInfo → Opcode → String
unfolding ◌is◌
name_in [] op = "OP_UNKNOWN"
name_in (row ∷ rows) op = if row.opcode is op then row.name else name_in rows op

unfoldable pub name_of : Opcode → String
unfolding name_in
name_of op = name_in opcode_infos op

abbrev is_implemented : Capability → Bool
is_implemented implemented = true
is_implemented _ = false

-- `isRunnable`.
unfoldable pub is_runnable : Opcode → Bool
unfolding capability_of
is_runnable op = is_implemented (capability_of op)
