-- ===== src/Lower/Direct.antt =====
-- The cases of `lowerOneFunction` in src/l0_core/ir/lower_to_chunk.cpp that write an opcode and the
-- registers of the instruction.
use niki.Prelude.{[], ◌∷◌}
use niki.Opcode.Code.{
  op_free, op_get_array, op_get_property, op_move, op_neg, op_new_array, op_new_map, op_not,
  op_push_array, op_set_array, op_set_map, op_set_property,
}
use niki.Ir.Table.{Inst}
use niki.Lower.Writer.{Result, Lowering}
use niki.Lower.Inst.{dst, first, second, third, aux_byte, emit_on}

-- `InstKind::Move`.
abbrev pub lower_move : Inst → Lowering → Result Lowering
lower_move r st = emit_on op_move "Move expects dst/src VReg <= 255." (dst r ∷ first r ∷ []) [] r st

-- `InstKind::Neg`.
abbrev pub lower_neg : Inst → Lowering → Result Lowering
lower_neg r st = emit_on op_neg "Neg expects dst/src VReg <= 255." (dst r ∷ first r ∷ []) [] r st

-- `InstKind::LogicNot`.
abbrev pub lower_logic_not : Inst → Lowering → Result Lowering
lower_logic_not r st =
    emit_on op_not "LogicNot expects dst/src VReg <= 255." (dst r ∷ first r ∷ []) [] r st

-- `InstKind::NewArray`.
abbrev pub lower_new_array : Inst → Lowering → Result Lowering
lower_new_array r st =
    emit_on op_new_array "NewArray expects dst VReg <= 255." (dst r ∷ []) (aux_byte r ∷ []) r st

-- `InstKind::PushArray`.
abbrev pub lower_push_array : Inst → Lowering → Result Lowering
lower_push_array r st =
    emit_on op_push_array "PushArray expects array/value VReg <= 255." (first r ∷ second r ∷ []) []
      r st

-- `InstKind::NewMap`.
abbrev pub lower_new_map : Inst → Lowering → Result Lowering
lower_new_map r st =
    emit_on op_new_map "NewMap expects dst VReg <= 255." (dst r ∷ []) (aux_byte r ∷ []) r st

-- `InstKind::SetMap`.
abbrev pub lower_set_map : Inst → Lowering → Result Lowering
lower_set_map r st =
    emit_on op_set_map "SetMap expects map/key/value VReg <= 255."
      (first r ∷ second r ∷ third r ∷ []) [] r st

-- `InstKind::GetIndex`.
abbrev pub lower_get_index : Inst → Lowering → Result Lowering
lower_get_index r st =
    emit_on op_get_array "GetIndex expects dst/array/index VReg <= 255."
      (dst r ∷ first r ∷ second r ∷ []) [] r st

-- `InstKind::SetIndex`.
abbrev pub lower_set_index : Inst → Lowering → Result Lowering
lower_set_index r st =
    emit_on op_set_array "SetIndex expects array/index/value VReg <= 255."
      (first r ∷ second r ∷ third r ∷ []) [] r st

-- `InstKind::GetMember`.
abbrev pub lower_get_member : Inst → Lowering → Result Lowering
lower_get_member r st =
    emit_on op_get_property "GetMember expects dst/object/member VReg <= 255."
      (dst r ∷ first r ∷ second r ∷ []) [] r st

-- `InstKind::SetMember`.
abbrev pub lower_set_member : Inst → Lowering → Result Lowering
lower_set_member r st =
    emit_on op_set_property "SetMember expects object/member/value VReg <= 255."
      (first r ∷ second r ∷ third r ∷ []) [] r st

-- `InstKind::Free`.
abbrev pub lower_free : Inst → Lowering → Result Lowering
lower_free r st = emit_on op_free "Free expects dst VReg <= 255." (dst r ∷ []) [] r st
