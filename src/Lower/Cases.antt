-- ===== src/Lower/Cases.antt =====
-- The loops of `lowerOneFunction` over blocks and instructions add whole instructions
-- (src/l0_core/ir/lower_to_chunk.cpp).
use niki.Prelude.{ℕ, ◌≡◌, refl, inl, inr, [], ◌∷◌, some, arith, ◌==◌, if_both}
use niki.Opcode.Code.{
  Opcode, op_load_const, op_load_const_w, op_jmp, op_jnz, op_get_global, op_get_global_w,
  op_set_global, op_set_global_w,
}
use niki.Bytecode.Stream.{add_constant}
use niki.Ir.Kinds.{ValueKind, vreg, block_id, InstKind}
use niki.Ir.Module.{ModuleIr}
use niki.Ir.Table.{Inst}
use niki.Object.Value.{Value, Heap}
use niki.Lower.Writer.{
  message, Result, ok, err, ◌>>=◌, Lowering, emit_indexed, emit_load_const, emit_move,
}
use niki.Lower.Inst.{
  lower_immediate_to_value, map_binary_opcode, dst, first, second, aux_byte, emit_jump,
  lower_binary, lower_constant, lower_global, lower_load_global, lower_store_global, lower_call,
  arg_start, lower_jump, lower_branch, move_result, lower_return,
}
use niki.Lower.Layout.{operand_bytes}
use niki.Lower.Emit.{Ensures, Ensures-bind, Ensures-option, emit_lem, emit_indexed_lem}
use niki.Lower.Keeps.{IsGood, with_chunk-IsGood, emit_on-IsGood, emit_jump-IsGood}

map_binary_opcode-width :
    (k : InstKind) → Ensures (λ op. operand_bytes op ≡ 3) (map_binary_opcode k)
unfolding map_binary_opcode operand_bytes
map_binary_opcode-width InstKind.nop = tt
map_binary_opcode-width _ = ground arith

pub lower_binary-IsGood :
    (r : Inst) (st : Lowering) → IsGood st → Ensures IsGood (lower_binary r st)
unfolding lower_binary
lower_binary-IsGood r st g =
    Ensures-bind (λ op. operand_bytes op ≡ 3) IsGood (map_binary_opcode r.kind) _
      (map_binary_opcode-width r.kind)
      λ op e. emit_on-IsGood op _ (dst r ∷ first r ∷ second r ∷ []) [] r st (omega arith) g

-- Another heap, and constants that a chunk gets, leave the bytecode as it is.
with_constant-IsGood :
    (narrow wide : Opcode) (reg line column : ℕ) (value : Value) (heap : Heap) (st : Lowering)
    → operand_bytes narrow ≡ 2
    → operand_bytes wide ≡ 3
    → IsGood st
    → Ensures IsGood (
        emit_indexed narrow wide reg
          (add_constant value st.chunk).1
          line
          column
          (add_constant value st.chunk).0
        >>= λ chunk. ok (record st { heap = heap; chunk = chunk }))
unfolding add_constant
with_constant-IsGood narrow wide reg line column value heap st two three (starts, l) =
    let ready : Lowering = record st { heap = heap; chunk = (add_constant value st.chunk).0 } in
    let good : IsGood ready = (
      starts,
      record {
        layout = l.layout;
        places = record { lines = l.places.lines; columns = l.places.columns };
        entries = l.entries;
        sites = l.sites;
        ordered = l.ordered;
      },
    ) in
    with_chunk-IsGood ready _ good (
      emit_indexed_lem narrow wide reg (add_constant value st.chunk).1 line column ready.chunk two
        three)

pub lower_constant-IsGood :
    (unit : ModuleIr) (r : Inst) (st : Lowering)
    → IsGood st
    → Ensures IsGood (lower_constant unit r st)
unfolding lower_constant emit_load_const operand_bytes
lower_constant-IsGood unit r st g =
    Ensures-option IsGood (dst r) (message "Constant expects dst VReg <= 255.") _ λ reg _.
      Ensures-bind (λ _. Unit {0}) IsGood
        (lower_immediate_to_value r.a_kind r.a_u32 r.a_i64 r.a_u64 unit st.heap) _
        (any (lower_immediate_to_value r.a_kind r.a_u32 r.a_i64 r.a_u64 unit st.heap))
        λ (heap, value) _.
          with_constant-IsGood op_load_const op_load_const_w reg r.src_line r.src_col value heap st
            refl refl g
  where
    any : {A : Type 0} (m : Result A) → Ensures (λ _. Unit {0}) m
    any (ok a) = tt
    any (err e) = tt

lower_global-IsGood :
    (narrow wide : Opcode) (reg : ℕ) (name : Result ℕ) (r : Inst) (st : Lowering)
    → operand_bytes narrow ≡ 2
    → operand_bytes wide ≡ 3
    → IsGood st
    → Ensures IsGood (lower_global narrow wide reg name r st)
unfolding lower_global
lower_global-IsGood narrow wide reg (ok sid) r st two three g =
    with_constant-IsGood narrow wide reg r.src_line r.src_col (Value.int sid) st.heap st two three g
lower_global-IsGood narrow wide reg (err e) r st two three g = tt

pub lower_load_global-IsGood :
    (r : Inst) (st : Lowering) → IsGood st → Ensures IsGood (lower_load_global r st)
unfolding lower_load_global operand_bytes
lower_load_global-IsGood r st g =
    Ensures-option IsGood (dst r) (message "LoadGlobal expects dst VReg <= 255.") _
      λ reg _. lower_global-IsGood op_get_global op_get_global_w reg _ r st refl refl g

pub lower_store_global-IsGood :
    (r : Inst) (st : Lowering) → IsGood st → Ensures IsGood (lower_store_global r st)
unfolding lower_store_global operand_bytes
lower_store_global-IsGood r st g =
    Ensures-option IsGood (first r) (message "StoreGlobal expects value VReg <= 255.") _
      λ reg _. lower_global-IsGood op_set_global op_set_global_w reg _ r st refl refl g

pub lower_call-IsGood : (r : Inst) (st : Lowering) → IsGood st → Ensures IsGood (lower_call r st)
unfolding lower_call operand_bytes
lower_call-IsGood r st g =
    Ensures-option IsGood (dst r) (message "Call expects dst VReg <= 255.") _ λ out _.
      Ensures-option IsGood (first r) (message "Call currently expects callee as VReg.") _
        λ callee _.
          emit_on-IsGood _ _ (some out ∷ some callee ∷ arg_start r ∷ []) (aux_byte r ∷ []) r st
            (omega arith) g

pub lower_jump-IsGood :
    (k : ValueKind) (r : Inst) (st : Lowering) → IsGood st → Ensures IsGood (lower_jump k r st)
unfolding lower_jump operand_bytes
lower_jump-IsGood block_id r st g =
    emit_jump-IsGood op_jmp [] r.a_u32 r st (inl (refl, refl)) (omega arith) g
lower_jump-IsGood _ r st g = tt

pub lower_branch-IsGood :
    (a b c : ValueKind) (r : Inst) (st : Lowering)
    → IsGood st
    → Ensures IsGood (lower_branch a b c r st)
unfolding lower_branch operand_bytes
lower_branch-IsGood vreg block_id block_id r st g =
    Ensures-option IsGood (first r) (message "Branch condition register out of 8-bit range.") _
      λ reg _.
        Ensures-bind IsGood IsGood (emit_jump op_jnz (reg ∷ []) r.b_u32 r st) _
          (emit_jump-IsGood op_jnz (reg ∷ []) r.b_u32 r st (inr (refl, omega arith)) (omega arith)
            g)
          λ taken h. emit_jump-IsGood op_jmp [] r.c_u32 r taken (inl (refl, refl)) (omega arith) h
lower_branch-IsGood _ _ _ r st g = tt

move_result-IsGood :
    (k : ValueKind) (r : Inst) (st : Lowering) → IsGood st → Ensures IsGood (move_result k r st)
unfolding move_result emit_move operand_bytes
move_result-IsGood vreg r st g = if_both (Ensures IsGood) (r.a_u32 == 0) g (
    Ensures-option IsGood (first r) (message "Return register out of 8-bit range.") _ λ reg _.
      with_chunk-IsGood st _ g
        (emit_lem _ (0 ∷ reg ∷ []) r.src_line r.src_col st.chunk (omega arith)))
move_result-IsGood _ r st g = g

pub lower_return-IsGood :
    (r : Inst) (st : Lowering) → IsGood st → Ensures IsGood (lower_return r st)
unfolding lower_return operand_bytes
lower_return-IsGood r st g =
    Ensures-bind IsGood IsGood (move_result r.a_kind r st) _ (move_result-IsGood r.a_kind r st g)
      λ moved h.
        with_chunk-IsGood moved _ h (emit_lem _ [] r.src_line r.src_col moved.chunk (omega arith))
