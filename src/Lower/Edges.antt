-- ===== src/Lower/Edges.antt =====
-- The jumps of the intermediate representation, and the patches that `lowerOneFunction` records for them
-- (src/l0_core/ir/lower_to_chunk.cpp).
use Prim.Native.String.{String}
use niki.Prelude.{
  ℕ, zero, suc, ◌+◌, ◌-◌, ◌%◌, ◌^◌, ◌≡◌, refl, sym, ap, ◌∙◌, List, [], ◌∷◌, ◌++◌, Option, none,
  some, ◌==◌, get_elem?, get_or, map, if_both,
}
use mathlib.Core.List.{append_assoc, append-nil, map-append}
use niki.Opcode.Code.{Opcode, op_jmp, op_jnz}
use niki.Linker.Link.{Chunk}
use niki.Ir.Kinds.{InstKind, ValueKind, vreg, block_id}
use niki.Ir.Module.{InstTable, Span, BlockRecord, ModuleIr}
use niki.Ir.Table.{Inst}
use niki.Object.Value.{Value}
use niki.Lower.Writer.{message, Result, ok, err, PendingJumpPatch, Lowering, emit, require_all}
use niki.Lower.Inst.{
  with_chunk, emit_on, emit_jump, lower_binary, lower_constant, lower_global, lower_load_global,
  lower_store_global, lower_call, lower_jump, lower_branch, move_result, lower_return, dst, first,
  map_binary_opcode, lower_immediate_to_value,
}
use niki.Lower.Function.{lower_kind}
use niki.Lower.Emit.{Ensures, Ensures-bind, Ensures-option}

-- The opcode of a jump and the id of the block that it leads to.
abbrev pub Edge : Type 0
Edge = Opcode × ℕ

-- The jumps of an instruction: of `Jump` to its first operand, of `Branch` to the second one where the
-- condition holds and else to the third one.
abbrev pub edges_of : InstKind → ℕ → ℕ → ℕ → List Edge
edges_of InstKind.jump a b c = (op_jmp, a) ∷ []
edges_of InstKind.branch a b c = (op_jnz, b) ∷ (op_jmp, c) ∷ []
edges_of _ a b c = []

-- The jumps of the instruction at an index of the table.
abbrev pub edges_at : InstTable → ℕ → List Edge
edges_at t i = elim (get_elem? t.kind i) [
  | none ↦ []
  | some k ↦ edges_of k (get_or t.a_u32 i 0) (get_or t.b_u32 i 0) (get_or t.c_u32 i 0)
]

abbrev pub edges_of_insts : ℕ → ℕ → InstTable → List Edge
edges_of_insts zero i t = []
edges_of_insts (suc rounds) i t = edges_at t i ++ edges_of_insts rounds (i + 1) t

abbrev pub edges_of_block : ModuleIr → BlockRecord → List Edge
edges_of_block unit b =
    edges_of_insts ((b.inst_span.begin + b.inst_span.count) % 2 ^ 32 - b.inst_span.begin)
      b.inst_span.begin unit.insts

-- The jumps of the blocks of a span, in their order.
unfoldable pub edges_of_blocks : ℕ → ℕ → ModuleIr → Span → List Edge
edges_of_blocks zero i unit span = []
edges_of_blocks (suc rounds) i unit span =
    elim (get_elem? unit.blocks ((span.begin + i) % 2 ^ 32)) [
      | none ↦ []
      | some b ↦ edges_of_block unit b ++ edges_of_blocks rounds (i + 1) unit span
    ]

-- The ids of the blocks of a span in front of other ids, the last block first.
unfoldable pub block_ids : ℕ → ℕ → ModuleIr → Span → List ℕ → List ℕ
block_ids zero i unit span ids = ids
block_ids (suc rounds) i unit span ids = elim (get_elem? unit.blocks ((span.begin + i) % 2 ^ 32)) [
  | none ↦ ids
  | some b ↦ block_ids rounds (i + 1) unit span (b.block_id ∷ ids)
]

abbrev pub edge : PendingJumpPatch → Edge
edge p = (p.original_opcode, p.target_block_id)

abbrev pub patched_edges : Lowering → List Edge
patched_edges st = map edge st.pending_patches

abbrev pub entered_ids : Lowering → List ℕ
entered_ids st = map (λ e. e.0) st.block_entry_code_index

-- The jumps `es` were recorded behind those of `st`, and no block was entered.
pub record Adds (es : List Edge) (st next : Lowering) : Type 0 where
  pub edges : patched_edges next ≡ patched_edges st ++ es
  pub ids : entered_ids next ≡ entered_ids st

Adds-none :
    (st next : Lowering)
    → next.pending_patches ≡ st.pending_patches
    → next.block_entry_code_index ≡ st.block_entry_code_index
    → Adds [] st next
Adds-none st next p e = record {
  edges = ap (map edge) p ∙ sym (append-nil (patched_edges st));
  ids = ap (map (λ e. e.0)) e;
}

pub Adds-trans :
    (xs ys : List Edge) (st mid next : Lowering)
    → Adds xs st mid
    → Adds ys mid next
    → Adds (xs ++ ys) st next
Adds-trans xs ys st mid next p q = record {
  edges = q.edges ∙ ap (λ l. l ++ ys) p.edges ∙ append_assoc (patched_edges st) xs ys;
  ids = q.ids ∙ p.ids;
}

with_chunk-Adds :
    (st next : Lowering) (m : Result (Chunk Value))
    → next.pending_patches ≡ st.pending_patches
    → next.block_entry_code_index ≡ st.block_entry_code_index
    → Ensures (Adds [] st) (with_chunk next m)
with_chunk-Adds st next (ok chunk) p e = Adds-none st (record next { chunk = chunk }) p e
with_chunk-Adds st next (err f) p e = tt

emit_on-Adds :
    (op : Opcode) (text : String) (regs : List (Option ℕ)) (rest : List ℕ) (r : Inst)
    (st : Lowering)
    → Ensures (Adds [] st) (emit_on op text regs rest r st)
unfolding emit_on
emit_on-Adds op text regs rest r st =
    Ensures-option (Adds [] st) (require_all regs) (message text) _
      λ operands _. with_chunk-Adds st st _ refl refl

any : {A : Type 0} (m : Result A) → Ensures (λ _. Unit {0}) m
any (ok a) = tt
any (err e) = tt

emit_jump-Adds :
    (op : Opcode) (operands : List ℕ) (target : ℕ) (r : Inst) (st : Lowering)
    → Ensures (Adds ((op, target) ∷ []) st) (emit_jump op operands target r st)
unfolding emit_jump
emit_jump-Adds op operands target r st =
    Ensures-bind (λ _. Unit {0}) (Adds ((op, target) ∷ []) st)
      (emit op operands r.src_line r.src_col st.chunk) _
      (any (emit op operands r.src_line r.src_col st.chunk))
      λ started _. record { edges = map-append edge st.pending_patches _; ids = refl }

lower_binary-Adds : (r : Inst) (st : Lowering) → Ensures (Adds [] st) (lower_binary r st)
unfolding lower_binary
lower_binary-Adds r st =
    Ensures-bind (λ _. Unit {0}) (Adds [] st) (map_binary_opcode r.kind) _
      (any (map_binary_opcode r.kind)) λ op _. emit_on-Adds op _ _ [] r st

lower_constant-Adds :
    (unit : ModuleIr) (r : Inst) (st : Lowering) → Ensures (Adds [] st) (lower_constant unit r st)
unfolding lower_constant
lower_constant-Adds unit r st =
    Ensures-option (Adds [] st) (dst r) (message "Constant expects dst VReg <= 255.") _ λ reg _.
      Ensures-bind (λ _. Unit {0}) (Adds [] st)
        (lower_immediate_to_value r.a_kind r.a_u32 r.a_i64 r.a_u64 unit st.heap) _
        (any (lower_immediate_to_value r.a_kind r.a_u32 r.a_i64 r.a_u64 unit st.heap))
        λ (heap, value) _. with_chunk-Adds st (record st { heap = heap }) _ refl refl

lower_global-Adds :
    (narrow wide : Opcode) (reg : ℕ) (name : Result ℕ) (r : Inst) (st : Lowering)
    → Ensures (Adds [] st) (lower_global narrow wide reg name r st)
unfolding lower_global
lower_global-Adds narrow wide reg (ok sid) r st = with_chunk-Adds st st _ refl refl
lower_global-Adds narrow wide reg (err e) r st = tt

lower_load_global-Adds : (r : Inst) (st : Lowering) → Ensures (Adds [] st) (lower_load_global r st)
unfolding lower_load_global
lower_load_global-Adds r st =
    Ensures-option (Adds [] st) (dst r) (message "LoadGlobal expects dst VReg <= 255.") _
      λ reg _. lower_global-Adds _ _ reg _ r st

lower_store_global-Adds :
    (r : Inst) (st : Lowering) → Ensures (Adds [] st) (lower_store_global r st)
unfolding lower_store_global
lower_store_global-Adds r st =
    Ensures-option (Adds [] st) (first r) (message "StoreGlobal expects value VReg <= 255.") _
      λ reg _. lower_global-Adds _ _ reg _ r st

lower_call-Adds : (r : Inst) (st : Lowering) → Ensures (Adds [] st) (lower_call r st)
unfolding lower_call
lower_call-Adds r st =
    Ensures-option (Adds [] st) (dst r) (message "Call expects dst VReg <= 255.") _ λ out _.
      Ensures-option (Adds [] st) (first r) (message "Call currently expects callee as VReg.") _
        λ callee _. emit_on-Adds _ _ _ _ r st

lower_jump-Adds :
    (k : ValueKind) (r : Inst) (st : Lowering)
    → Ensures (Adds ((op_jmp, r.a_u32) ∷ []) st) (lower_jump k r st)
unfolding lower_jump
lower_jump-Adds block_id r st = emit_jump-Adds op_jmp [] r.a_u32 r st
lower_jump-Adds _ r st = tt

pub Ensures-imp :
    {A : Type 0} (P Q : A → Type 0) (m : Result A)
    → ((a : A) → P a → Q a)
    → Ensures P m
    → Ensures Q m
Ensures-imp P Q (ok a) f h = f a h
Ensures-imp P Q (err e) f h = tt

lower_branch-Adds :
    (a b c : ValueKind) (r : Inst) (st : Lowering)
    → Ensures (Adds ((op_jnz, r.b_u32) ∷ (op_jmp, r.c_u32) ∷ []) st) (lower_branch a b c r st)
unfolding lower_branch
lower_branch-Adds vreg block_id block_id r st =
    let both = (op_jnz, r.b_u32) ∷ (op_jmp, r.c_u32) ∷ [] in
    Ensures-option (Adds both st) (first r)
      (message "Branch condition register out of 8-bit range.") _
      λ reg _.
        Ensures-bind (Adds ((op_jnz, r.b_u32) ∷ []) st) (Adds both st)
          (emit_jump op_jnz (reg ∷ []) r.b_u32 r st) _
          (emit_jump-Adds op_jnz (reg ∷ []) r.b_u32 r st)
          λ taken h.
            Ensures-imp (Adds ((op_jmp, r.c_u32) ∷ []) taken) (Adds both st)
              (emit_jump op_jmp [] r.c_u32 r taken) (λ next k. Adds-trans _ _ st taken next h k)
              (emit_jump-Adds op_jmp [] r.c_u32 r taken)
lower_branch-Adds _ _ _ r st = tt

move_result-Adds :
    (k : ValueKind) (r : Inst) (st : Lowering) → Ensures (Adds [] st) (move_result k r st)
unfolding move_result
move_result-Adds vreg r st =
    if_both (Ensures (Adds [] st)) (r.a_u32 == 0) (Adds-none st st refl refl) (
      Ensures-option (Adds [] st) (first r) (message "Return register out of 8-bit range.") _
        λ reg _. with_chunk-Adds st st _ refl refl)
move_result-Adds _ r st = Adds-none st st refl refl

lower_return-Adds : (r : Inst) (st : Lowering) → Ensures (Adds [] st) (lower_return r st)
unfolding lower_return
lower_return-Adds r st =
    Ensures-bind (Adds [] st) (Adds [] st) (move_result r.a_kind r st) _
      (move_result-Adds r.a_kind r st)
      λ moved h.
        Ensures-imp (Adds [] moved) (Adds [] st)
          (with_chunk moved (emit _ [] r.src_line r.src_col moved.chunk))
          (λ next k. Adds-trans [] [] st moved next h k) (with_chunk-Adds moved moved _ refl refl)

pub lower_kind-Adds :
    (k : InstKind) (unit : ModuleIr) (r : Inst) (st : Lowering)
    → Ensures (Adds (edges_of k r.a_u32 r.b_u32 r.c_u32) st) (lower_kind k unit r st)
unfolding lower_kind
lower_kind-Adds InstKind.nop unit r st = Adds-none st st refl refl
lower_kind-Adds InstKind.constant unit r st = lower_constant-Adds unit r st
lower_kind-Adds InstKind.move unit r st = emit_on-Adds _ _ _ _ r st
lower_kind-Adds InstKind.neg unit r st = emit_on-Adds _ _ _ _ r st
lower_kind-Adds InstKind.logic_not unit r st = emit_on-Adds _ _ _ _ r st
lower_kind-Adds InstKind.new_array unit r st = emit_on-Adds _ _ _ _ r st
lower_kind-Adds InstKind.push_array unit r st = emit_on-Adds _ _ _ _ r st
lower_kind-Adds InstKind.new_map unit r st = emit_on-Adds _ _ _ _ r st
lower_kind-Adds InstKind.set_map unit r st = emit_on-Adds _ _ _ _ r st
lower_kind-Adds InstKind.get_index unit r st = emit_on-Adds _ _ _ _ r st
lower_kind-Adds InstKind.set_index unit r st = emit_on-Adds _ _ _ _ r st
lower_kind-Adds InstKind.get_member unit r st = emit_on-Adds _ _ _ _ r st
lower_kind-Adds InstKind.set_member unit r st = emit_on-Adds _ _ _ _ r st
lower_kind-Adds InstKind.load_global unit r st = lower_load_global-Adds r st
lower_kind-Adds InstKind.store_global unit r st = lower_store_global-Adds r st
lower_kind-Adds InstKind.call unit r st = lower_call-Adds r st
lower_kind-Adds InstKind.jump unit r st = lower_jump-Adds r.a_kind r st
lower_kind-Adds InstKind.branch unit r st = lower_branch-Adds r.a_kind r.b_kind r.c_kind r st
lower_kind-Adds InstKind.free unit r st = emit_on-Adds _ _ _ _ r st
lower_kind-Adds InstKind.return unit r st = lower_return-Adds r st
lower_kind-Adds InstKind.phi unit r st = tt
lower_kind-Adds _ unit r st = lower_binary-Adds r st
