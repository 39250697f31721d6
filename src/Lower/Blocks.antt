-- ===== src/Lower/Blocks.antt =====
-- The loops of `lowerOneFunction` over the blocks and their instructions
-- (src/l0_core/ir/lower_to_chunk.cpp).
use niki.Prelude.{ℕ, zero, suc, ◌+◌, ◌%◌, ◌^◌, [], ◌∷◌, arith}
use niki.Ir.Kinds.{InstKind}
use niki.Ir.Module.{Span, BlockRecord, ModuleIr}
use niki.Ir.Table.{Inst}
use niki.Lower.Writer.{Result, ok, err, Lowering}
use niki.Lower.Inst.{dst, first, second, third, aux_byte}
use niki.Lower.Function.{lower_kind, at, snapshot, lower_insts, lower_block, lower_blocks}
use niki.Lower.Layout.{operand_bytes}
use niki.Lower.Emit.{Ensures, Ensures-bind}
use niki.Lower.Keeps.{IsGood, emit_on-IsGood}
use niki.Lower.Cases.{
  lower_binary-IsGood, lower_constant-IsGood, lower_load_global-IsGood, lower_store_global-IsGood,
  lower_call-IsGood, lower_jump-IsGood, lower_branch-IsGood, lower_return-IsGood,
}

-- Every kind of instruction adds whole instructions, or is refused.
lower_kind-IsGood :
    (k : InstKind) (unit : ModuleIr) (r : Inst) (st : Lowering)
    → IsGood st
    → Ensures IsGood (lower_kind k unit r st)
unfolding lower_kind operand_bytes
lower_kind-IsGood InstKind.nop unit r st g = g
lower_kind-IsGood InstKind.constant unit r st g = lower_constant-IsGood unit r st g
lower_kind-IsGood InstKind.move unit r st g =
    emit_on-IsGood _ _ (dst r ∷ first r ∷ []) [] r st (omega arith) g
lower_kind-IsGood InstKind.neg unit r st g =
    emit_on-IsGood _ _ (dst r ∷ first r ∷ []) [] r st (omega arith) g
lower_kind-IsGood InstKind.logic_not unit r st g =
    emit_on-IsGood _ _ (dst r ∷ first r ∷ []) [] r st (omega arith) g
lower_kind-IsGood InstKind.new_array unit r st g =
    emit_on-IsGood _ _ (dst r ∷ []) (aux_byte r ∷ []) r st (omega arith) g
lower_kind-IsGood InstKind.push_array unit r st g =
    emit_on-IsGood _ _ (first r ∷ second r ∷ []) [] r st (omega arith) g
lower_kind-IsGood InstKind.new_map unit r st g =
    emit_on-IsGood _ _ (dst r ∷ []) (aux_byte r ∷ []) r st (omega arith) g
lower_kind-IsGood InstKind.set_map unit r st g =
    emit_on-IsGood _ _ (first r ∷ second r ∷ third r ∷ []) [] r st (omega arith) g
lower_kind-IsGood InstKind.get_index unit r st g =
    emit_on-IsGood _ _ (dst r ∷ first r ∷ second r ∷ []) [] r st (omega arith) g
lower_kind-IsGood InstKind.set_index unit r st g =
    emit_on-IsGood _ _ (first r ∷ second r ∷ third r ∷ []) [] r st (omega arith) g
lower_kind-IsGood InstKind.get_member unit r st g =
    emit_on-IsGood _ _ (dst r ∷ first r ∷ second r ∷ []) [] r st (omega arith) g
lower_kind-IsGood InstKind.set_member unit r st g =
    emit_on-IsGood _ _ (first r ∷ second r ∷ third r ∷ []) [] r st (omega arith) g
lower_kind-IsGood InstKind.load_global unit r st g = lower_load_global-IsGood r st g
lower_kind-IsGood InstKind.store_global unit r st g = lower_store_global-IsGood r st g
lower_kind-IsGood InstKind.call unit r st g = lower_call-IsGood r st g
lower_kind-IsGood InstKind.jump unit r st g = lower_jump-IsGood r.a_kind r st g
lower_kind-IsGood InstKind.branch unit r st g =
    lower_branch-IsGood r.a_kind r.b_kind r.c_kind r st g
lower_kind-IsGood InstKind.free unit r st g =
    emit_on-IsGood _ _ (dst r ∷ []) [] r st (omega arith) g
lower_kind-IsGood InstKind.return unit r st g = lower_return-IsGood r st g
lower_kind-IsGood InstKind.phi unit r st g = tt
lower_kind-IsGood _ unit r st g = lower_binary-IsGood r st g

Ensures-any {ℓ} : {A : Type ℓ} (m : Result A) → Ensures (λ _. Unit {0}) m
Ensures-any (ok a) = tt
Ensures-any (err e) = tt

lower_insts-IsGood :
    (rounds i : ℕ) (unit : ModuleIr) (st : Lowering)
    → IsGood st
    → Ensures IsGood (lower_insts rounds i unit st)
unfolding lower_insts
lower_insts-IsGood zero i unit st g = g
lower_insts-IsGood (suc rounds) i unit st g =
    Ensures-bind (λ _. Unit {0}) IsGood (snapshot unit.insts i) _
      (Ensures-any (snapshot unit.insts i))
      λ r _.
        Ensures-bind IsGood IsGood (lower_kind r.kind unit r st) _
          (lower_kind-IsGood r.kind unit r st g)
          λ next h. lower_insts-IsGood rounds (i + 1) unit next h

-- The entry of a block is the end of the code so far.
lower_block-IsGood :
    (unit : ModuleIr) (b : BlockRecord) (st : Lowering)
    → IsGood st
    → Ensures IsGood (lower_block unit b st)
unfolding lower_block
lower_block-IsGood unit b st (starts, l) = lower_insts-IsGood _ _ unit _ (
  starts,
  record {
    layout = l.layout;
    places = l.places;
    entries = (l.layout.last, l.entries);
    sites = l.sites;
    ordered = l.ordered;
  },
)

pub lower_blocks-IsGood :
    (rounds i : ℕ) (unit : ModuleIr) (span : Span) (st : Lowering)
    → IsGood st
    → Ensures IsGood (lower_blocks rounds i unit span st)
unfolding lower_blocks
lower_blocks-IsGood zero i unit span st g = g
lower_blocks-IsGood (suc rounds) i unit span st g =
    Ensures-bind (λ _. Unit {0}) IsGood (at unit.blocks ((span.begin + i) % 2 ^ 32)) _
      (Ensures-any (at unit.blocks ((span.begin + i) % 2 ^ 32)))
      λ b _.
        Ensures-bind IsGood IsGood (lower_block unit b st) _ (lower_block-IsGood unit b st g)
          λ next h. lower_blocks-IsGood rounds (i + 1) unit span next h
