-- ===== src/Ir/Verify/Instructions.antt =====
-- What a clean report says of one instruction and one block (src/l0_core/ir/verify.cpp).
use niki.Prelude.{
  ==_iff, ℕ, ◌+◌, ◌-◌, ◌%◌, ◌^◌, ◌≤◌, ◌<◌, ◌≡◌, ◌↔◌, refl, true, not, ◌&&◌, List, some, arith, ◌==◌,
  length, get_elem?,
}
use niki.Ir.Kinds.{
  ValueKind, vreg, string_id, symbol_id, block_id, func_id, is_terminator, is_free, is_vreg,
}
use niki.Ir.Module.{FuncRecord, BlockRecord, ModuleIr}
use niki.Ir.Table.{Inst, Row}
use niki.Ir.Checks.{
  clean, add_if, with_entry, add_if_iff, iff_trans, both_says, implies_iff, with_entry_iff,
}
use niki.Ir.Verify.{check_operand, check_slot, check_inst, check_tail}

-- An operand refers to something that is there.
abbrev pub IsLegalOperand : ModuleIr → FuncRecord → ValueKind → ℕ → Type 0
IsLegalOperand m f vreg n = n < f.next_vreg
IsLegalOperand m f func_id n = n < length m.funcs
IsLegalOperand m f block_id n = n < f.block_span.count
IsLegalOperand m f symbol_id n = n < length m.syms
IsLegalOperand m f string_id n = n < length m.string_pool
IsLegalOperand m f _ n = Unit

-- An instruction refers to what is there, frees only registers, and ends control flow exactly if it
-- is the last of its block.
pub record IsLegalInst (m : ModuleIr) (f : FuncRecord) (end i : ℕ) (r : Inst) : Type 0 where
  pub frees : is_free r.kind ≡ true → is_vreg r.dst_kind ≡ true
  pub terminates : (is_terminator r.kind ≡ true) ↔ (i + 1 ≡ end)
  pub dst : IsLegalOperand m f r.dst_kind r.dst_u32
  pub a : IsLegalOperand m f r.a_kind r.a_u32
  pub b : IsLegalOperand m f r.b_kind r.b_u32
  pub c : IsLegalOperand m f r.c_kind r.c_u32

-- A block has instructions, all of them in the table, and they are legal.
pub record IsLegalBlock (m : ModuleIr) (f : FuncRecord) (b : BlockRecord) : Type 0 where
  pub inside : b.inst_span.begin + b.inst_span.count ≤ length m.insts.kind
  pub nonempty : 0 < b.inst_span.count
  pub insts :
      (i : ℕ) (r : Inst)
      → b.inst_span.begin ≤ i
      → i < b.inst_span.begin + b.inst_span.count
      → Row m.insts i r
      → IsLegalInst m f (b.inst_span.begin + b.inst_span.count) i r

check_operand_iff :
    (m : ModuleIr) (func : ℕ) (f : FuncRecord) (block inst : ℕ) (k : ValueKind) (n : ℕ)
    → (check_operand m func f block inst k n ≡ clean) ↔ IsLegalOperand m f k n
unfolding check_operand add_if
check_operand_iff m func f block inst vreg n = (λ h. ground arith, λ h. ground arith)
check_operand_iff m func f block inst func_id n = (λ h. ground arith, λ h. ground arith)
check_operand_iff m func f block inst block_id n = (λ h. ground arith, λ h. ground arith)
check_operand_iff m func f block inst symbol_id n = (λ h. ground arith, λ h. ground arith)
check_operand_iff m func f block inst string_id n = (λ h. ground arith, λ h. ground arith)
check_operand_iff m func f block inst _ n = (λ h. tt, λ h. refl)

-- What `check_inst` says of an instruction whose columns are there.
pub record IsChecked (m : ModuleIr) (f : FuncRecord) (end i : ℕ) (r : Inst) : Type 0 where
  pub frees : is_free r.kind ≡ true → is_vreg r.dst_kind ≡ true
  pub last : is_terminator r.kind ≡ true → i + 1 ≡ end
  pub dst : IsLegalOperand m f r.dst_kind r.dst_u32
  pub a : IsLegalOperand m f r.a_kind r.a_u32
  pub b : IsLegalOperand m f r.b_kind r.b_u32
  pub c : IsLegalOperand m f r.c_kind r.c_u32

check_slot_iff :
    (m : ModuleIr) (func : ℕ) (f : FuncRecord) (block inst : ℕ) (kinds : List ValueKind)
    (payloads : List ℕ) (i : ℕ) (k : ValueKind) (n : ℕ)
    → get_elem? kinds i ≡ some k
    → get_elem? payloads i ≡ some n
    → (check_slot m func f block inst kinds payloads i ≡ clean) ↔ IsLegalOperand m f k n
unfolding check_slot with_entry
check_slot_iff m func f block inst kinds payloads i k n e g =
    rw (e, g) (check_operand_iff m func f block inst k n)

pub check_inst_iff :
    (m : ModuleIr) (func : ℕ) (f : FuncRecord) (block begin end i : ℕ) (r : Inst)
    → Row m.insts i r
    → (check_inst m func f block begin end i ≡ clean) ↔ IsChecked m f end i r
unfolding check_inst
check_inst_iff m func f block begin end i r k =
    let rel = i - begin in
    let slot = check_slot_iff m func f block rel in
    let free_test =
      iff_trans (with_entry_iff _ r.dst_kind _ k.dst_kind)
        (add_if_iff (is_free r.kind && not (is_vreg r.dst_kind)) _ func block rel) in
    let last_test = add_if_iff (is_terminator r.kind && not (i + 1 == end)) _ func block rel in
    let t = m.insts in
    let four =
      both_says _ _ (slot t.dst_kind t.dst_u32 i r.dst_kind r.dst_u32 k.dst_kind k.dst_u32) (
        both_says _ _ (slot t.a_kind t.a_u32 i r.a_kind r.a_u32 k.a_kind k.a_u32) (
          both_says _ _ (slot t.b_kind t.b_u32 i r.b_kind r.b_u32 k.b_kind k.b_u32)
            (slot t.c_kind t.c_u32 i r.c_kind r.c_u32 k.c_kind k.c_u32))) in
    let all =
      iff_trans (with_entry_iff _ r.kind _ k.kind)
        (both_says _ _ free_test (both_says _ _ last_test four)) in
    (
      λ h.
          let (fr, (la, (d, (a, (b, c))))) = all.0 h in
          record {
            frees = (implies_iff (is_free r.kind) (is_vreg r.dst_kind)).0 fr;
            last = λ e.
                (==_iff (i + 1) end).0 ((implies_iff (is_terminator r.kind) (i + 1 == end)).0 la e);
            dst = d;
            a = a;
            b = b;
            c = c;
          },
      λ h. all.1 (
        (implies_iff (is_free r.kind) (is_vreg r.dst_kind)).1 h.frees,
        (
          (implies_iff (is_terminator r.kind) (i + 1 == end)).1
              (λ e. (==_iff (i + 1) end).1 (h.last e)),
          (h.dst, (h.a, (h.b, h.c))),
        ),
      ),
    )

pub check_tail_iff :
    (m : ModuleIr) (func block end count : ℕ) (r : Inst)
    → 0 < end
    → end < 2 ^ 32
    → Row m.insts (end - 1) r
    → (check_tail m func block end count ≡ clean) ↔ (is_terminator r.kind ≡ true)
unfolding check_tail
check_tail_iff m func block end count r lo hi k =
    let last : (end + 2 ^ 32 - 1) % 2 ^ 32 ≡ end - 1 = omega arith in
    iff_trans (with_entry_iff _ r.kind _ (rw last k.kind)) (
      iff_trans (add_if_iff (not (is_terminator r.kind)) _ func block (count - 1))
        (λ h. ground arith, λ h. ground arith))
