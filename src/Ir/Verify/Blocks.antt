-- ===== src/Ir/Verify/Blocks.antt =====
-- What a clean report says of one block (src/l0_core/ir/verify.cpp).
use native.Mathlib.Nat.{mod-eq_of_lt}
use niki.Prelude.{ℕ, ◌+◌, ◌-◌, ◌^◌, ◌≤◌, ◌<◌, ◌≡◌, ◌↔◌, arith, ltb, ◌==◌, if◌then◌else◌, length}
use niki.Ir.Kinds.{block_inst_span_out_of_range, block_empty}
use niki.Ir.Module.{FuncRecord, BlockRecord, ModuleIr}
use niki.Ir.Table.{IsAligned, size}
use niki.Ir.Row.{Row-at}
use niki.Ir.Checks.{Checks, unknown_index, clean, add, both, each, both_iff, each_iff, guard_iff}
use niki.Ir.Verify.{check_inst, check_tail, check_block}
use niki.Ir.Verify.Instructions.{IsLegalBlock, check_inst_iff, check_tail_iff}

module _ (m : ModuleIr) (func : ℕ) (f : FuncRecord) (block : ℕ) (b : BlockRecord)
    (a : IsAligned m.insts) (small : length m.insts.kind < 2 ^ 32)
    (room : b.inst_span.begin + b.inst_span.count < 2 ^ 32) where
  block_sound : check_block m func f block b ≡ clean → IsLegalBlock m f b
  unfolding check_block size
  block_sound h =
      let begin = b.inst_span.begin in
      let count = b.inst_span.count in
      let end = begin + count in
      let body : Checks =
        both (each (end - begin) begin (check_inst m func f block begin end))
          (check_tail m func block end count) in
      let g : (if ltb (length m.insts.kind) end
            then add block_inst_span_out_of_range func block unknown_index
            else (if count == 0 then add block_empty func block unknown_index else body))
          ≡ clean =
        rw (mod-eq_of_lt room, mod-eq_of_lt small) at h in
      let g1 = (guard_iff (ltb (length m.insts.kind) end) _ func block _ _).0 g in
      let g2 = (guard_iff (count == 0) _ func block _ _).0 g1.1 in
      let inside : end ≤ length m.insts.kind = ground (arith, g1.0) in
      let nonempty : 0 < count = ground (arith, g2.0) in
      let parts =
        (both_iff (each (end - begin) begin (check_inst m func f block begin end))
            (check_tail m func block end count)).0
          g2.1 in
      let rounds = (each_iff (end - begin) begin (check_inst m func f block begin end)).0 parts.0 in
      record {
        inside = inside;
        nonempty = nonempty;
        insts = λ i r lo hi k.
            let c = (check_inst_iff m func f block begin end i r k).0 (rounds i lo (omega arith)) in
            let last = λ (e : i + 1 ≡ end).
              let q : end - 1 ≡ i = omega arith in
              (check_tail_iff m func block end count r (omega arith) room (rw q k)).0 parts.1 in
            record {
              frees = c.frees;
              terminates = (c.last, last);
              dst = c.dst;
              a = c.a;
              b = c.b;
              c = c.c;
            };
      }

  inst_complete :
      IsLegalBlock m f b
      → (i : ℕ) → b.inst_span.begin ≤ i
      → i < b.inst_span.begin + b.inst_span.count
      → check_inst m func f block b.inst_span.begin (b.inst_span.begin + b.inst_span.count) i
        ≡ clean
  inst_complete l i lo hi =
      let (r, row) = Row-at m.insts i a (omega (arith, l.inside)) in
      let x = l.insts i r lo hi row in
      (check_inst_iff m func f block _ _ i r row).1
        (record { frees = x.frees; last = x.terminates.0; dst = x.dst; a = x.a; b = x.b; c = x.c })

  block_complete : IsLegalBlock m f b → check_block m func f block b ≡ clean
  unfolding check_block size
  block_complete l =
      let begin = b.inst_span.begin in
      let count = b.inst_span.count in
      let end = begin + count in
      let (tail, tail_row) = Row-at m.insts (end - 1) a (omega (arith, l.inside, l.nonempty)) in
      let tail_legal =
        l.insts (end - 1) tail (omega (arith, l.nonempty)) (omega (arith, l.nonempty)) tail_row in
      let tail_clean : check_tail m func block end count ≡ clean =
        (check_tail_iff m func block end count tail (omega (arith, l.nonempty)) room tail_row).1
          (tail_legal.terminates.1 (omega (arith, l.nonempty))) in
      let insts_clean : each (end - begin) begin (check_inst m func f block begin end) ≡ clean =
        (each_iff (end - begin) begin (check_inst m func f block begin end)).1
          (λ i lo hi. inst_complete l i lo (omega arith)) in
      rw (mod-eq_of_lt room, mod-eq_of_lt small)
        ((guard_iff (ltb (length m.insts.kind) end) _ func block _ _).1 (
          ground (arith, l.inside),
          (guard_iff (count == 0) _ func block _ _).1 (
            ground (arith, l.nonempty),
            (both_iff (each (end - begin) begin (check_inst m func f block begin end))
                  (check_tail m func block end count)).1
                (insts_clean, tail_clean),
          ),
        ))

  -- The verifier has nothing to say of a block exactly if the block is legal.
  pub check_block_iff : (check_block m func f block b ≡ clean) ↔ IsLegalBlock m f b
  check_block_iff = (block_sound, block_complete)
