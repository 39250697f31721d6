-- ===== src/Ir/Verify/Functions.antt =====
-- What a clean report says of a module (src/l0_core/ir/verify.cpp).
use native.Mathlib.Nat.{mod-eq_of_lt}
use niki.Prelude.{
  ℕ, ◌+◌, ◌^◌, ◌≤◌, ◌<◌, ◌≡◌, ◌↔◌, not, some, arith, ltb, leb, ◌==◌, length, get_elem?,
  get_elem?-some-lt,
}
use niki.Ir.Kinds.{inst_columns_misaligned}
use niki.Ir.Module.{FuncRecord, BlockRecord, ModuleIr}
use niki.Ir.Table.{IsAligned, aligned, aligned_iff}
use niki.Ir.Row.{get_elem?-lt}
use niki.Ir.Checks.{
  unknown_index, clean, both, each, both_iff, add_if_iff, each_iff, guard_iff, iff_trans,
  with_entry_iff,
}
use niki.Ir.Verify.{
  DomainChecks, check_block, check_block_at, check_function, check_function_at, check_domain,
  verify,
}
use niki.Ir.Verify.Instructions.{IsLegalBlock}
use niki.Ir.Verify.Blocks.{check_block_iff}

-- A function has its own index as id, its blocks lie in the table, its entry is one of them, and
-- they are legal.
pub record IsLegalFunction (m : ModuleIr) (func : ℕ) (f : FuncRecord) : Type 0 where
  pub id : f.func_id ≡ func
  pub inside : f.block_span.begin + f.block_span.count ≤ length m.blocks
  pub entry : f.entry_block < f.block_span.count
  pub blocks :
      (i : ℕ) (b : BlockRecord)
      → i < f.block_span.count
      → get_elem? m.blocks (f.block_span.begin + i) ≡ some b
      → IsLegalBlock m f b

-- The columns of the instruction table are aligned and every function is legal.
pub record IsWellFormed (m : ModuleIr) : Type 0 where
  pub aligned : IsAligned m.insts
  pub funcs :
      (func : ℕ) (f : FuncRecord) → get_elem? m.funcs func ≡ some f → IsLegalFunction m func f

-- No interval and no table reaches 2 ^ 32, so that no sum of the verifier wraps around.
pub record HasRoom (m : ModuleIr) : Type 0 where
  pub insts : length m.insts.kind < 2 ^ 32
  pub blocks :
      (i : ℕ) (b : BlockRecord)
      → get_elem? m.blocks i ≡ some b
      → b.inst_span.begin + b.inst_span.count < 2 ^ 32
  pub funcs :
      (i : ℕ) (f : FuncRecord)
      → get_elem? m.funcs i ≡ some f
      → f.block_span.begin + f.block_span.count < 2 ^ 32

module _ (m : ModuleIr) (a : IsAligned m.insts) (room : HasRoom m) (func : ℕ) (f : FuncRecord)
    (here : get_elem? m.funcs func ≡ some f) where
  block_at_iff :
      (i : ℕ) (b : BlockRecord)
      → i < f.block_span.count
      → get_elem? m.blocks (f.block_span.begin + i) ≡ some b
      → (check_block_at m func f i ≡ clean) ↔ IsLegalBlock m f b
  unfolding check_block_at
  block_at_iff i b h e =
      let fits : f.block_span.begin + i < 2 ^ 32 = omega (arith, room.funcs func f here) in
      iff_trans (with_entry_iff _ b (check_block m func f i) (rw (mod-eq_of_lt fits) e))
        (check_block_iff m func f i b a room.insts (room.blocks _ b e))

  function_sound : check_function m func f ≡ clean → IsLegalFunction m func f
  unfolding check_function
  function_sound h =
      let span = room.funcs func f here in
      let g = (both_iff _ _).0 (rw (mod-eq_of_lt span) at h) in
      let g1 =
        (guard_iff (ltb (length m.blocks) (f.block_span.begin + f.block_span.count)) _ func _ _ _).0
          g.1 in
      let g2 = (both_iff _ _).0 g1.1 in
      let rounds = (each_iff f.block_span.count 0 (check_block_at m func f)).0 g2.1 in
      let same = (add_if_iff (not (f.func_id == func)) _ func _ _).0 g.0 in
      let entry = (add_if_iff (leb f.block_span.count f.entry_block) _ func _ _).0 g2.0 in
      record {
        id = ground (arith, same);
        inside = ground (arith, g1.0);
        entry = ground (arith, entry);
        blocks = λ i b lt e. (block_at_iff i b lt e).0 (rounds i (omega arith) (omega arith));
      }

  function_complete : IsLegalFunction m func f → check_function m func f ≡ clean
  unfolding check_function
  function_complete l =
      let span = room.funcs func f here in
      let body : each f.block_span.count 0 (check_block_at m func f) ≡ clean =
        (each_iff f.block_span.count 0 (check_block_at m func f)).1 (λ i lo hi.
          let (b, e) = get_elem?-lt m.blocks (f.block_span.begin + i) (omega (arith, l.inside)) in
          (block_at_iff i b (omega arith) e).1 (l.blocks i b (omega arith) e)) in
      rw (mod-eq_of_lt span) (
        (both_iff _ _).1 (
          (add_if_iff (not (f.func_id == func)) _ func _ _).1 (ground (arith, l.id)),
          (guard_iff (ltb (length m.blocks) (f.block_span.begin + f.block_span.count)) _ func _ _
                _).1
              (
                ground (arith, l.inside),
                (both_iff _ _).1 (
                  (add_if_iff (leb f.block_span.count f.entry_block) _ func _ _).1
                      (ground (arith, l.entry)),
                  body,
                ),
              ),
        ))

  function_at_iff : (check_function_at m func ≡ clean) ↔ IsLegalFunction m func f
  unfolding check_function_at
  function_at_iff =
      iff_trans (with_entry_iff (get_elem? m.funcs func) f (check_function m func) here)
        (function_sound, function_complete)

-- Where no interval reaches 2 ^ 32, the verifier reads nothing outside of a table and reports no issue
-- exactly if the registered hook reports none and the module is well formed.
pub verify_iff :
    (domain : DomainChecks) (m : ModuleIr)
    → HasRoom m
    → (verify domain m ≡ clean) ↔ ((check_domain domain m ≡ clean) × IsWellFormed m)
unfolding verify
verify_iff domain m room =
    let hook = check_domain domain m in
    let loop = each (length m.funcs) 0 (check_function_at m) in
    let two = both_iff hook loop in
    let guard =
      guard_iff (not (aligned m.insts)) inst_columns_misaligned unknown_index unknown_index
        unknown_index (both hook loop) in
    let rounds = each_iff (length m.funcs) 0 (check_function_at m) in
    let columns = aligned_iff m.insts in
    (
      λ h.
          let (same, run) = guard.0 h in
          let a = columns.0 (ground (arith, same)) in
          (
            (two.0 run).0,
            record {
              aligned = a;
              funcs = λ func f e. (function_at_iff m a room func f e).0 (
                  rounds.0 (two.0 run).1 func (omega arith)
                    (omega (arith, get_elem?-some-lt m.funcs func f e)));
            },
          ),
      λ (quiet, w). guard.1 (
        ground (arith, columns.1 w.aligned),
        two.1 (
          quiet,
          rounds.1 (λ func lo hi.
              let (f, e) = get_elem?-lt m.funcs func (omega arith) in
              (function_at_iff m w.aligned room func f e).1 (w.funcs func f e)),
        ),
      ),
    )
