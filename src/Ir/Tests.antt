-- ===== src/Ir/Tests.antt =====
-- Runs of the verifier and of the instruction table, and their theorems at them.
use niki.Prelude.{
  ℕ, sym, ◌-◌, zero, suc, ◌≡◌, ◌↔◌, ◌^◌, refl, [], ◌∷◌, none, some, arith, get_elem?,
}
use niki.Pool.Ids.{Interned}
use niki.Pool.Strings.{bytes}
use niki.Ir.Kinds.{is_terminator, invalid, vreg, return}
use niki.Ir.Module.{FuncRecord, BlockRecord, InstTable, ModuleIr}
use niki.Ir.Table.{Inst, push, intern_text, aligned, size, IsAligned, Row}
use niki.Ir.Push.{push_lem, intern_text_lem}
use niki.Ir.Checks.{clean, each, both, add_if, with_entry}
use niki.Ir.Verify.{
  verify, check_function, check_domain, check_function_at, check_block_at, check_block, check_inst,
  check_slot, check_operand, check_tail,
}
use niki.Ir.Verify.Wrap.{check_function-wraps}
use niki.Ir.Verify.Functions.{HasRoom, IsWellFormed, verify_iff}

abbrev no_insts : InstTable
no_insts = record {
  kind = [];
  dst_kind = [];
  dst_u32 = [];
  dst_i64 = [];
  dst_u64 = [];
  a_kind = [];
  a_u32 = [];
  a_i64 = [];
  a_u64 = [];
  b_kind = [];
  b_u32 = [];
  b_i64 = [];
  b_u64 = [];
  c_kind = [];
  c_u32 = [];
  c_i64 = [];
  c_u64 = [];
  aux = [];
  src_line = [];
  src_col = [];
}

-- A return from line 7, column 3.
abbrev leave : Inst
leave = record {
  kind = return;
  dst_kind = invalid;
  dst_u32 = 0;
  dst_i64 = 0;
  dst_u64 = 0;
  a_kind = vreg;
  a_u32 = 1;
  a_i64 = 0;
  a_u64 = 0;
  b_kind = invalid;
  b_u32 = 0;
  b_i64 = 0;
  b_u64 = 0;
  c_kind = invalid;
  c_u32 = 0;
  c_i64 = 0;
  c_u64 = 0;
  aux = 0;
  src_line = 7;
  src_col = 3;
}

abbrev function : ℕ → ℕ → FuncRecord
function begin count = record {
  func_id = 0;
  func_name_sid = 0;
  src_sid = 0;
  entry_block = 0;
  param_count = 0;
  next_vreg = 2;
  arity = 0;
  block_span = record { begin = begin; count = count };
}

abbrev block : BlockRecord
block = record { block_id = 0; debug_name_sid = 0; inst_span = record { begin = 0; count = 1 } }

abbrev module_of : FuncRecord → ModuleIr
unfolding push
module_of f = record {
  module_id = 0;
  module_name = [];
  module_src_path = [];
  string_pool = (1 ∷ []) ∷ [];
  init_func = 0;
  funcs = f ∷ [];
  blocks = block ∷ [];
  insts = (push leave no_insts).0;
  syms = [];
  kits = [];
  kits_items = [];
  components = [];
}

abbrev sound : ModuleIr
sound = module_of (function 0 1)

no_insts-IsAligned : IsAligned no_insts
no_insts-IsAligned = record {
  dst_kind = refl;
  dst_u32 = refl;
  dst_i64 = refl;
  dst_u64 = refl;
  a_kind = refl;
  a_u32 = refl;
  a_i64 = refl;
  a_u64 = refl;
  b_kind = refl;
  b_u32 = refl;
  b_i64 = refl;
  b_u64 = refl;
  c_kind = refl;
  c_u32 = refl;
  c_i64 = refl;
  c_u64 = refl;
  aux = refl;
  src_line = refl;
  src_col = refl;
}

push_lem_example :
    IsAligned (push leave no_insts).0
    × Row (push leave no_insts).0 (push leave no_insts).1 leave
    × ((j : ℕ) (r : Inst) → Row no_insts j r → Row (push leave no_insts).0 j r)
push_lem_example = push_lem leave no_insts (omega arith) no_insts-IsAligned

intern_text_lem_example :
    Interned
      (2 ∷ [])
      sound.string_pool
      ((intern_text (2 ∷ []) sound).0.string_pool, (intern_text (2 ∷ []) sound).1)
    × ((intern_text (2 ∷ []) sound).0
        ≡ record sound { string_pool = (intern_text (2 ∷ []) sound).0.string_pool })
unfolding module_of
intern_text_lem_example = intern_text_lem (2 ∷ []) sound (omega arith)

only : {A : Type 0} (x y : A) (i : ℕ) → get_elem? (x ∷ []) i ≡ some y → x ≡ y
only x y zero h = cc
only x y (suc i) h = cc

sound-HasRoom : HasRoom sound
unfolding module_of
sound-HasRoom = record {
  insts = omega arith;
  blocks = λ i b e. let same : block ≡ b = only block b i e in rw (sym same) (omega arith);
  funcs = λ i f e.
      let same : function 0 1 ≡ f = only (function 0 1) f i e in rw (sym same) (omega arith);
}

verify_iff_example :
    (verify none sound ≡ clean) ↔ ((check_domain none sound ≡ clean) × IsWellFormed sound)
verify_iff_example = verify_iff none sound sound-HasRoom

check_function-wraps_example :
    check_function (module_of (function (2 ^ 32 - 1) 2)) 0 (function (2 ^ 32 - 1) 2) ≡ none
unfolding module_of
check_function-wraps_example =
    check_function-wraps (module_of (function (2 ^ 32 - 1) 2)) 0 (function (2 ^ 32 - 1) 2)
      (omega arith) (omega arith) (omega arith) (omega arith)

sound_run : verify none sound ≡ clean
unfolding module_of push verify check_domain each both add_if with_entry aligned check_function_at
    check_function check_block_at check_block size check_inst check_slot check_operand check_tail
    is_terminator
sound_run = refl
