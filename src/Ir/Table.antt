-- ===== src/Ir/Table.antt =====
-- The operations of the instruction table and of the module (src/l0_core/ir/module_ir.cpp).
use niki.Prelude.{
  ℕ, ◌-◌, ◌%◌, ◌^◌, ◌≡◌, ◌↔◌, Bool, true, not, ◌&&◌, List, [], ◌∷◌, ◌++◌, some, arith, ◌==◌, length,
  get_elem?,
}
use niki.Ir.Kinds.{ValueKind, InstKind}
use niki.Ir.Module.{InstTable, ModuleIr}
use niki.Pool.Search.{intern}
use niki.Pool.Strings.{bytes}

-- The arguments of `push`: one instruction.
pub record Inst : Type 0 where
  pub kind : InstKind
  pub dst_kind : ValueKind
  pub dst_u32 : ℕ
  pub dst_i64 : ℕ
  pub dst_u64 : ℕ
  pub a_kind : ValueKind
  pub a_u32 : ℕ
  pub a_i64 : ℕ
  pub a_u64 : ℕ
  pub b_kind : ValueKind
  pub b_u32 : ℕ
  pub b_i64 : ℕ
  pub b_u64 : ℕ
  pub c_kind : ValueKind
  pub c_u32 : ℕ
  pub c_i64 : ℕ
  pub c_u64 : ℕ
  pub aux : ℕ
  pub src_line : ℕ
  pub src_col : ℕ

-- `InstTable::clear`.
unfoldable pub clear : InstTable → InstTable
clear t = record {
  kind = [];
  dst_kind = [];
  dst_u32 = [];
  dst_i64 = [];
  dst_u64 = [];
  a_kind = [];
  a_u32 = [];
  a_i64 = [];
  a_u64 = [];
  b_kind = [];
  b_u32 = [];
  b_i64 = [];
  b_u64 = [];
  c_kind = [];
  c_u32 = [];
  c_i64 = [];
  c_u64 = [];
  aux = [];
  src_line = [];
  src_col = [];
}

-- `InstTable::size`.
unfoldable pub size : InstTable → ℕ
size t = length t.kind % 2 ^ 32

-- `InstTable::aligned`.
unfoldable pub aligned : InstTable → Bool
aligned t =
    let n = length t.kind in
    length t.dst_kind == n
    && (length t.dst_u32 == n
        && (length t.dst_i64 == n
            && (length t.dst_u64 == n
                && (length t.a_kind == n
                    && (length t.a_u32 == n
                        && (length t.a_i64 == n
                            && (length t.a_u64 == n
                                && (length t.b_kind == n
                                    && (length t.b_u32 == n
                                        && (length t.b_i64 == n
                                            && (length t.b_u64 == n
                                                && (length t.c_kind == n
                                                    && (length t.c_u32 == n
                                                        && (length t.c_i64 == n
                                                            && (length t.c_u64 == n
                                                            && (length t.aux == n
                                                            && (length t.src_line == n
                                                            && (length t.src_col
                                                            == n))))))))))))))))))

-- `InstTable::push`: the table and the id of the new instruction.
unfoldable pub push : Inst → InstTable → InstTable × ℕ
push i t = (
  record {
    kind = t.kind ++ i.kind ∷ [];
    dst_kind = t.dst_kind ++ i.dst_kind ∷ [];
    dst_u32 = t.dst_u32 ++ i.dst_u32 ∷ [];
    dst_i64 = t.dst_i64 ++ i.dst_i64 ∷ [];
    dst_u64 = t.dst_u64 ++ i.dst_u64 ∷ [];
    a_kind = t.a_kind ++ i.a_kind ∷ [];
    a_u32 = t.a_u32 ++ i.a_u32 ∷ [];
    a_i64 = t.a_i64 ++ i.a_i64 ∷ [];
    a_u64 = t.a_u64 ++ i.a_u64 ∷ [];
    b_kind = t.b_kind ++ i.b_kind ∷ [];
    b_u32 = t.b_u32 ++ i.b_u32 ∷ [];
    b_i64 = t.b_i64 ++ i.b_i64 ∷ [];
    b_u64 = t.b_u64 ++ i.b_u64 ∷ [];
    c_kind = t.c_kind ++ i.c_kind ∷ [];
    c_u32 = t.c_u32 ++ i.c_u32 ∷ [];
    c_i64 = t.c_i64 ++ i.c_i64 ∷ [];
    c_u64 = t.c_u64 ++ i.c_u64 ∷ [];
    aux = t.aux ++ i.aux ∷ [];
    src_line = t.src_line ++ i.src_line ∷ [];
    src_col = t.src_col ++ i.src_col ∷ [];
  },
  length t.kind % 2 ^ 32,
)

-- `ModuleIR::has_init`.
unfoldable pub has_init : ModuleIr → Bool
has_init m = not (m.init_func == 2 ^ 32 - 1)

-- `ModuleIR::intern`.
unfoldable pub intern_text : List ℕ → ModuleIr → ModuleIr × ℕ
intern_text text m =
    let (pool, id) = intern text m.string_pool in (record m { string_pool = pool }, id)

-- Every column has the length of the first.
pub record IsAligned (t : InstTable) : Type 0 where
  pub dst_kind : length t.dst_kind ≡ length t.kind
  pub dst_u32 : length t.dst_u32 ≡ length t.kind
  pub dst_i64 : length t.dst_i64 ≡ length t.kind
  pub dst_u64 : length t.dst_u64 ≡ length t.kind
  pub a_kind : length t.a_kind ≡ length t.kind
  pub a_u32 : length t.a_u32 ≡ length t.kind
  pub a_i64 : length t.a_i64 ≡ length t.kind
  pub a_u64 : length t.a_u64 ≡ length t.kind
  pub b_kind : length t.b_kind ≡ length t.kind
  pub b_u32 : length t.b_u32 ≡ length t.kind
  pub b_i64 : length t.b_i64 ≡ length t.kind
  pub b_u64 : length t.b_u64 ≡ length t.kind
  pub c_kind : length t.c_kind ≡ length t.kind
  pub c_u32 : length t.c_u32 ≡ length t.kind
  pub c_i64 : length t.c_i64 ≡ length t.kind
  pub c_u64 : length t.c_u64 ≡ length t.kind
  pub aux : length t.aux ≡ length t.kind
  pub src_line : length t.src_line ≡ length t.kind
  pub src_col : length t.src_col ≡ length t.kind

-- The test of the table is that invariant.
pub aligned_iff : (t : InstTable) → (aligned t ≡ true) ↔ IsAligned t
unfolding aligned
aligned_iff t = (λ h. ground arith, λ h. ground arith)

-- The entries of the columns at one index.
pub record Row (t : InstTable) (i : ℕ) (r : Inst) : Type 0 where
  pub kind : get_elem? t.kind i ≡ some r.kind
  pub dst_kind : get_elem? t.dst_kind i ≡ some r.dst_kind
  pub dst_u32 : get_elem? t.dst_u32 i ≡ some r.dst_u32
  pub dst_i64 : get_elem? t.dst_i64 i ≡ some r.dst_i64
  pub dst_u64 : get_elem? t.dst_u64 i ≡ some r.dst_u64
  pub a_kind : get_elem? t.a_kind i ≡ some r.a_kind
  pub a_u32 : get_elem? t.a_u32 i ≡ some r.a_u32
  pub a_i64 : get_elem? t.a_i64 i ≡ some r.a_i64
  pub a_u64 : get_elem? t.a_u64 i ≡ some r.a_u64
  pub b_kind : get_elem? t.b_kind i ≡ some r.b_kind
  pub b_u32 : get_elem? t.b_u32 i ≡ some r.b_u32
  pub b_i64 : get_elem? t.b_i64 i ≡ some r.b_i64
  pub b_u64 : get_elem? t.b_u64 i ≡ some r.b_u64
  pub c_kind : get_elem? t.c_kind i ≡ some r.c_kind
  pub c_u32 : get_elem? t.c_u32 i ≡ some r.c_u32
  pub c_i64 : get_elem? t.c_i64 i ≡ some r.c_i64
  pub c_u64 : get_elem? t.c_u64 i ≡ some r.c_u64
  pub aux : get_elem? t.aux i ≡ some r.aux
  pub src_line : get_elem? t.src_line i ≡ some r.src_line
  pub src_col : get_elem? t.src_col i ≡ some r.src_col
