-- ===== src/Ir/Row.antt =====
-- The rows of an aligned instruction table (src/l0_core/ir/module_ir.cpp).
use niki.Prelude.{ℕ, zero, suc, ◌<◌, ◌≡◌, refl, List, [], ◌∷◌, some, arith, length, get_elem?}
use niki.Ir.Module.{InstTable}
use niki.Ir.Table.{Inst, IsAligned, Row}

pub get_elem?-lt {ℓ} :
    {A : Type ℓ} (xs : List A) (i : ℕ) → i < length xs → (a : A) × (get_elem? xs i ≡ some a)
get_elem?-lt [] i h = absurd (omega arith)
get_elem?-lt (x ∷ xs) zero h = (x, refl)
get_elem?-lt (x ∷ xs) (suc i) h = get_elem?-lt xs i (omega arith)

-- Every index of an aligned table has an instruction.
pub Row-at : (t : InstTable) (i : ℕ) → IsAligned t → i < length t.kind → (r : Inst) × Row t i r
Row-at t i a h =
    let kind = get_elem?-lt t.kind i (omega (arith, h)) in
    let dst_kind = get_elem?-lt t.dst_kind i (omega (arith, a.dst_kind)) in
    let dst_u32 = get_elem?-lt t.dst_u32 i (omega (arith, a.dst_u32)) in
    let dst_i64 = get_elem?-lt t.dst_i64 i (omega (arith, a.dst_i64)) in
    let dst_u64 = get_elem?-lt t.dst_u64 i (omega (arith, a.dst_u64)) in
    let a_kind = get_elem?-lt t.a_kind i (omega (arith, a.a_kind)) in
    let a_u32 = get_elem?-lt t.a_u32 i (omega (arith, a.a_u32)) in
    let a_i64 = get_elem?-lt t.a_i64 i (omega (arith, a.a_i64)) in
    let a_u64 = get_elem?-lt t.a_u64 i (omega (arith, a.a_u64)) in
    let b_kind = get_elem?-lt t.b_kind i (omega (arith, a.b_kind)) in
    let b_u32 = get_elem?-lt t.b_u32 i (omega (arith, a.b_u32)) in
    let b_i64 = get_elem?-lt t.b_i64 i (omega (arith, a.b_i64)) in
    let b_u64 = get_elem?-lt t.b_u64 i (omega (arith, a.b_u64)) in
    let c_kind = get_elem?-lt t.c_kind i (omega (arith, a.c_kind)) in
    let c_u32 = get_elem?-lt t.c_u32 i (omega (arith, a.c_u32)) in
    let c_i64 = get_elem?-lt t.c_i64 i (omega (arith, a.c_i64)) in
    let c_u64 = get_elem?-lt t.c_u64 i (omega (arith, a.c_u64)) in
    let aux = get_elem?-lt t.aux i (omega (arith, a.aux)) in
    let src_line = get_elem?-lt t.src_line i (omega (arith, a.src_line)) in
    let src_col = get_elem?-lt t.src_col i (omega (arith, a.src_col)) in
    (
      record {
        kind = kind.0;
        dst_kind = dst_kind.0;
        dst_u32 = dst_u32.0;
        dst_i64 = dst_i64.0;
        dst_u64 = dst_u64.0;
        a_kind = a_kind.0;
        a_u32 = a_u32.0;
        a_i64 = a_i64.0;
        a_u64 = a_u64.0;
        b_kind = b_kind.0;
        b_u32 = b_u32.0;
        b_i64 = b_i64.0;
        b_u64 = b_u64.0;
        c_kind = c_kind.0;
        c_u32 = c_u32.0;
        c_i64 = c_i64.0;
        c_u64 = c_u64.0;
        aux = aux.0;
        src_line = src_line.0;
        src_col = src_col.0;
      },
      record {
        kind = kind.1;
        dst_kind = dst_kind.1;
        dst_u32 = dst_u32.1;
        dst_i64 = dst_i64.1;
        dst_u64 = dst_u64.1;
        a_kind = a_kind.1;
        a_u32 = a_u32.1;
        a_i64 = a_i64.1;
        a_u64 = a_u64.1;
        b_kind = b_kind.1;
        b_u32 = b_u32.1;
        b_i64 = b_i64.1;
        b_u64 = b_u64.1;
        c_kind = c_kind.1;
        c_u32 = c_u32.1;
        c_i64 = c_i64.1;
        c_u64 = c_u64.1;
        aux = aux.1;
        src_line = src_line.1;
        src_col = src_col.1;
      },
    )
