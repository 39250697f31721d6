-- ===== src/Ir/Push.antt =====
-- What `push` and `intern` do to the tables of a module (src/l0_core/ir/module_ir.cpp).
use native.Mathlib.Nat.{mod-eq_of_lt}
use niki.Prelude.{
  ℕ, ◌^◌, ◌<◌, ◌≡◌, refl, List, [], ◌∷◌, ◌++◌, some, arith, length, length-append, get_elem?,
}
use niki.Ir.Module.{InstTable, ModuleIr}
use niki.Pool.Ids.{Interned, intern-Interned, get_elem?-append, get_elem?-append_last}
use niki.Pool.Strings.{bytes}
use niki.Ir.Table.{Inst, IsAligned, Row, push, intern_text}

last_lem {ℓ} :
    {A : Type ℓ} (xs : List A) (a : A) (n : ℕ) → length xs ≡ n → get_elem? (xs ++ a ∷ []) n ≡ some a
last_lem xs a n h = rw (← h) (get_elem?-append_last xs a)

length_lem {ℓ κ} :
    {A : Type ℓ} {B : Type κ} (xs : List A) (a : A) (ys : List B) (b : B)
    → length xs ≡ length ys
    → length (xs ++ a ∷ []) ≡ length (ys ++ b ∷ [])
length_lem xs a ys b h = omega (arith, length-append xs (a ∷ []), length-append ys (b ∷ []))

-- On an aligned table with fewer than 2 ^ 32 instructions `push` keeps the columns aligned, the id
-- that it returns leads in every column to the pushed instruction, and every instruction that was
-- in the table stays under its id.
pub push_lem :
    (i : Inst) (t : InstTable)
    → length t.kind < 2 ^ 32
    → IsAligned t
    → IsAligned (push i t).0
      × Row (push i t).0 (push i t).1 i
      × ((j : ℕ) (r : Inst) → Row t j r → Row (push i t).0 j r)
unfolding push
push_lem i t h a = (
  record {
    dst_kind = length_lem t.dst_kind i.dst_kind t.kind i.kind a.dst_kind;
    dst_u32 = length_lem t.dst_u32 i.dst_u32 t.kind i.kind a.dst_u32;
    dst_i64 = length_lem t.dst_i64 i.dst_i64 t.kind i.kind a.dst_i64;
    dst_u64 = length_lem t.dst_u64 i.dst_u64 t.kind i.kind a.dst_u64;
    a_kind = length_lem t.a_kind i.a_kind t.kind i.kind a.a_kind;
    a_u32 = length_lem t.a_u32 i.a_u32 t.kind i.kind a.a_u32;
    a_i64 = length_lem t.a_i64 i.a_i64 t.kind i.kind a.a_i64;
    a_u64 = length_lem t.a_u64 i.a_u64 t.kind i.kind a.a_u64;
    b_kind = length_lem t.b_kind i.b_kind t.kind i.kind a.b_kind;
    b_u32 = length_lem t.b_u32 i.b_u32 t.kind i.kind a.b_u32;
    b_i64 = length_lem t.b_i64 i.b_i64 t.kind i.kind a.b_i64;
    b_u64 = length_lem t.b_u64 i.b_u64 t.kind i.kind a.b_u64;
    c_kind = length_lem t.c_kind i.c_kind t.kind i.kind a.c_kind;
    c_u32 = length_lem t.c_u32 i.c_u32 t.kind i.kind a.c_u32;
    c_i64 = length_lem t.c_i64 i.c_i64 t.kind i.kind a.c_i64;
    c_u64 = length_lem t.c_u64 i.c_u64 t.kind i.kind a.c_u64;
    aux = length_lem t.aux i.aux t.kind i.kind a.aux;
    src_line = length_lem t.src_line i.src_line t.kind i.kind a.src_line;
    src_col = length_lem t.src_col i.src_col t.kind i.kind a.src_col;
  },
  rw (mod-eq_of_lt h) (record {
    kind = last_lem t.kind i.kind (length t.kind) refl;
    dst_kind = last_lem t.dst_kind i.dst_kind (length t.kind) a.dst_kind;
    dst_u32 = last_lem t.dst_u32 i.dst_u32 (length t.kind) a.dst_u32;
    dst_i64 = last_lem t.dst_i64 i.dst_i64 (length t.kind) a.dst_i64;
    dst_u64 = last_lem t.dst_u64 i.dst_u64 (length t.kind) a.dst_u64;
    a_kind = last_lem t.a_kind i.a_kind (length t.kind) a.a_kind;
    a_u32 = last_lem t.a_u32 i.a_u32 (length t.kind) a.a_u32;
    a_i64 = last_lem t.a_i64 i.a_i64 (length t.kind) a.a_i64;
    a_u64 = last_lem t.a_u64 i.a_u64 (length t.kind) a.a_u64;
    b_kind = last_lem t.b_kind i.b_kind (length t.kind) a.b_kind;
    b_u32 = last_lem t.b_u32 i.b_u32 (length t.kind) a.b_u32;
    b_i64 = last_lem t.b_i64 i.b_i64 (length t.kind) a.b_i64;
    b_u64 = last_lem t.b_u64 i.b_u64 (length t.kind) a.b_u64;
    c_kind = last_lem t.c_kind i.c_kind (length t.kind) a.c_kind;
    c_u32 = last_lem t.c_u32 i.c_u32 (length t.kind) a.c_u32;
    c_i64 = last_lem t.c_i64 i.c_i64 (length t.kind) a.c_i64;
    c_u64 = last_lem t.c_u64 i.c_u64 (length t.kind) a.c_u64;
    aux = last_lem t.aux i.aux (length t.kind) a.aux;
    src_line = last_lem t.src_line i.src_line (length t.kind) a.src_line;
    src_col = last_lem t.src_col i.src_col (length t.kind) a.src_col;
  }),
  λ j r k. record {
    kind = get_elem?-append t.kind i.kind j r.kind k.kind;
    dst_kind = get_elem?-append t.dst_kind i.dst_kind j r.dst_kind k.dst_kind;
    dst_u32 = get_elem?-append t.dst_u32 i.dst_u32 j r.dst_u32 k.dst_u32;
    dst_i64 = get_elem?-append t.dst_i64 i.dst_i64 j r.dst_i64 k.dst_i64;
    dst_u64 = get_elem?-append t.dst_u64 i.dst_u64 j r.dst_u64 k.dst_u64;
    a_kind = get_elem?-append t.a_kind i.a_kind j r.a_kind k.a_kind;
    a_u32 = get_elem?-append t.a_u32 i.a_u32 j r.a_u32 k.a_u32;
    a_i64 = get_elem?-append t.a_i64 i.a_i64 j r.a_i64 k.a_i64;
    a_u64 = get_elem?-append t.a_u64 i.a_u64 j r.a_u64 k.a_u64;
    b_kind = get_elem?-append t.b_kind i.b_kind j r.b_kind k.b_kind;
    b_u32 = get_elem?-append t.b_u32 i.b_u32 j r.b_u32 k.b_u32;
    b_i64 = get_elem?-append t.b_i64 i.b_i64 j r.b_i64 k.b_i64;
    b_u64 = get_elem?-append t.b_u64 i.b_u64 j r.b_u64 k.b_u64;
    c_kind = get_elem?-append t.c_kind i.c_kind j r.c_kind k.c_kind;
    c_u32 = get_elem?-append t.c_u32 i.c_u32 j r.c_u32 k.c_u32;
    c_i64 = get_elem?-append t.c_i64 i.c_i64 j r.c_i64 k.c_i64;
    c_u64 = get_elem?-append t.c_u64 i.c_u64 j r.c_u64 k.c_u64;
    aux = get_elem?-append t.aux i.aux j r.aux k.aux;
    src_line = get_elem?-append t.src_line i.src_line j r.src_line k.src_line;
    src_col = get_elem?-append t.src_col i.src_col j r.src_col k.src_col;
  },
)

-- A module with fewer than 2 ^ 32 strings: the interned text stands under its id, every string in use
-- keeps its id, distinct strings stay distinct, and nothing else of the module changes.
pub intern_text_lem :
    (text : List ℕ) (m : ModuleIr)
    → length m.string_pool < 2 ^ 32
    → Interned text m.string_pool ((intern_text text m).0.string_pool, (intern_text text m).1)
      × ((intern_text text m).0 ≡ record m { string_pool = (intern_text text m).0.string_pool })
unfolding intern_text
intern_text_lem text m h = (intern-Interned text m.string_pool h, refl)
