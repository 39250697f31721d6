-- ===== src/Semantic/Arena.antt =====
-- `TypeArena` (src/l0_core/semantic/type_arena.cpp, include/niki/l0_core/semantic/type_arena.hpp):
-- the pools of struct descriptions and function signatures.
use niki.Prelude.{
  get_elem?-some-lt, ℕ, ◌^◌, ◌<◌, ◌≡◌, ◌↔◌, refl, Bool, true, ◌&&◌, List, Option, none, some, arith,
  ◌==◌, if◌then◌else◌, leb, bytes_eq, bytes_eq_sound, bytes_eq_refl, length, get_elem?,
}
use niki.Pool.Search.{Eq, intern}
use niki.Pool.Ids.{IsDistinct, intern-Interned}
use niki.Semantic.NkType.{
  NkType, FunctionSignature, params_eq, params_eq_sound, params_eq_refl, signature_eq,
  signature_eq_iff,
}

-- `TypeArena::StructInfo`.
pub record StructInfo : Type 0 where
  pub name_id : ℕ
  pub owner_module : List ℕ
  pub field_name_ids : List ℕ
  pub field_types : List NkType

-- The pools.
pub record TypeArena : Type 0 where
  pub structs : List StructInfo
  pub func_sigs : List FunctionSignature

-- The comparison of `internStruct`, field by field.
unfoldable pub struct_eq : StructInfo → StructInfo → Bool
struct_eq a b =
    a.name_id == b.name_id
    && (bytes_eq a.owner_module b.owner_module
        && (bytes_eq a.field_name_ids b.field_name_ids && params_eq a.field_types b.field_types))

struct_eq_iff : (a b : StructInfo) → (struct_eq a b ≡ true) ↔ (a ≡ b)
unfolding struct_eq
struct_eq_iff a b = (
  λ h. ground (
    arith,
    bytes_eq_sound a.owner_module b.owner_module,
    bytes_eq_sound a.field_name_ids b.field_name_ids,
    params_eq_sound a.field_types b.field_types,
  ),
  λ e. rw e (
      ground (
        arith,
        bytes_eq_refl b.owner_module,
        bytes_eq_refl b.field_name_ids,
        params_eq_refl b.field_types,
      )),
)

instance abbrev struct_info : Eq StructInfo
struct_info = record { equal = struct_eq; equal_iff = struct_eq_iff }

instance abbrev function_signature : Eq FunctionSignature
function_signature = record { equal = signature_eq; equal_iff = signature_eq_iff }

-- `internStruct`.
unfoldable pub intern_struct : StructInfo → TypeArena → TypeArena × ℕ
intern_struct info arena =
    let (structs, id) = intern info arena.structs in (record arena { structs = structs }, id)

-- `internFuncSig`.
unfoldable pub intern_func_sig : FunctionSignature → TypeArena → TypeArena × ℕ
intern_func_sig sig arena =
    let (func_sigs, id) = intern sig arena.func_sigs in (record arena { func_sigs = func_sigs }, id)

-- `findFuncSig`: `none` is the null pointer.
unfoldable pub find_func_sig : ℕ → TypeArena → Option FunctionSignature
find_func_sig id arena =
    if leb (length arena.func_sigs) id then none else get_elem? arena.func_sigs id

-- `findStruct`.
unfoldable pub find_struct : ℕ → TypeArena → Option StructInfo
find_struct id arena = if leb (length arena.structs) id then none else get_elem? arena.structs id

-- No struct and no signature has two ids.
pub record IsCanonical (arena : TypeArena) : Type 0 where
  pub structs : IsDistinct arena.structs
  pub func_sigs : IsDistinct arena.func_sigs

-- In an arena with fewer than 2 ^ 32 signatures, a registered signature is found under its id, every
-- id in use still leads to what it led to, the structs are untouched, and structural types stay
-- canonical: two ids lead to one signature only if they are equal.
pub intern_func_sig_lem :
    (sig : FunctionSignature) (arena : TypeArena)
    → length arena.func_sigs < 2 ^ 32
    → IsCanonical arena
    → (find_func_sig (intern_func_sig sig arena).1 (intern_func_sig sig arena).0 ≡ some sig)
      × ((id : ℕ) (old : FunctionSignature)
          → find_func_sig id arena ≡ some old
          → find_func_sig id (intern_func_sig sig arena).0 ≡ some old)
      × ((intern_func_sig sig arena).0.structs ≡ arena.structs)
      × IsCanonical (intern_func_sig sig arena).0
unfolding intern_func_sig find_func_sig
intern_func_sig_lem sig arena h c =
    let pool = arena.func_sigs in
    let r = intern sig pool in
    let i = intern-Interned sig pool h in
    (
      ground (arith, i.found, get_elem?-some-lt r.0 r.1 sig),
      λ id old e. ground (arith, i.keeps id old, get_elem?-some-lt r.0 id old),
      refl,
      record { structs = c.structs; func_sigs = i.distinct c.func_sigs },
    )
