-- ===== src/Object/Value.antt =====
-- The values and the heap objects of the virtual machine (include/niki/l0_core/vm/value.hpp,
-- include/niki/l0_core/vm/object.hpp). A pointer is an index of the heap. A 64-bit integer is its bit
-- pattern, as is a float.
use niki.Prelude.{ℕ, Bool, List, [], ◌∷◌, ◌++◌, Option, none, some, length, get_elem?}
use niki.Pool.Strings.{Bytes}
use niki.Linker.Link.{Chunk}

-- `struct Value`.
pub data Value : Type 0 where
  nil : Value
  bool : Bool → Value
  int : ℕ → Value
  float : ℕ → Value
  object : ℕ → Value

-- `struct ObjStructDef`.
pub record ObjStructDef : Type 0 where
  pub name_id : ℕ
  pub field_count : ℕ

-- `struct ObjInstance`.
pub record ObjInstance : Type 0 where
  pub struct_definition : ℕ
  pub fields : List Value

-- `struct ObjArray`: `elements` has the slots of the whole capacity.
pub record ObjArray : Type 0 where
  pub capacity : ℕ
  pub count : ℕ
  pub elements : List Value

-- `struct ObjMapEntry`.
pub record ObjMapEntry : Type 0 where
  pub key : Value
  pub value : Value
  pub occupied : Bool

-- `struct ObjMap`.
pub record ObjMap : Type 0 where
  pub capacity : ℕ
  pub count : ℕ
  pub entries : List ObjMapEntry

-- `struct ObjFunction`.
pub record ObjFunction : Type 0 where
  pub name_id : ℕ
  pub arity : ℕ
  pub max_registers : ℕ
  pub chunk : Chunk Value

-- `struct Object` with its `ObjType`; `struct ObjString` is its bytes.
pub data Obj : Type 0 where
  string : Bytes → Obj
  array : ObjArray → Obj
  map : ObjMap → Obj
  struct_def : ObjStructDef → Obj
  instance_ : ObjInstance → Obj
  function : ObjFunction → Obj

-- The heap: an address that was freed holds nothing, and is not given out again.
abbrev pub Heap : Type 0
Heap = List (Option Obj)

-- An allocation, with the pointer.
unfoldable pub allocate : Obj → Heap → Heap × Value
allocate o heap = (heap ++ some o ∷ [], object (length heap))

-- `static_cast<Object *>(value.as.object)`.
unfoldable pub deref : Heap → ℕ → Option Obj
deref heap address = elim (get_elem? heap address) [ none ↦ none | some cell ↦ cell ]
