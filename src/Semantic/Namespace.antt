-- ===== src/Semantic/Namespace.antt =====
-- `ModuleNamespace` (src/l0_core/semantic/module_namespace.cpp,
-- include/niki/l0_core/semantic/module_namespace.hpp): the symbols of all modules by module and name,
-- with an index of the keys of each module. Both hash maps are association lists.
pub mod Log
use niki.Prelude.{
  ℕ, ◌≡◌, ◌↔◌, Bool, true, false, ◌&&◌, List, [], ◌∷◌, ◌++◌, Option, none, some, arith, ◌==◌,
  ==_iff, if◌then◌else◌, length,
}
use niki.Pool.Search.{Eq}
use niki.Pool.Mapped.{lookup}
use niki.Semantic.NkType.{NkType}

-- `enum class Kind` (include/niki/l0_core/semantic/module_id.hpp).
pub data Kind : Type 0 where
  function struct type_alias : Kind

-- `ModuleNamespace::Symbol`.
pub record Symbol : Type 0 where
  pub name_id : ℕ
  pub owner_module_id : ℕ
  pub kind : Kind
  pub type : NkType

-- `ModuleNamespace::Key`.
pub record Key : Type 0 where
  pub module_id : ℕ
  pub name_id : ℕ

-- `Key::operator==`.
abbrev pub same_key : Key → Key → Bool
same_key a b = a.module_id == b.module_id && a.name_id == b.name_id

pub same_key_iff : (a b : Key) → (same_key a b ≡ true) ↔ (a ≡ b)
same_key_iff a b = ground arith

instance abbrev pub namespace_keys : Eq Key
namespace_keys = record { equal = same_key; equal_iff = same_key_iff }

instance abbrev pub module_ids : Eq ℕ
module_ids = record { equal = ◌==◌; equal_iff = ==_iff }

-- The two members.
pub record ModuleNamespace : Type 0 where
  pub symbols : List (Key × Symbol)
  pub module_symbols : List (ℕ × List Key)

abbrev pub key_of : Symbol → Key
key_of s = record { module_id = s.owner_module_id; name_id = s.name_id }

-- `module_symbols_[id].push_back(key)`: a missing entry begins empty.
unfoldable pub push_key : ℕ → Key → List (ℕ × List Key) → List (ℕ × List Key)
push_key id key [] = (id, key ∷ []) ∷ []
push_key id key ((x, ks) ∷ rest) =
    let later = push_key id key rest in
    if x == id then (x, ks ++ key ∷ []) ∷ rest else (x, ks) ∷ later

-- `insert`, with its result.
unfoldable pub insert : Symbol → ModuleNamespace → ModuleNamespace × Bool
insert s ns = elim (lookup (key_of s) ns.symbols) [
  | some _ ↦ (ns, false)
  | none ↦ (
    record {
      symbols = (key_of s, s) ∷ ns.symbols;
      module_symbols = push_key s.owner_module_id (key_of s) ns.module_symbols;
    },
    true,
  )
]

-- `find`: `none` is the null pointer.
unfoldable pub find : ℕ → ℕ → ModuleNamespace → Option Symbol
find module_id name_id ns = lookup (record { module_id = module_id; name_id = name_id }) ns.symbols

-- The loop of `findModuleSymbols`.
unfoldable pub collect : List Key → List (Key × Symbol) → List Symbol
collect [] symbols = []
collect (key ∷ ks) symbols = elim (lookup key symbols) [
  | some s ↦ s ∷ collect ks symbols
  | none ↦ collect ks symbols
]

-- `findModuleSymbols`.
unfoldable pub find_module_symbols : ℕ → ModuleNamespace → List Symbol
find_module_symbols module_id ns = elim (lookup module_id ns.module_symbols) [
  | none ↦ []
  | some ks ↦ collect ks ns.symbols
]

-- A new namespace.
abbrev pub empty : ModuleNamespace
empty = record { symbols = []; module_symbols = [] }

-- A session of calls of `insert`.
unfoldable pub insert_all : List Symbol → ModuleNamespace → ModuleNamespace
insert_all [] ns = ns
insert_all (s ∷ ss) ns = insert_all ss (insert s ns).0
