-- ===== src/Linker/Link.antt =====
-- `Linker::link` (src/l0_core/linker/linker_facade.cpp). A text is its bytes, a hash map an association
-- list, and the export table the sequence of its entries in the order of its iteration. The constants
-- of a chunk are copied and never read: their type is a parameter.
use niki.Prelude.{
  ℕ, zero, suc, ◌+◌, ◌/◌, ◌%◌, ◌^◌, ◌-◌, Bool, true, ◌&&◌, List, [], ◌∷◌, ◌++◌, map, none, some,
  ltb, ◌==◌, bytes_eq, arith, ◌≡◌, ◌↔◌, if◌then◌else◌, get_elem?,
}
use niki.Pool.Search.{Eq}
use niki.Pool.Mapped.{Mapped, lookup}
use niki.Pool.Strings.{Bytes, bytes, bytes_eq_iff, codes, intern_all}
use niki.Ir.Module.{SymRecord}

-- `struct Chunk`.
pub record Chunk (V : Type 0) : Type 0 where
  pub module_id : ℕ
  pub code : List ℕ
  pub constants : List V
  pub lines : List ℕ
  pub columns : List ℕ
  pub string_pool : List Bytes
  pub max_register_slots : ℕ

-- `struct CompileModule`.
pub record CompileModule (V : Type 0) : Type 0 where
  pub module_id : ℕ
  pub module_name : Bytes
  pub source_path : Bytes
  pub init_chunk : Chunk V
  pub exports : List (ℕ × ℕ)
  pub exported_symbols : List SymRecord

-- `struct LinkedProgram`.
pub record LinkedProgram (V : Type 0) : Type 0 where
  pub init_chunks : List (Chunk V)
  pub entry_name_id : ℕ
  pub entry_module_id : ℕ
  pub string_pool : List Bytes

-- `struct LinkOptions`.
pub record LinkOptions : Type 0 where
  pub entry_name : Bytes

-- `struct SymbolDef`.
pub record SymbolDef : Type 0 where
  pub id : ℕ
  pub name : Bytes
  pub module_path : Bytes

-- The calls of `diagnostics.error`, each with the texts that its message is made of.
pub data LinkError : Type 0 where
  no_modules : LinkError
  duplicate_in_module : Bytes → Bytes → LinkError
  duplicate_exported : Bytes → Bytes → Bytes → LinkError
  multiple_entry : Bytes → LinkError
  entry_not_found : Bytes → LinkError

-- `std::expected<LinkedProgram, DiagnosticBag>`.
pub data LinkResult (V : Type 0) : Type 0 where
  linked : LinkedProgram V → LinkResult V
  failed : List LinkError → LinkResult V

-- `struct PerModuleSymbolKey`.
pub record PerModuleSymbolKey : Type 0 where
  pub module_id : ℕ
  pub name : Bytes

abbrev pub key_eq : PerModuleSymbolKey → PerModuleSymbolKey → Bool
key_eq a b = a.module_id == b.module_id && bytes_eq a.name b.name

pub key_eq_iff : (a b : PerModuleSymbolKey) → (key_eq a b ≡ true) ↔ (a ≡ b)
key_eq_iff a b =
    let name = bytes_eq_iff a.name b.name in
    (
      λ h.
          let id : a.module_id ≡ b.module_id = ground arith in
          let text : a.name ≡ b.name = ground (arith, name.0) in cc,
      λ e. ground (arith, name.1),
    )

-- The local variables of the loop over the definitions. The maps lead to the path of the first
-- definition of a name.
pub record Names : Type 0 where
  pub per_module : List (PerModuleSymbolKey × Bytes)
  pub global : List (Bytes × Bytes)
  pub entry_id : ℕ
  pub entry_module_id : ℕ
  pub entry_count : ℕ
  pub diagnostics : List LinkError

instance abbrev pub keys : Eq PerModuleSymbolKey
keys = record { equal = key_eq; equal_iff = key_eq_iff }

-- `std::to_string` of a 32-bit number: at most ten digits.
abbrev pub digits : ℕ → ℕ → Bytes → Bytes
digits zero n rest = rest
digits (suc more) n rest =
    let digit = (48 + n % 10) ∷ rest in
    let front = digits more (n / 10) digit in if ltb n 10 then digit else front

-- The text of a pool at an id, or the id in angle brackets after a tag.
unfoldable pub name_at : Bytes → List Bytes → ℕ → Bytes
name_at tag pool id = elim (get_elem? pool id) [
  | some text ↦ text
  | none ↦ codes "<" ++ tag ++ digits 10 id (codes ">")
]

-- `collectDefinedSymbols`.
unfoldable pub defined_symbols : {V : Type 0} → CompileModule V → List SymbolDef
defined_symbols unit =
    map
      (λ e. record {
        id = e.1;
        name = name_at (codes "id") unit.init_chunk.string_pool e.1;
        module_path = unit.source_path;
      })
      unit.exports
    ++ map
        (λ r. record {
          id = r.sym_name_sid;
          name = name_at (codes "sid") unit.init_chunk.string_pool r.sym_name_sid;
          module_path = unit.source_path;
        })
        unit.exported_symbols

-- `collectMergedStringPool`: a string that was seen is skipped, another gets the next id.
unfoldable pub merged_string_pool :
    {V : Type 0} → List (CompileModule V) → Mapped Bytes → Mapped Bytes
merged_string_pool [] m = m
merged_string_pool (unit ∷ modules) m =
    merged_string_pool modules (intern_all unit.init_chunk.string_pool m)

-- `per_module_symbol_map.try_emplace` and its report.
unfoldable pub declare_in_module : ℕ → SymbolDef → Names → Names
declare_in_module unit d st =
    let key : PerModuleSymbolKey = record { module_id = unit; name = d.name } in
    elim (lookup key st.per_module) [
      | some path ↦ record st {
        diagnostics = st.diagnostics ++ duplicate_in_module d.name d.module_path ∷ [];
      }
      | none ↦ record st { per_module = (key, d.module_path) ∷ st.per_module }
    ]

-- `global_export_name_to_path.try_emplace` and its report.
unfoldable pub declare_exported : SymbolDef → Names → Names
declare_exported d st = elim (lookup d.name st.global) [
  | some first ↦ record st {
    diagnostics = st.diagnostics ++ duplicate_exported d.name first d.module_path ∷ [];
  }
  | none ↦ record st { global = (d.name, d.module_path) ∷ st.global }
]

-- The test for the entry.
unfoldable pub resolve_entry : LinkOptions → ℕ → SymbolDef → Names → Names
resolve_entry options unit d st =
    if bytes_eq d.name options.entry_name
    then record st { entry_id = d.id; entry_module_id = unit; entry_count = st.entry_count + 1 }
    else st

-- The loop over the definitions of a module.
unfoldable pub declare_all : LinkOptions → ℕ → List SymbolDef → Names → Names
declare_all options unit [] st = st
declare_all options unit (d ∷ ds) st =
    declare_all options unit ds
      (resolve_entry options unit d (declare_exported d (declare_in_module unit d st)))

-- The loop over the modules.
unfoldable pub declare_modules : {V : Type 0} → LinkOptions → List (CompileModule V) → Names → Names
declare_modules options [] st = st
declare_modules options (unit ∷ modules) st =
    declare_modules options modules (declare_all options unit.module_id (defined_symbols unit) st)

-- The state before the loop.
abbrev pub no_names : Names
no_names = record {
  per_module = [];
  global = [];
  entry_id = 2 ^ 32 - 1;
  entry_module_id = 2 ^ 32 - 1;
  entry_count = 0;
  diagnostics = [];
}

-- The tests on the number of entries, and the reports so far.
unfoldable pub link_errors : LinkOptions → Names → List LinkError
link_errors options st =
    if ltb 1 st.entry_count
    then st.diagnostics ++ multiple_entry options.entry_name ∷ []
    else if st.entry_count == 0
    then st.diagnostics ++ entry_not_found options.entry_name ∷ []
    else st.diagnostics

-- `linkModules`.
unfoldable pub link : {V : Type 0} → LinkOptions → List (CompileModule V) → LinkResult V
link options [] = failed (no_modules ∷ [])
link options (unit ∷ modules) =
    let all = unit ∷ modules in
    let st = declare_modules options all no_names in
    elim (link_errors options st) [
      | [] ↦ linked (record {
        init_chunks = map (λ m. m.init_chunk) all;
        entry_name_id = st.entry_id;
        entry_module_id = st.entry_module_id;
        string_pool = (merged_string_pool all (record { pool = []; ids = [] })).pool;
      })
      | e ∷ es ↦ failed (e ∷ es)
    ]
