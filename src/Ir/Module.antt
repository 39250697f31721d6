-- ===== src/Ir/Module.antt =====
-- The records of a module's intermediate representation (include/niki/l0_core/ir/module_ir.hpp,
-- include/niki/l1_domain/ir.hpp).
use niki.Prelude.{ℕ, Bool, List}
use niki.Ir.Kinds.{ValueKind, InstKind, DomainSymKind}

-- `struct Span`: an interval of a table.
pub record Span : Type 0 where
  pub begin : ℕ
  pub count : ℕ

-- `struct FuncRecord`.
pub record FuncRecord : Type 0 where
  pub func_id : ℕ
  pub func_name_sid : ℕ
  pub src_sid : ℕ
  pub entry_block : ℕ
  pub param_count : ℕ
  pub next_vreg : ℕ
  pub arity : ℕ
  pub block_span : Span

-- `struct BlockRecord`.
pub record BlockRecord : Type 0 where
  pub block_id : ℕ
  pub debug_name_sid : ℕ
  pub inst_span : Span

-- `struct DomainSymRecord`.
pub record SymRecord : Type 0 where
  pub sym_id : ℕ
  pub sym_name_sid : ℕ
  pub sym_kind : DomainSymKind
  pub owner_mod_sid : ℕ
  pub is_exported : Bool

-- `struct KitsItemRecord`.
pub record KitsItemRecord : Type 0 where
  pub alias_sid : ℕ
  pub component_sid : ℕ
  pub is_mutable : Bool

-- `struct KitsRecord`.
pub record KitsRecord : Type 0 where
  pub kits_sid : ℕ
  pub owner_mod_sid : ℕ
  pub first_item : ℕ
  pub item_count : ℕ

-- `struct ComponentRecord`.
pub record ComponentRecord : Type 0 where
  pub component_sid : ℕ
  pub source_struct_sid : ℕ
  pub owner_mod_sid : ℕ
  pub is_struct_promotion : Bool

-- `struct InstTable`: one column for each field of an instruction. A 64-bit payload is its bit
-- pattern.
pub record InstTable : Type 0 where
  pub kind : List InstKind
  pub dst_kind : List ValueKind
  pub dst_u32 : List ℕ
  pub dst_i64 : List ℕ
  pub dst_u64 : List ℕ
  pub a_kind : List ValueKind
  pub a_u32 : List ℕ
  pub a_i64 : List ℕ
  pub a_u64 : List ℕ
  pub b_kind : List ValueKind
  pub b_u32 : List ℕ
  pub b_i64 : List ℕ
  pub b_u64 : List ℕ
  pub c_kind : List ValueKind
  pub c_u32 : List ℕ
  pub c_i64 : List ℕ
  pub c_u64 : List ℕ
  pub aux : List ℕ
  pub src_line : List ℕ
  pub src_col : List ℕ

-- `struct ModuleIR`. A text is its bytes.
pub record ModuleIr : Type 0 where
  pub module_id : ℕ
  pub module_name : List ℕ
  pub module_src_path : List ℕ
  pub string_pool : List (List ℕ)
  pub init_func : ℕ
  pub funcs : List FuncRecord
  pub blocks : List BlockRecord
  pub insts : InstTable
  pub syms : List SymRecord
  pub kits : List KitsRecord
  pub kits_items : List KitsItemRecord
  pub components : List ComponentRecord
