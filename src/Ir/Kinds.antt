-- ===== src/Ir/Kinds.antt =====
-- The enumerations of the intermediate representation (include/niki/l0_core/ir/module_ir.hpp,
-- include/niki/l1_domain/ir.hpp, include/niki/l0_core/ir/verify.hpp).
use niki.Prelude.{Bool, true, false}

-- `enum class ValueKind`.
pub data ValueKind : Type 0 where
  invalid vreg imm_i64 imm_f64_bits imm_bool string_id symbol_id block_id func_id : ValueKind

-- `enum class InstKind`.
pub data InstKind : Type 0 where
  nop constant move add sub mul div mod_ dice neg : InstKind
  cmp_eq cmp_ne cmp_lt cmp_le cmp_gt cmp_ge logic_and logic_or logic_not : InstKind
  load_global store_global call return : InstKind
  new_array push_array new_map set_map get_index set_index get_member set_member : InstKind
  jump branch phi free : InstKind

-- `enum class DomainSymKind`.
pub data DomainSymKind : Type 0 where
  func struct kits component global_var external : DomainSymKind

-- `enum class VerifyErrorCode`.
pub data VerifyErrorCode : Type 0 where
  none function_id_mismatch function_block_span_out_of_range entry_block_out_of_range :
      VerifyErrorCode
  block_inst_span_out_of_range block_empty terminator_not_last missing_terminator : VerifyErrorCode
  vreg_out_of_range func_ref_out_of_range block_ref_out_of_range : VerifyErrorCode
  symbol_ref_out_of_range string_ref_out_of_range : VerifyErrorCode
  kits_item_span_out_of_range kits_name_ref_out_of_range : VerifyErrorCode
  kits_owner_module_ref_out_of_range kits_alias_ref_out_of_range : VerifyErrorCode
  kits_component_ref_out_of_range kits_duplicate_alias_in_window : VerifyErrorCode
  component_name_ref_out_of_range component_owner_module_ref_out_of_range : VerifyErrorCode
  component_source_struct_ref_out_of_range : VerifyErrorCode
  symbol_name_ref_out_of_range symbol_owner_module_ref_out_of_range : VerifyErrorCode
  symbol_id_mismatch duplicate_exported_symbol_name inst_columns_misaligned : VerifyErrorCode

-- `isTerminator` of the verifier.
unfoldable pub is_terminator : InstKind → Bool
is_terminator jump = true
is_terminator branch = true
is_terminator return = true
is_terminator _ = false

-- Comparisons with one constructor.
abbrev pub is_free : InstKind → Bool
is_free free = true
is_free _ = false

abbrev pub is_vreg : ValueKind → Bool
is_vreg vreg = true
is_vreg _ = false
