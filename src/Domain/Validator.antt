-- ===== src/Domain/Validator.antt =====
-- `appendDomainIRChecks` (src/l1_domain/validator.cpp).
use niki.Prelude.{
  ℕ, Bool, ◌&&◌, not, List, [], ◌∷◌, none, some, ltb, leb, ◌==◌, if◌then◌else◌, length, get_elem?,
}
use niki.Ir.Kinds.{
  kits_item_span_out_of_range, kits_name_ref_out_of_range, kits_owner_module_ref_out_of_range,
  kits_alias_ref_out_of_range, kits_component_ref_out_of_range, kits_duplicate_alias_in_window,
  component_name_ref_out_of_range, component_owner_module_ref_out_of_range,
  component_source_struct_ref_out_of_range, symbol_name_ref_out_of_range,
  symbol_owner_module_ref_out_of_range, symbol_id_mismatch, duplicate_exported_symbol_name,
}
use niki.Ir.Module.{KitsRecord, ComponentRecord, ModuleIr}
use niki.Ir.Checks.{Checks, unknown_index, add32, add, add_if, both, each, with_entry}
use niki.Domain.Seen.{member, each_seen}

-- A reference into the string pool is out of range.
abbrev pub outside : ModuleIr → ℕ → Bool
outside m sid = leb (length m.string_pool) sid

module _ (m : ModuleIr) (kits_index : ℕ) (k : KitsRecord) where
  -- One round of the loop that collects the aliases of a window.
  unfoldable pub check_alias : ℕ → List ℕ → Checks × List ℕ
  check_alias index aliases = elim (get_elem? m.kits_items (add32 k.first_item index)) [
    | none ↦ (none, aliases)
    | some item ↦ (
      add_if (member item.alias_sid aliases)
          (add kits_duplicate_alias_in_window kits_index index unknown_index),
      item.alias_sid ∷ aliases,
    )
  ]

  -- One round of the loop over the items of a window.
  unfoldable pub check_item : ℕ → Checks
  check_item index = with_entry (get_elem? m.kits_items (add32 k.first_item index)) (λ item.
      both
        (add_if (outside m item.alias_sid)
          (add kits_alias_ref_out_of_range kits_index index unknown_index))
        (add_if (outside m item.component_sid)
          (add kits_component_ref_out_of_range kits_index index unknown_index)))

  -- One round of the loop over the kits.
  unfoldable pub check_kits : Checks
  check_kits =
      if ltb (length m.kits_items) (add32 k.first_item k.item_count)
      then add kits_item_span_out_of_range kits_index unknown_index unknown_index
      else both
          (add_if (outside m k.kits_sid)
            (add kits_name_ref_out_of_range kits_index unknown_index unknown_index))
          (both
            (add_if (outside m k.owner_mod_sid)
              (add kits_owner_module_ref_out_of_range kits_index unknown_index unknown_index))
            (both (each_seen k.item_count 0 [] check_alias) (each k.item_count 0 check_item)))

-- One round of the loop over the components.
unfoldable pub check_component : ModuleIr → ℕ → ComponentRecord → Checks
check_component m index c =
    both
      (add_if (outside m c.component_sid)
        (add component_name_ref_out_of_range index unknown_index unknown_index))
      (both
        (add_if (outside m c.owner_mod_sid)
          (add component_owner_module_ref_out_of_range index unknown_index unknown_index))
        (add_if (c.is_struct_promotion && outside m c.source_struct_sid)
          (add component_source_struct_ref_out_of_range index unknown_index unknown_index)))

-- One round of the loop over the symbols. The set is asked and extended for exported symbols only.
unfoldable pub check_symbol : ModuleIr → ℕ → List ℕ → Checks × List ℕ
check_symbol m index names = elim (get_elem? m.syms index) [
  | none ↦ (none, names)
  | some s ↦ (
    both
        (add_if (not (s.sym_id == index))
          (add symbol_id_mismatch index unknown_index unknown_index))
        (both
          (add_if (outside m s.sym_name_sid)
            (add symbol_name_ref_out_of_range index unknown_index unknown_index))
          (both
            (add_if (outside m s.owner_mod_sid)
              (add symbol_owner_module_ref_out_of_range index unknown_index unknown_index))
            (add_if (s.is_exported && member s.sym_name_sid names)
              (add duplicate_exported_symbol_name index unknown_index unknown_index)))),
    if s.is_exported then s.sym_name_sid ∷ names else names,
  )
]

-- `appendDomainIRChecks`.
unfoldable pub append_domain_checks : ModuleIr → Checks
append_domain_checks m =
    both (each (length m.kits) 0 (λ i. with_entry (get_elem? m.kits i) (check_kits m i))) (
      both
        (each (length m.components) 0
          (λ i. with_entry (get_elem? m.components i) (check_component m i)))
        (each_seen (length m.syms) 0 [] (check_symbol m)))
