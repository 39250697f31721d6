-- ===== src/Domain/Tests.antt =====
-- Runs of the domain checks on a small module, and their theorems at it.
use niki.Prelude.{ℕ, zero, suc, ◌≡◌, ◌↔◌, refl, true, false, List, [], ◌∷◌, some, arith}
use niki.Ir.Kinds.{component, kits_duplicate_alias_in_window}
use niki.Ir.Module.{KitsItemRecord, ModuleIr}
use niki.Ir.Checks.{clean, unknown_index, add, each, both, add_if, with_entry}
use niki.Ir.Verify.{verify}
use niki.Ir.Verify.Functions.{HasRoom, IsWellFormed}
use niki.Domain.Seen.{member, each_seen}
use niki.Domain.Validator.{
  check_alias, check_item, check_kits, check_component, check_symbol, append_domain_checks,
}
use niki.Domain.Legal.{IsLegalDomain}
use niki.Domain.Report.{HasKitsRoom, append_domain_checks_iff, verify_domain_iff}

abbrev item : ℕ → KitsItemRecord
item alias = record { alias_sid = alias; component_sid = 1; is_mutable = false }

-- A module without functions, with one kits record of two items.
abbrev module_of : List KitsItemRecord → ModuleIr
module_of items = record {
  module_id = 0;
  module_name = [];
  module_src_path = [];
  string_pool = (1 ∷ []) ∷ (2 ∷ []) ∷ [];
  init_func = 0;
  funcs = [];
  blocks = [];
  insts = record {
    kind = [];
    dst_kind = [];
    dst_u32 = [];
    dst_i64 = [];
    dst_u64 = [];
    a_kind = [];
    a_u32 = [];
    a_i64 = [];
    a_u64 = [];
    b_kind = [];
    b_u32 = [];
    b_i64 = [];
    b_u64 = [];
    c_kind = [];
    c_u32 = [];
    c_i64 = [];
    c_u64 = [];
    aux = [];
    src_line = [];
    src_col = [];
  };
  syms =
      record {
        sym_id = 0;
        sym_name_sid = 0;
        sym_kind = component;
        owner_mod_sid = 1;
        is_exported = true;
      }
      ∷ [];
  kits = record { kits_sid = 0; owner_mod_sid = 1; first_item = 0; item_count = 2 } ∷ [];
  kits_items = items;
  components =
      record {
        component_sid = 0;
        source_struct_sid = 9;
        owner_mod_sid = 1;
        is_struct_promotion = false;
      }
      ∷ [];
}

abbrev sound : ModuleIr
sound = module_of (item 0 ∷ item 1 ∷ [])

sound_run : append_domain_checks sound ≡ clean
unfolding append_domain_checks each each_seen both add_if with_entry check_kits check_alias
    check_item check_component check_symbol member
sound_run = refl

same_alias :
    append_domain_checks (module_of (item 1 ∷ item 1 ∷ []))
    ≡ add kits_duplicate_alias_in_window 0 1 unknown_index
unfolding append_domain_checks each each_seen both add_if with_entry check_kits check_alias
    check_item check_component check_symbol member
same_alias = refl

sound-HasKitsRoom : HasKitsRoom sound
sound-HasKitsRoom zero k e =
    let count : 2 ≡ k.item_count = cc in let first : 0 ≡ k.first_item = cc in omega arith
sound-HasKitsRoom (suc i) k e = cc

sound-HasRoom : HasRoom sound
sound-HasRoom = record { insts = omega arith; blocks = λ i b e. cc; funcs = λ i f e. cc }

append_domain_checks_iff_example : (append_domain_checks sound ≡ clean) ↔ IsLegalDomain sound
append_domain_checks_iff_example = append_domain_checks_iff sound sound-HasKitsRoom

verify_domain_iff_example :
    (verify (some append_domain_checks) sound ≡ clean) ↔ (IsLegalDomain sound × IsWellFormed sound)
verify_domain_iff_example = verify_domain_iff sound sound-HasRoom sound-HasKitsRoom
