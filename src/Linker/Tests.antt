-- ===== src/Linker/Tests.antt =====
-- Runs of the linker on small programs, and its theorems at them.
use niki.Prelude.{ℕ, ◌≡◌, ◌↔◌, refl, bytes_eq, List, [], ◌∷◌}
use niki.Pool.Ids.{IsDistinct}
use niki.Pool.Mapped.{lookup, ensure}
use niki.Pool.Strings.{Bytes, codes, intern_all}
use niki.Linker.Link.{
  CompileModule, LinkOptions, LinkedProgram, linked, failed, duplicate_in_module,
  duplicate_exported, entry_not_found, name_at, defined_symbols, merged_string_pool,
  declare_in_module, declare_exported, resolve_entry, declare_all, declare_modules, link_errors,
  link,
}
use niki.Linker.Merge.{Occurs, HasText, merged_pool, merged_string_pool_lem}
use niki.Linker.Program.{IsLinked, link_iff}

-- A module that exports the first name of its pool.
abbrev compiled : ℕ → List Bytes → CompileModule ℕ
compiled id pool = record {
  module_id = id;
  module_name = codes "m";
  source_path = codes "m.nk";
  init_chunk = record {
    module_id = id;
    code = [];
    constants = [];
    lines = [];
    columns = [];
    string_pool = pool;
    max_register_slots = 0;
  };
  exports = (0, 0) ∷ [];
  exported_symbols = [];
}

abbrev helper : CompileModule ℕ
helper = compiled 3 (codes "help" ∷ codes "int" ∷ [])

abbrev start : CompileModule ℕ
start = compiled 4 (codes "main" ∷ codes "int" ∷ codes "help" ∷ [])

abbrev options : LinkOptions
options = record { entry_name = codes "main" }

abbrev program : LinkedProgram ℕ
program = record {
  init_chunks = helper.init_chunk ∷ start.init_chunk ∷ [];
  entry_name_id = 0;
  entry_module_id = 4;
  string_pool = codes "help" ∷ codes "int" ∷ codes "main" ∷ [];
}

two_modules : link options (helper ∷ start ∷ []) ≡ linked program
unfolding link link_errors declare_modules declare_all resolve_entry declare_exported
    declare_in_module merged_string_pool defined_symbols name_at intern_all ensure lookup bytes_eq
two_modules = refl

same_name :
    link options (helper ∷ helper ∷ [])
    ≡ failed (
        duplicate_in_module (codes "help") (codes "m.nk")
        ∷ duplicate_exported (codes "help") (codes "m.nk") (codes "m.nk")
        ∷ entry_not_found (codes "main")
        ∷ [])
unfolding link link_errors declare_modules declare_all resolve_entry declare_exported
    declare_in_module merged_string_pool defined_symbols name_at intern_all ensure lookup bytes_eq
same_name = refl

link_iff_example :
    (link options (helper ∷ start ∷ []) ≡ linked program)
    ↔ IsLinked options (helper ∷ start ∷ []) program
link_iff_example = link_iff options (helper ∷ start ∷ []) program

merged_string_pool_lem_example :
    IsDistinct (merged_pool (helper ∷ start ∷ []))
    × ((text : Bytes)
        → Occurs text (merged_pool (helper ∷ start ∷ [])) ↔ HasText text (helper ∷ start ∷ []))
merged_string_pool_lem_example = merged_string_pool_lem (helper ∷ start ∷ [])
