-- ===== src/Pool.antt =====
-- Interning tables: a sequence in which the index of an entry is its id. The program keeps four of
-- them: `ModuleIR::intern` (src/l0_core/ir/module_ir.cpp), `TypeArena`
-- (src/l0_core/semantic/type_arena.cpp), `StringInterner` (src/l0_core/syntax/string_interner.cpp)
-- and `ModuleIdAllocator` (src/l0_core/semantic/module_id.cpp).
pub mod Search
pub mod Ids
pub mod Mapped
pub mod Strings
mod Tests
