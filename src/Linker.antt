-- ===== src/Linker.antt =====
-- The linker (src/l0_core/linker/linker_facade.cpp, include/niki/l0_core/linker/linker_facade.hpp) and
-- the chunk that it links (include/niki/l0_core/vm/chunk.hpp).
pub mod Link
pub mod Declare
pub mod Symbols
pub mod Merge
pub mod Program
mod Tests
