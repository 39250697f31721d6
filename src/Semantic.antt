-- ===== src/Semantic.antt =====
-- Compile-time data of the semantic phase: type handles and the pools behind them
-- (include/niki/l0_core/semantic/nktype.hpp, src/l0_core/semantic/type_arena.cpp) and the symbols
-- of the modules (src/l0_core/semantic/module_namespace.cpp).
pub mod NkType
pub mod Arena
pub mod Namespace
mod Tests
