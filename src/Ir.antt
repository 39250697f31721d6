-- ===== src/Ir.antt =====
-- The flat intermediate representation (include/niki/l0_core/ir/module_ir.hpp,
-- src/l0_core/ir/module_ir.cpp) and its verifier (src/l0_core/ir/verify.cpp).
pub mod Kinds
pub mod Module
pub mod Table
pub mod Push
pub mod Row
pub mod Checks
pub mod Verify
mod Tests
