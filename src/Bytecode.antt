-- ===== src/Bytecode.antt =====
-- The bytes of a chunk: how the lowering writes them (src/l0_core/ir/lower_to_chunk.cpp) and how the
-- virtual machine reads operands (src/l0_core/vm/vm.cpp).
pub mod Stream
pub mod Operand
mod Tests
