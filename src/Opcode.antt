-- ===== src/Opcode.antt =====
-- The instruction set of the virtual machine: its opcodes, their classes and which of them run.
pub mod Code
pub mod Class
pub mod Capability
pub mod Laws
mod Tests
