-- ===== src/Lower.antt =====
-- The lowering of the intermediate representation to bytecode (src/l0_core/ir/lower_to_chunk.cpp).
pub mod Writer
pub mod Inst
pub mod Direct
pub mod Function
pub mod Layout
pub mod Emit
pub mod Keeps
pub mod Cases
pub mod Blocks
pub mod Patch
pub mod Aim
pub mod Landing
pub mod Patches
pub mod Edges
pub mod Recorded
pub mod Correct
pub mod Failure
mod Operands
pub mod Fetches
mod Tests
