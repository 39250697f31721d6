-- ===== src/Vm.antt =====
-- The virtual machine (src/l0_core/vm/vm.cpp).
pub mod Fetch
pub mod Int64
pub mod State
pub mod Numbers
pub mod Bits
pub mod Objects
mod Keys
pub mod Control
pub mod Run
pub mod Launch
mod Safe
mod Limits
mod Depth
pub mod Stays
pub mod Reads
pub mod Launches
pub mod Sequence
pub mod Calls
pub mod Operands
pub mod Int64Laws
pub mod Compare
mod Tests
