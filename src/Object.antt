-- ===== src/Object.antt =====
-- The values, the heap objects and the maps of the virtual machine.
pub mod Value
pub mod Map
pub mod Array
pub mod MapLaws
pub mod ArrayLaws
mod Tests
