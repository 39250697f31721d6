-- ===== src/Diagnostic.antt =====
-- The diagnostics: codes, events and the bag that collects them
-- (src/l0_core/diagnostic/diagnostic.cpp).
pub mod Code
pub mod Bag
pub mod Session
mod Tests
