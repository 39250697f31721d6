-- ===== src/Domain.antt =====
-- The checks that the domain layer appends to the verifier (src/l1_domain/validator.cpp).
pub mod Seen
pub mod Validator
pub mod Legal
pub mod Windows
pub mod Report
mod Tests
