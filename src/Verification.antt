-- ===== src/Verification.antt =====
-- servers/core/src/verification_contract.py: claims, their stages, the checker and the gate.
pub mod Stage
pub mod SubClaims
pub mod Library
pub mod Gate
pub mod Checker
mod Tests
