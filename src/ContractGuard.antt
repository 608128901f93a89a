-- ===== src/ContractGuard.antt =====
-- servers/shared/contract_guard.py: the contracts that a shell command must not break.
pub mod Words
pub mod Segments
pub mod Evaluate
pub mod Reports
pub mod Exact
pub mod Forbidden
pub mod Calls
pub mod Targets
pub mod Reflect
pub mod Switching
pub mod Judged
pub mod Agrees
pub mod Complete
mod Tests
