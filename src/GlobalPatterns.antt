-- ===== src/GlobalPatterns.antt =====
-- The global pattern store: servers/shared/pattern_entry.py, effective_patterns of
-- servers/shared/contracts.py, servers/core/src/pattern_promotion.py and global_contracts.py.
pub mod Entry
pub mod Rows
pub mod Store
pub mod Latest
pub mod Retired
pub mod Safe
pub mod Shared
mod Tests
