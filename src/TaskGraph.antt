-- ===== src/TaskGraph.antt =====
-- servers/core/src/graph.py: the task graph.
pub mod Cycle
pub mod Store
pub mod Create
pub mod Gates
pub mod Rows
pub mod Valid
pub mod Steps
pub mod Reach
pub mod Next
pub mod Progress
pub mod Effects
pub mod Accept
mod Tests
