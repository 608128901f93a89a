-- ===== src/Routing.antt =====
-- servers/core/src/routing.py: the size of a task, scope escalation and the routing decision.
pub mod Size
pub mod Escalation
pub mod Decision
pub mod Route
mod Tests
