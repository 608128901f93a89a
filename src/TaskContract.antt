-- ===== src/TaskContract.antt =====
-- servers/core/src/task_contract.py: the contract that a task of size M or more is worked under.
mod Tests
pub mod Frames
pub mod Provoke
pub mod Desk
pub mod Approve
pub mod Generate
