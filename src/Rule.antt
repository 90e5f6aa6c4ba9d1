-- ===== src/Rule.antt =====
-- The rule family: cpp/Rule.cpp.
pub mod Store
pub mod Builder
pub mod Workspace
pub mod Handles
pub mod Sessions
mod Tests
