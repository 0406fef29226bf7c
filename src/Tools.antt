-- ===== src/Tools.antt =====
-- The parts of tools/ that edit text and keep the registry of tools.
pub mod Editing
pub mod Registry
pub mod Executor
pub mod Approval
pub mod Tables
pub mod Paths
