-- ===== src/Brain.antt =====
-- brain/: the worker of a site, which plans, builds, checks and monitors it.
pub mod Pipeline
pub mod Plan
pub mod Json
pub mod Jobs
pub mod Scheduler
pub mod Progress
pub mod Tasks
pub mod Messages
pub mod Manager
pub mod Loop
