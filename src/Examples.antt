-- ===== src/Examples.antt =====
-- Runs on concrete data, one module per part of the program.
mod Cron
mod Events
mod Server
mod Pipeline
mod Plan
mod Text
mod Tasks
mod Progress
mod Editing
mod Registry
mod Hub
mod Api
mod Sites
mod Conversation
mod Runs
mod Loop
mod Paths
