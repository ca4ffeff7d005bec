-- ===== src/Agent.antt =====
-- The agent runner, agent/src.
pub mod Config
pub mod State
pub mod Schedule
pub mod Strategies
pub mod System
pub mod Env
pub mod Orca
pub mod Swap
pub mod Runner
pub mod Loop
pub mod Protocol
pub mod Refine
pub mod Invariants
pub mod Fleet
pub mod Backup
pub mod Files
pub mod Lock
pub mod Process
pub mod Tests
