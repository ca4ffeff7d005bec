-- ===== src/Agent/Invariants.antt =====
-- Properties of the ticks of agent/src/agent.ts, by induction on the steps of their machine.
pub mod Sent
pub mod Limits
pub mod History
pub mod Partial
