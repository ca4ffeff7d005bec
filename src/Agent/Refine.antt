-- ===== src/Agent/Refine.antt =====
-- The methods of agent/src/agent.ts in terms of the machine of Protocol.
pub mod Rules
pub mod Marks
pub mod Sends
pub mod Swaps
pub mod Trades
pub mod Settles
pub mod Ticks
pub mod Offers
pub mod Draws
