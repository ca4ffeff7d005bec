-- ===== src/Sdk.antt =====
-- sdk/src: the runner that operators run beside their own bot.
pub mod Client
pub mod Settle
pub mod Schedule
pub mod Send
pub mod Runner
pub mod Args
mod Tests
