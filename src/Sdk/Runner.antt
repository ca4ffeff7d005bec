-- ===== src/Sdk/Runner.antt =====
-- The `Runner` of sdk/src/runner.ts, by what its parts are about.
pub mod State
pub mod Calls
pub mod Watch
pub mod Hook
pub mod Tick
pub mod Loop
pub mod Rules
pub mod Quiet
pub mod Does
pub mod Watched
pub mod Hooks
pub mod Waits
pub mod Books
pub mod Steps
pub mod Opens
pub mod Ticks
pub mod Rounds
pub mod History
pub mod Sound
pub mod Trades
pub mod SoundRounds
pub mod Sure
pub mod Settles
