-- ===== src/App.antt =====
-- app: the site.
pub mod RateLimit
pub mod WaitlistExport
pub mod Faucet
pub mod Csv
pub mod Accounts
pub mod Snapshots
pub mod Actions
pub mod Stats
pub mod WaitlistStore
mod Tests
