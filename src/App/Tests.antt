-- ===== src/App/Tests.antt =====
-- The theorems on app at concrete inputs.
mod Paying
mod Exporting
mod Caching
mod Acting
mod Limiting
