-- ===== src/Tests.antt =====
-- Concrete servers and databases, and the theorems applied to them.
mod Fixtures
mod Flows
mod Logins
mod Refreshes
mod Codes
mod Runs
mod Accounts
mod Verified
mod Purges
mod Proxies
mod Configs
mod Sealing
mod Keys
