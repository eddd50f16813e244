-- ===== src/Tests.antt =====
-- Runs on concrete inputs, and an instance of each theorem that has hypotheses.
pub mod Fixtures
pub mod Guards
pub mod Access
pub mod Stores
pub mod Resolutions
pub mod Runs
pub mod Vault
pub mod Settings
pub mod Connectors
pub mod Requests
pub mod Hosts
pub mod Signatures
pub mod Reports
