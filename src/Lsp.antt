-- ===== src/Lsp.antt =====
-- crates/fortis-lsp: the Lightning service provider's custodial accounts.
pub mod Records
pub mod Ledger
pub mod Conversion
pub mod Held
pub mod Directory
pub mod Auth
pub mod Accounts
