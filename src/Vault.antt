-- ===== src/Vault.antt =====
-- The vault of credentials that are shown once (ui-manager/app/lib/one-time-vault.js).
pub mod Store
pub mod Once
pub mod Examples
