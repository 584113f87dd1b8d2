-- ===== src/Adapters/Azure.antt =====
-- internal/adapters/driven/azure: secrets in Azure Key Vault.
pub mod Name
pub mod Store
pub mod Config
pub mod Open
