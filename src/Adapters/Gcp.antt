-- ===== src/Adapters/Gcp.antt =====
-- internal/adapters/driven/gcp: secrets in Google Cloud Secret Manager.
pub mod Name
pub mod Store
pub mod Open
