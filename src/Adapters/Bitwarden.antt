-- ===== src/Adapters/Bitwarden.antt =====
-- internal/adapters/driven/bitwarden.
pub mod Store
pub mod Open
