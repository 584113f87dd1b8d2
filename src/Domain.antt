-- ===== src/Domain.antt =====
-- internal/domain: keys and namespaces, versions and secrets, events.
pub mod Key
pub mod Secret
pub mod Event
