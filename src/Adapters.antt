-- ===== src/Adapters.antt =====
-- internal/adapters: the backends, the poller that they share, and the gRPC server.
pub mod Escaping
pub mod Backend
pub mod Poll
pub mod Azure
pub mod Gcp
pub mod Bitwarden
pub mod Grpc
pub mod Cli
pub mod Stores
