-- ===== src/Adapters/Grpc.antt =====
-- internal/adapters/driving/grpcserver.
pub mod Auth
pub mod Handlers
pub mod Logging
