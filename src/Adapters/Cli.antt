-- ===== src/Adapters/Cli.antt =====
-- internal/adapters/driving/cli: the command line client.
pub mod Options
pub mod Token
pub mod Render
pub mod Commands
pub mod Root
