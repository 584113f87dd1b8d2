-- ===== src/Tests.antt =====
-- Runs of the definitions on concrete inputs, and the theorems at concrete inputs.
mod Samples
mod Domain
mod Policy
mod Service
mod Names
mod Polling
mod Backends
mod Listings
mod Rpc
mod Writes
mod Cli
mod Watching
mod Running
mod Access
mod Showing
mod Keeping
