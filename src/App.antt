-- ===== src/App.antt =====
-- internal/app: the policy and audit layer between the handlers and the backend.
pub mod Policy
pub mod Service
