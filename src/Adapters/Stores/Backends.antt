-- ===== src/Adapters/Stores/Backends.antt =====
-- The backend that the server is opened on: one of three stores behind ports.SecretStore.
pub mod Listed
pub mod ReadOnly
pub mod Keeping
use vaultlet.Prelude.{ℕ, Bool, Option, List}
use vaultlet.Errors.{Error}
use vaultlet.Ports.{SecretStore}
use vaultlet.Adapters.Poll.{Wait}
use vaultlet.Adapters.Stores.{azure_store, gcp_store, bitwarden_store}
use vaultlet.Adapters.Azure.Store as Azure
use vaultlet.Adapters.Gcp.Store as Gcp
use vaultlet.Adapters.Bitwarden.Store as Bitwarden

-- The dynamic type of the interface value. What happens in the waits of Azure's purge loop is a part
-- of the environment.
pub data Backend (W : Type 0) : Type 0 where
  azure : (ℕ → W → Option Error × W) → Azure.Store W → Backend W
  gcp : Gcp.Store W → Backend W
  bitwarden : Bitwarden.Store W → Backend W

unfoldable pub backend_store : {W : Type 0} → List Wait → ℕ → Backend W → SecretStore W
backend_store waits room (azure wait s) = azure_store waits room wait s
backend_store waits room (gcp s) = gcp_store waits room s
backend_store waits room (bitwarden s) = bitwarden_store waits room s

unfoldable pub accepts_writes : {W : Type 0} → Backend W → Bool
accepts_writes (azure wait s) = s.allow_writes
accepts_writes (gcp s) = s.allow_writes
accepts_writes (bitwarden s) = s.allow_writes
