-- ===== src/Adapters/Stores.antt =====
-- The three backends as SecretStores: their methods, with Watch as the poller over their List
-- (`Watch` of internal/adapters/driven/azure/azure.go, gcp/gcp.go and bitwarden/bitwarden.go).
pub mod Ended
pub mod Keyed
pub mod Filtered
pub mod Watching
pub mod Backends
use vaultlet.Prelude.{ℕ, Option, List}
use vaultlet.Errors.{Error, Result, ok, err}
use vaultlet.Domain.Key.{Namespace}
use vaultlet.Domain.Secret.{SecretMeta}
use vaultlet.Domain.Event.{SecretEvent}
use vaultlet.Ports.{Context, SecretStore}
use vaultlet.Adapters.Poll.{Wait, poll}
use vaultlet.Adapters.Poll.Table.{Seen}
use vaultlet.Adapters.Poll.Channel.{Flow, sent_of}
use vaultlet.Adapters.Azure.Store as Azure
use vaultlet.Adapters.Gcp.Store as Gcp
use vaultlet.Adapters.Bitwarden.Store as Bitwarden

abbrev channel : Result (Flow Seen) → Result (List SecretEvent)
channel (ok flow) = ok (sent_of flow)
channel (err e) = err e

-- What the environment does to a watch: the poller's waits, and the sends that succeed.
module _ (waits : List Wait) (room : ℕ) where
  unfoldable pub watch_list :
      {W : Type 0}
      → (Context → Namespace → W → Result (List SecretMeta) × W)
      → Context
      → Namespace
      → W
      → Result (List SecretEvent) × W
  watch_list list ctx ns w = let (r, w') = poll ctx ns list waits room w in (channel r, w')

  -- `wait` is what happens in the waits of the purge loop.
  unfoldable pub azure_store :
      {W : Type 0} → (ℕ → W → Option Error × W) → Azure.Store W → SecretStore W
  azure_store wait s = record {
    get = λ ctx k. Azure.get_secret s k;
    put = λ ctx k value. Azure.put_secret s k value;
    list = λ ctx ns. Azure.list_secrets s ns;
    delete = λ ctx k. Azure.delete_secret s k wait;
    watch = watch_list (λ ctx ns. Azure.list_secrets s ns);
  }

  unfoldable pub gcp_store : {W : Type 0} → Gcp.Store W → SecretStore W
  gcp_store s = record {
    get = λ ctx k. Gcp.get_secret s k;
    put = λ ctx k value. Gcp.put_secret s k value;
    list = λ ctx ns. Gcp.list_secrets s ns;
    delete = λ ctx k. Gcp.delete_secret s k;
    watch = watch_list (λ ctx ns. Gcp.list_secrets s ns);
  }

  unfoldable pub bitwarden_store : {W : Type 0} → Bitwarden.Store W → SecretStore W
  bitwarden_store s = record {
    get = Bitwarden.get_secret s;
    put = Bitwarden.put_secret s;
    list = Bitwarden.list_secrets s;
    delete = Bitwarden.delete_secret s;
    watch = watch_list (Bitwarden.list_secrets s);
  }
