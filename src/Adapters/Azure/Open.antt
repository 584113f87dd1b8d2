-- ===== src/Adapters/Azure/Open.antt =====
-- internal/adapters/driven/azure/azure.go, New: the credential, the client and the store. The
-- credentials and the client are made by a library, which is a parameter.
use vaultlet.Prelude.{Option, Bytes, if◌then◌else◌}
use vaultlet.Errors.{wrap, ok}
use vaultlet.Domain.Secret.{Time}
use vaultlet.Adapters.Backend.{Exec, ◌>>=◌, ◌>>◌, lift, wrapped}
use vaultlet.Adapters.Azure.Config.{Config, Url, validate, explicit_credentials}
use vaultlet.Adapters.Azure.Store.{Api, Store}

-- azidentity and azsecrets, over the world `W`.
pub record Sdk (W : Type 0) : Type 1 where
  pub Credential : Type 0
  pub client_secret_credential : Bytes → Bytes → Bytes → Exec W Credential
  pub default_credential : Exec W Credential
  pub new_client : Bytes → Credential → Exec W (Api W)

abbrev pub new_store : {W : Type 0} → (Time → Bytes) → Api W → Config → Store W
new_store format client cfg = record {
  client = client;
  allow_writes = cfg.allow_writes;
  purge_on_delete = cfg.purge_on_delete;
  format = format;
}

module _ {W : Type 0} (sdk : Sdk W) (parse_url : Bytes → Option Url) (format : Time → Bytes) where
  unfoldable pub credential : Config → Exec W sdk.Credential
  unfolding explicit_credentials
  credential cfg =
      if explicit_credentials cfg
      then sdk.client_secret_credential cfg.tenant_id cfg.client_id cfg.client_secret
      else sdk.default_credential

  unfoldable pub open_store : Config → Exec W (Store W)
  unfolding validate credential
  open_store cfg = do
    lift (validate parse_url cfg)
    cred ← wrapped (wrap "azure: credentials: %w") (credential cfg)
    client ← wrapped (wrap "azure: init client: %w") (sdk.new_client cfg.vault_url cred)
    lift (ok (new_store format client cfg))
