-- ===== src/Adapters/Bitwarden/Open.antt =====
-- internal/adapters/driven/bitwarden/bitwarden.go, New: the client, its login and the store. The
-- client is a parameter.
use vaultlet.Prelude.{Option, none, some, [], Bytes, bytes_eq, if◌then◌else◌}
use vaultlet.Errors.{wrap, ok, err}
use vaultlet.Domain.Secret.{Time}
use vaultlet.Adapters.Backend.{Exec, ◌>>=◌, ◌>>◌, lift, wrapped}
use vaultlet.Adapters.Bitwarden.Store.{Api, Store, Config, validate}

-- A client, its login with an access token, and the release of its handle.
pub record Connection (W : Type 0) : Type 0 where
  pub api : Api W
  pub login : Bytes → Exec W (Unit {0})
  pub close : W → W

-- sdk.NewBitwardenClient
pub record Sdk (W : Type 0) : Type 0 where
  pub new_client : Option Bytes → Option Bytes → Exec W (Connection W)

unfoldable pub optional : Bytes → Option Bytes
optional s = if bytes_eq s [] then none else some s

abbrev pub new_store : {W : Type 0} → (Time → Bytes) → Api W → Config → Store W
new_store format client cfg = record {
  client = client;
  project_id = cfg.project_id;
  org_id = cfg.org_id;
  allow_writes = cfg.allow_writes;
  format = format;
}

-- The login. Where it fails the client is closed.
unfoldable pub login_or_close : {W : Type 0} → Config → Connection W → Exec W (Unit {0})
login_or_close cfg conn w =
    let (r, w') = conn.login cfg.access_token w in
    elim r [
      | ok u ↦ (ok u, w')
      | err e ↦ (err (wrap "bitwarden: access token login: %w" e), conn.close w')
    ]

unfoldable pub open_store :
    {W : Type 0} → Sdk W → (Time → Bytes) → Config → Exec W (Connection W × Store W)
unfolding validate optional login_or_close
open_store sdk format cfg = do
  lift (validate cfg)
  conn ←
      wrapped (wrap "bitwarden: init client: %w")
        (sdk.new_client (optional cfg.api_url) (optional cfg.identity_url))
  login_or_close cfg conn
  lift (ok (conn, new_store format conn.api cfg))
