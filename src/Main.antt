-- ===== src/Main.antt =====
-- cmd/vaultlet/main.go and internal/adapters/driving/grpcserver/server.go: the server, from its
-- configuration to the end of its listening.
pub mod Serving
pub mod Access
pub mod Writes
pub mod Listing
pub mod Watching
use vaultlet.Prelude.{
  ℕ, Bool, true, false, Option, none, some, List, [], ◌∷◌, Bytes, bytes_eq, codes, if◌then◌else◌,
}
use vaultlet.Errors.{Error, plain, wrap, Result, ok, err}
use vaultlet.Domain.Secret.{Time}
use vaultlet.Config.{Config, TlsConfig, UserConfig, validate, rule_specs}
use vaultlet.Config.Load.{Koanf, load}
use vaultlet.App.Policy.{Policy, new_policy}
use vaultlet.App.Service.{Service}
use vaultlet.Adapters.Backend.{Exec, ◌>>=◌, ◌>>◌, lift, wrapped}
use vaultlet.Adapters.Poll.{Wait}
use vaultlet.Adapters.Stores.Backends.{Backend, azure, gcp, bitwarden, backend_store}
use vaultlet.Adapters.Azure.Config.{Url}
use vaultlet.Adapters.Azure.Open as AzureOpen
use vaultlet.Adapters.Gcp.Open as GcpOpen
use vaultlet.Adapters.Bitwarden.Open as BitwardenOpen

-- Server of grpcserver: what the RPCs are served from.
pub record Server (W : Type 0) : Type 0 where
  pub service : Service W
  pub users : List UserConfig
  pub certificate : Bytes

-- What ends the first select of Listen: Serve returned, or the context ended.
pub data Ending : Type 0 where
  returned : Result (Unit {0}) → Ending
  interrupted : Ending

-- The libraries and the system, over the world `W`.
pub record Host (W : Type 0) : Type 1 where
  pub koanf : Koanf W
  pub azure_sdk : AzureOpen.Sdk W
  pub gcp_sdk : GcpOpen.Sdk W
  pub bitwarden_sdk : BitwardenOpen.Sdk W
  pub parse_url : Bytes → Option Url
  pub format : Time → Bytes
  -- status.Code
  pub code : Error → ℕ
  -- tls.LoadX509KeyPair
  pub load_key_pair : Bytes → Bytes → Exec W Bytes
  -- net.Listen
  pub bind : Bytes → Exec W (Unit {0})
  -- grpc's Serve, until it returns or the context ends
  pub serve : Server W → W → Ending × W
  -- GracefulStop, and whether it ends before the timeout
  pub drain : W → Bool × W
  pub stop : W → W
  -- what happens in the waits of a purge, and to a watch
  pub purge_wait : ℕ → W → Option Error × W
  pub waits : List Wait
  pub room : ℕ

-- An open store, and its Close, which Azure's has not.
pub record Opened (W : Type 0) : Type 0 where
  pub backend : Backend W
  pub close : W → W

module _ {W : Type 0} (host : Host W) where
  -- newStore
  unfoldable pub open_backend : Config → Exec W (Opened W)
  open_backend cfg =
      if bytes_eq cfg.backend (codes "bitwarden")
      then (do
        (conn, s) ← BitwardenOpen.open_store host.bitwarden_sdk host.format cfg.bitwarden
        lift (ok (record { backend = bitwarden s; close = conn.close })))
      else if bytes_eq cfg.backend (codes "azure")
      then (do
        s ← AzureOpen.open_store host.azure_sdk host.parse_url host.format cfg.azure
        lift (ok (record { backend = azure host.purge_wait s; close = λ w. w })))
      else if bytes_eq cfg.backend (codes "gcp")
      then (do
        (conn, s) ← GcpOpen.open_store host.gcp_sdk host.code cfg.gcp
        lift (ok (record { backend = gcp s; close = conn.close })))
      else lift (err (plain "unknown backend %q"))

  -- New
  unfoldable pub new_server : Service W → TlsConfig → List UserConfig → Exec W (Server W)
  new_server app tls users = do
    certificate ← host.load_key_pair tls.cert_file tls.key_file
    lift (ok (record { service = app; users = users; certificate = certificate }))

  -- Listen. What does not drain in time is stopped.
  unfoldable pub listen : Server W → Bytes → Exec W (Unit {0})
  listen server address = do
    host.bind address
    λ w.
        let (ending, v) = host.serve server w in
        elim ending [
          | returned r ↦ (r, v)
          | interrupted ↦
              let (drained, u) = host.drain v in (ok tt, if drained then u else host.stop u)
        ]

  -- The part of run behind the deferred Close.
  unfoldable pub serve_on : Backend W → Config → Exec W (Unit {0})
  unfolding new_server listen
  serve_on backend cfg = do
    policy ← wrapped (wrap "policy initialisation: %w") (lift (new_policy (rule_specs cfg.users)))
    server ← wrapped (wrap "server initialisation: %w") (
        new_server (record { store = backend_store host.waits host.room backend; policy = policy })
          cfg.tls cfg.users)
    wrapped (wrap "listen %q: %w") (listen server cfg.listen)

  abbrev pub closing : {A : Type 0} → Opened W → Exec W A → Exec W A
  closing opened body w = let (r, v) = body w in (r, opened.close v)

  unfoldable pub run : Exec W (Unit {0})
  unfolding load open_backend serve_on
  run = do
    cfg ← wrapped (wrap "load config: %w") (load host.koanf)
    wrapped (wrap "validate config: %w") (lift (validate cfg))
    opened ← wrapped (wrap "open backend %q: %w") (open_backend cfg)
    closing opened (serve_on opened.backend cfg)

-- main: the exit code for what run returns.
abbrev pub server_exit_code : Result (Unit {0}) → ℕ
server_exit_code (ok u) = 0
server_exit_code (err e) = 1
