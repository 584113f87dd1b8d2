-- ===== src/Adapters/Gcp/Open.antt =====
-- internal/adapters/driven/gcp/gcp.go, New and the draining of the client's iterator. The client is
-- a parameter.
use vaultlet.Prelude.{ℕ, Option, none, some, List, [], ◌∷◌, ◌++◌, Bytes, bytes_eq, if◌then◌else◌}
use vaultlet.Errors.{Error, wrap, Result, ok, err}
use vaultlet.Adapters.Backend.{Exec, ◌>>=◌, ◌>>◌, lift, wrapped}
use vaultlet.Adapters.Gcp.Store.{Api, Store, Config, Resource, validate, new_store}

-- What Next of the iterator returns: a secret, iterator.Done, or another error.
pub data Step : Type 0 where
  item : Resource → Step
  done : Step
  failed : Error → Step

-- The loop of sdkClient.ListSecrets over the answers of Next. Without an answer it waits.
unfoldable pub drain : List Step → List Resource → Option (Result (List Resource))
drain [] out = none
drain (item sec ∷ steps) out = drain steps (out ++ sec ∷ [])
drain (done ∷ steps) out = some (ok out)
drain (failed e ∷ steps) out = some (err e)

-- A client, and the closing of its connections, whose error is only logged.
pub record Connection (W : Type 0) : Type 0 where
  pub api : Api W
  pub close : W → W

-- secretmanager.NewClient, with the file of credentials if there is one.
pub record Sdk (W : Type 0) : Type 0 where
  pub new_client : Option Bytes → Exec W (Connection W)

unfoldable pub open_store :
    {W : Type 0} → Sdk W → (Error → ℕ) → Config → Exec W (Connection W × Store W)
unfolding validate
open_store sdk code cfg = do
  lift (validate cfg)
  conn ← wrapped (wrap "gcp: init client: %w") (
      sdk.new_client (if bytes_eq cfg.credentials_file [] then none else some cfg.credentials_file))
  lift (ok (conn, new_store conn.api code cfg))
