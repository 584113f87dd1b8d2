-- ===== src/Adapters/Azure/Config.antt =====
-- internal/adapters/driven/azure/config.go. What url.Parse makes of a text is a parameter.
use vaultlet.Prelude.{
  ◌≡◌, ◌≤◌, arith, ℕ, ◌+◌, Bool, false, not, ◌&&◌, ◌||◌, Option, none, some, List, [], ◌∷◌, Bytes,
  bytes_eq, codes, ◌==◌, if◌then◌else◌,
}
use vaultlet.Integers.{ℤ, pos, is_zero, below, reaches}
use vaultlet.Errors.{Result, ok, err, plain}
use vaultlet.Domain.Secret.{Time}

pub record Config : Type 0 where
  pub vault_url : Bytes
  pub tenant_id : Bytes
  pub client_id : Bytes
  pub client_secret : Bytes
  pub poll_interval : ℤ
  pub allow_writes : Bool
  pub purge_on_delete : Bool

abbrev pub min_poll_interval : Time
min_poll_interval = 1000000000

-- The part of a url.URL that is read.
pub record Url : Type 0 where
  pub scheme : Bytes
  pub host : Bytes

-- The loop that counts what is set.
unfoldable pub count_set : List Bytes → ℕ
count_set [] = 0
count_set (v ∷ vs) = let rest = count_set vs in if bytes_eq v [] then rest else rest + 1

abbrev pub https_url : Option Url → Bool
https_url none = false
https_url (some u) = bytes_eq u.scheme (codes "https") && not (bytes_eq u.host [])

unfoldable pub validate : (Bytes → Option Url) → Config → Result (Unit {0})
unfolding count_set
validate parse_url c =
    let set = count_set (c.tenant_id ∷ c.client_id ∷ c.client_secret ∷ []) in
    if bytes_eq c.vault_url []
    then err (plain "azure: vault_url required")
    else if not (https_url (parse_url c.vault_url))
    then err (plain "azure: vault_url must be an https URL")
    else if not (set == 0) && not (set == 3)
    then err (plain "azure: tenant_id, client_id and client_secret must be set together")
    else if is_zero c.poll_interval
    then err (plain "azure: poll_interval required")
    else if below c.poll_interval min_poll_interval
    then err (plain "azure: poll_interval must be at least %s")
    else ok tt

unfoldable pub explicit_credentials : Config → Bool
explicit_credentials c =
    not (bytes_eq c.tenant_id [])
    && not (bytes_eq c.client_id [])
    && not (bytes_eq c.client_secret [])

-- A configuration that Validate accepts logs in with a service principal exactly if any one of its
-- three parts is set; its poll interval is at least a second.
pub validate-explicit_credentials :
    (parse_url : Bytes → Option Url) (c : Config)
    → validate parse_url c ≡ ok tt
    → (explicit_credentials c ≡ (
        not (bytes_eq c.tenant_id [])
        || not (bytes_eq c.client_id [])
        || not (bytes_eq c.client_secret [])))
      × ((n : ℕ) × (c.poll_interval ≡ pos n) × (min_poll_interval ≤ n))
unfolding validate count_set explicit_credentials
validate-explicit_credentials parse_url c h =
    (ground arith, reaches c.poll_interval min_poll_interval (ground arith))
