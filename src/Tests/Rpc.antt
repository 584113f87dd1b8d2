-- ===== src/Tests/Rpc.antt =====
-- Authentication and the handlers at concrete inputs.
use vaultlet.Integers.{pos}
use vaultlet.Prelude.{
  ℕ, suc, false, Option, none, some, List, [], ◌∷◌, ◌++◌, Bytes, codes, bytes_eq, take, replicate,
  ◌≡◌, ◌≢◌, ◌↔◌, ◌⊎◌, refl, All,
}
use vaultlet.Config.{
  UserAllowConfig, UserConfig, Config, rule_specs, validate, validate_users, validate_user,
  validate_rules,
}
use vaultlet.Config.Specs.{IsNamed, validate-rule_specs}
use vaultlet.Ports.{Context}
use vaultlet.App.Service.{as_store}
use vaultlet.App.Service.Audited.{put_call}
use vaultlet.Domain.Event.{SecretEvent, added, in_sync_event}
use vaultlet.Adapters.Grpc.Auth.{
  Answer, reply, fail, unauthenticated_error, authenticate, with_auth, Incoming,
}
use vaultlet.Adapters.Grpc.Auth.Answers.{Proves, authenticate_iff, with_auth-cases}
use vaultlet.Adapters.Grpc.Handlers.{
  sent, broken, send_all, internal_status, denied_status, read_only_status,
}
use vaultlet.Adapters.Grpc.Handlers.Sending.{wire_events, send_all_broken}
use vaultlet.Adapters.Grpc.Handlers.Refusals.{Fails, put_request, noted, handlers_denied}
use vaultlet.Domain.Key.{zero_namespace, contains, same_segments}
use vaultlet.App.Policy.{Policy, put, allows, rules_of, allows_by, grants, action_eq}
use vaultlet.Adapters.Stores.Backends
use vaultlet.Adapters.Stores.Backends.{backend_store, accepts_writes}
use vaultlet.Adapters.Stores.Backends.ReadOnly.{
  put_write, live_as, with_line, failed_line, handlers_read_only,
}
use vaultlet.Tests.Listings.{store}
use vaultlet.Tests.Samples.{db_url, parse_db_url, meta_db_url, nobody}
use vaultlet.Tests.Service.{service, idle}

-- Passwords that are their own hashes; the credentials are alice:pw in base64.
abbrev rule : UserAllowConfig
rule = record { namespace = codes "*"; actions = codes "get" ∷ [] }

abbrev pub alice_user : UserConfig
alice_user = record { username = codes "alice"; password_hash = codes "pw"; allow = rule ∷ [] }

abbrev pub users : List UserConfig
users = alice_user ∷ []

authenticate_iff_example :
    (authenticate bytes_eq users (some (codes "Basic YWxpY2U6cHc=" ∷ [])) ≡ reply (codes "alice"))
    ↔ ((auth : Bytes) × (rest : List Bytes) × (some (codes "Basic YWxpY2U6cHc=" ∷ [])
          ≡ some (auth ∷ rest))
        × Proves bytes_eq users auth (codes "alice"))
authenticate_iff_example =
    authenticate_iff bytes_eq users (some (codes "Basic YWxpY2U6cHc=" ∷ [])) (codes "alice")

abbrev whoami : Context → ℕ → Answer (Option Bytes) × ℕ
whoami ctx w = (reply ctx.principal, suc w)

abbrev pub rpc : Incoming
rpc = record { authorization = some (codes "Basic YWxpY2U6cHc=" ∷ []); ctx = nobody }

with_auth-cases_example :
    (with_auth bytes_eq users whoami rpc 0 ≡ (fail unauthenticated_error, 0))
    ⊎ ((auth who : Bytes) × (rest : List Bytes) × (rpc.authorization ≡ some (auth ∷ rest))
        × (with_auth bytes_eq users whoami rpc 0
            ≡ whoami (record { principal = some who; done = none }) 0)
        × Proves bytes_eq users auth who)
with_auth-cases_example = with_auth-cases bytes_eq users whoami rpc 0

handlers_denied_example :
    Fails
      (as_store 3 service)
      (put_request (codes "y"))
      (codes "payments/prod/DB_URL")
      nobody
      denied_status
      idle
      (noted service 3 nobody (put_call db_url (codes "y")) idle)
handlers_denied_example =
    handlers_denied service 3 nobody (put_request (codes "y")) (codes "payments/prod/DB_URL") db_url
      idle parse_db_url refl

abbrev two_events : List SecretEvent
two_events = record { type = added; meta = meta_db_url } ∷ in_sync_event ∷ []

send_all_broken_example :
    send_all (replicate 1 sent ++ broken false ∷ []) two_events
    ≡ (fail internal_status, wire_events (take 1 two_events))
send_all_broken_example = send_all_broken 1 false [] two_events

abbrev pub config : Config
config = record {
  listen = codes ":50051";
  backend = codes "gcp";
  bitwarden = record {
    api_url = [];
    org_id = [];
    identity_url = [];
    project_id = [];
    access_token = [];
    poll_interval = pos 0;
    allow_writes = false;
  };
  azure = record {
    vault_url = [];
    tenant_id = [];
    client_id = [];
    client_secret = [];
    poll_interval = pos 0;
    allow_writes = false;
    purge_on_delete = false;
  };
  gcp = record {
    project_id = codes "p";
    credentials_file = [];
    poll_interval = pos 2000000000;
    allow_writes = false;
  };
  tls = record { cert_file = codes "c"; key_file = codes "k" };
  users = users;
}

validate-rule_specs_example :
    All IsNamed (rule_specs users) × All (λ (u : UserConfig). u.password_hash ≢ []) users
validate-rule_specs_example =
    validate-rule_specs config
      (unfold validate validate_users validate_user validate_rules bytes_eq in refl)

-- Alice may write, and the backend does not accept it.
abbrev writer : Policy
writer = (codes "alice", record { namespace = zero_namespace; actions = put ∷ [] } ∷ []) ∷ []

handlers_read_only_example :
    Fails
      (as_store 3 (record { store = backend_store [] 3 (Backends.gcp store); policy = writer }))
      (put_request (codes "y"))
      (codes "payments/prod/DB_URL")
      (live_as (codes "alice"))
      read_only_status
      idle
      (with_line (failed_line put (codes "alice") db_url) idle)
handlers_read_only_example =
    handlers_read_only (Backends.gcp store) [] 3 writer (put_write (codes "y")) (codes "alice")
      (codes "payments/prod/DB_URL") db_url idle (unfold accepts_writes in refl) parse_db_url
      (unfold allows rules_of allows_by grants action_eq contains same_segments bytes_eq in refl)
