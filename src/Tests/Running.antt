-- ===== src/Tests/Running.antt =====
-- A run of the server in a small world.
use vaultlet.Prelude.{
  ℕ, suc, true, false, All, Any, none, [], Bytes, bytes_eq, codes, ◌≡◌, ◌≢◌, ◌↔◌, refl,
}
use vaultlet.Errors.{response, ok, err, plain}
use vaultlet.Config.{
  Config, UserConfig, validate, validate_users, validate_user, validate_rules, rule_specs,
  user_specs,
}
use vaultlet.Domain.Key.{Namespace}
use vaultlet.App.Policy.{
  Action, allows, new_policy, compile, compile_rule, compile_namespace, compile_actions,
  action_named, append_rule,
}
use vaultlet.Adapters.Gcp.Store
use vaultlet.Adapters.Gcp.Open as GcpOpen
use vaultlet.Adapters.Azure.Open as AzureOpen
use vaultlet.Adapters.Stores.Backends.{backend_store}
use vaultlet.Main.{
  Host, Server, Opened, interrupted, open_backend, new_server, listen, serve_on, run,
}
use vaultlet.Config.Load.{Koanf, load, optional_layer, env_key, to_lower, replace_underscores}
use vaultlet.Strings.{cut_prefix}
use vaultlet.Config.Granting.{IsGranted}
use vaultlet.Main.Serving.{run-Listens}
use vaultlet.Tests.Listings.{project}
use vaultlet.Tests.Rpc.{config}

abbrev no_azure : AzureOpen.Sdk ℕ
no_azure = record {
  Credential = Unit;
  client_secret_credential = λ tenant id secret w. (err (plain "no azure"), w);
  default_credential = λ w. (err (plain "no azure"), w);
  new_client = λ url c w. (err (plain "no azure"), w);
}

-- There is no .env; the whole configuration is in the file.
abbrev layered : Koanf ℕ
layered = record {
  Keys = Config;
  new = config;
  load_yaml = λ name keys w. (ok config, suc w);
  load_dotenv = λ name prefix key keys w. (err (response 2), w);
  load_env = λ prefix key keys w. (ok keys, w);
  unmarshal = λ keys. ok keys;
  is_not_exist = λ e. true;
}

env_key_cert : env_key (codes "VAULTLET_TLS__CERT_FILE") ≡ codes "tls.cert_file"
unfolding env_key to_lower replace_underscores cut_prefix
env_key_cert = refl

-- It is interrupted, does not drain in time and is stopped. The world counts.
abbrev host : Host ℕ
host = record {
  koanf = layered;
  azure_sdk = no_azure;
  gcp_sdk = record { new_client = λ file w. (ok (record { api = project; close = suc }), suc w) };
  bitwarden_sdk = record { new_client = λ url id w. (err (plain "no bitwarden"), w) };
  parse_url = λ url. none;
  format = λ t. codes "t";
  code = λ e. 2;
  load_key_pair = λ cert key w. (ok cert, suc w);
  bind = λ address w. (ok tt, suc w);
  serve = λ server w. (interrupted, suc w);
  drain = λ w. (false, suc w);
  stop = suc;
  purge_wait = λ n w. (none, w);
  waits = [];
  room = 0;
}

run_ends : run host 0 ≡ (ok tt, 8)
unfolding run load optional_layer validate validate_users validate_user validate_rules open_backend
    GcpOpen.open_store Store.validate serve_on new_policy compile compile_rule compile_namespace
    compile_actions action_named append_rule rule_specs user_specs new_server listen bytes_eq
run_ends = refl

run-Listens_example :
    (cfg : Config) × (opened : Opened ℕ) × (server : Server ℕ) × (v x : ℕ) × ((load host.koanf 0).0
      ≡ ok cfg)
    × ((open_backend host cfg (load host.koanf 0).1).0 ≡ ok opened)
    × (server.service.store ≡ backend_store host.waits host.room opened.backend)
    × (listen host server cfg.listen v ≡ (ok tt, x))
    × (opened.close x ≡ 8)
    × (server.users ≡ cfg.users)
    × All (λ (user : UserConfig). user.password_hash ≢ []) cfg.users
    × ((who : Bytes) (action : Action) (ns : Namespace)
        → (allows server.service.policy who action ns ≡ true)
          ↔ Any (IsGranted who action ns) cfg.users)
run-Listens_example = run-Listens host 0 8 run_ends
