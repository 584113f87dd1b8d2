-- ===== src/Tests/Access.antt =====
-- A secret that leaves the server.
use vaultlet.Prelude.{
  ℕ, some, none, List, [], ◌∷◌, Bytes, Any, bytes_eq, codes, ◌≡◌, ◌≢◌, refl, filter, arith, sym,
  ◌∙◌,
}
use vaultlet.Errors.{ok}
use vaultlet.Strings.{trim, trim_left, split, extend, last_index, cut, cut_prefix}
use vaultlet.Base64.{decode, decode_quanta, value}
use vaultlet.Regex.{matches, deriv, nullable, in_class}
use vaultlet.Config.{UserConfig, rule_specs, user_specs}
use vaultlet.Config.Granting.{IsGranted}
use vaultlet.Domain.Key.{
  Key, zero_namespace, contains, same_segments, parse_key, parse_key_at, parse_namespace,
  check_segments, bad_segment, bad_name, segment_re, name_re,
}
use vaultlet.Domain.Secret.{Secret}
use vaultlet.App.Policy.{
  Policy, get, put, allows, rules_of, allows_by, grants, action_eq, new_policy, compile,
  compile_rule, compile_namespace, compile_actions, action_named, append_rule,
}
use vaultlet.App.Service.{Service, State, as_store, guarded, audit, with_principal}
use vaultlet.App.Service
use vaultlet.Adapters.Grpc.Auth.{
  reply, with_auth, authenticate, check_token, check_credentials, check_password, users_by_name,
}
use vaultlet.Adapters.Grpc.Auth.Answers.{Proves}
use vaultlet.Adapters.Grpc.Handlers.{get_secret, put_secret, wire_secret, wire_meta}
use vaultlet.Main.Writes.{Write, put_rpc, behind, behind-IsGranted}
use vaultlet.Main.Access.{get_secret-IsGranted}
use vaultlet.Tests.Samples.{counting, secret_db_url}
use vaultlet.Tests.Service.{idle}
use vaultlet.Tests.Rpc.{users, rpc}

abbrev configured : Policy
configured = (codes "alice", record { namespace = zero_namespace; actions = get ∷ [] } ∷ []) ∷ []

compiles : new_policy (rule_specs users) ≡ ok configured
unfolding new_policy compile compile_rule compile_namespace compile_actions action_named append_rule
    rule_specs user_specs bytes_eq
compiles = refl

abbrev service : Service ℕ
service = record { store = counting; policy = configured }

alice_gets :
    with_auth bytes_eq users
      (get_secret (as_store 3 service) (codes "payments/prod/DB_URL"))
      rpc
      idle
    ≡ (
      reply (wire_secret secret_db_url),
      (with_auth bytes_eq users
          (get_secret (as_store 3 service) (codes "payments/prod/DB_URL"))
          rpc
          idle).1,
    )
unfolding with_auth authenticate check_token check_credentials check_password users_by_name
    with_principal decode decode_quanta value get_secret wire_meta as_store Service.get_secret
    guarded audit allows rules_of allows_by grants action_eq contains same_segments parse_key
    parse_key_at parse_namespace check_segments bad_segment bad_name segment_re name_re matches
    deriv nullable in_class trim trim_left split extend last_index cut cut_prefix bytes_eq filter
alice_gets = refl

get_secret-IsGranted_example :
    (auth who : Bytes) × (rest : List Bytes) × (k : Key) × (secret : Secret) × (rpc.authorization
      ≡ some (auth ∷ rest))
    × Proves bytes_eq users auth who
    × (parse_key (codes "payments/prod/DB_URL") ≡ ok k)
    × Any (IsGranted who get k.ns) users
    × ((counting.get (record { principal = some who; done = none }) k 0).0 ≡ ok secret)
    × (wire_secret secret_db_url ≡ wire_secret secret)
get_secret-IsGranted_example =
    get_secret-IsGranted service 3 bytes_eq users rpc (codes "payments/prod/DB_URL") idle _
      (wire_secret secret_db_url) compiles alice_gets

-- Alice may put here.
abbrev writers : List UserConfig
writers =
    record {
      username = codes "alice";
      password_hash = codes "pw";
      allow = record { namespace = codes "*"; actions = codes "put" ∷ [] } ∷ [];
    }
    ∷ []

abbrev writing : Service ℕ
writing = record {
  store = counting;
  policy = (codes "alice", record { namespace = zero_namespace; actions = put ∷ [] } ∷ []) ∷ [];
}

writing_compiles : new_policy (rule_specs writers) ≡ ok writing.policy
unfolding new_policy compile compile_rule compile_namespace compile_actions action_named append_rule
    rule_specs user_specs bytes_eq
writing_compiles = refl

abbrev write : Write
write =
    put_rpc
      (record { key = codes "payments/prod/DB_URL"; value = codes "y"; expected_version = none })

alice_puts : (behind writing 3 bytes_eq writers write rpc idle).world ≡ 1
unfolding behind with_auth authenticate check_token check_credentials check_password users_by_name
    with_principal decode decode_quanta value put_secret as_store Service.put_secret guarded audit
    allows rules_of allows_by grants action_eq contains same_segments parse_key parse_key_at
    parse_namespace check_segments bad_segment bad_name segment_re name_re matches deriv nullable
    in_class trim trim_left split extend last_index cut cut_prefix bytes_eq filter
alice_puts = refl

one_not_zero : ◌≢◌ {A = ℕ} 1 0
one_not_zero h = omega (arith, h)

alice_changes : (behind writing 3 bytes_eq writers write rpc idle).world ≢ idle.world
alice_changes = λ h. one_not_zero (sym alice_puts ∙ h)

behind-IsGranted_example :
    (auth who : Bytes) × (rest : List Bytes) × (k : Key) × (rpc.authorization ≡ some (auth ∷ rest))
    × Proves bytes_eq writers auth who
    × (parse_key (codes "payments/prod/DB_URL") ≡ ok k)
    × Any (IsGranted who put k.ns) writers
behind-IsGranted_example =
    behind-IsGranted writing 3 bytes_eq writers write rpc idle writing_compiles alice_changes
