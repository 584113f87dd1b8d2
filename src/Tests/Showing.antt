-- ===== src/Tests/Showing.antt =====
-- A listing and a watch that leave the server.
use vaultlet.Prelude.{
  ℕ, false, ◌⊎◌, some, List, [], ◌∷◌, Bytes, All, bytes_eq, codes, ◌≡◌, refl, filter,
}
use vaultlet.Integers.{pos}
use vaultlet.Errors.{ok}
use vaultlet.Strings.{trim, trim_left, split, extend, cut, cut_prefix}
use vaultlet.Base64.{decode, decode_quanta, value}
use vaultlet.Regex.{matches, deriv, nullable, in_class}
use vaultlet.Config.{UserConfig, rule_specs, user_specs}
use vaultlet.Domain.Key.{
  Namespace, zero_namespace, contains, same_segments, parse_namespace, check_segments, bad_segment,
  segment_re,
}
use vaultlet.App.Policy.{
  list, watch, allows, rules_of, allows_by, grants, action_eq, can_list, overlaps_by, new_policy,
  compile, compile_rule, compile_namespace, compile_actions, action_named, append_rule,
}
use vaultlet.App.Service.{Service, as_store, audit, with_principal, listed}
use vaultlet.App.Service
use vaultlet.Adapters.Grpc.Auth.{
  reply, with_auth, authenticate, check_token, check_credentials, check_password, users_by_name,
}
use vaultlet.Adapters.Grpc.Auth.Answers.{Proves}
use vaultlet.Adapters.Grpc.Handlers.{
  SendResult, sent, broken, ListRequest, list_response, list_secrets, wire_meta, request_namespace,
}
use vaultlet.Main.Watching.{IsSeen, streamed, streamed-IsGranted}
use vaultlet.Main.Listing.{IsShown, list_secrets-IsGranted}
use vaultlet.Tests.Samples.{counting, meta_db_url}
use vaultlet.Tests.Service.{idle}
use vaultlet.Tests.Rpc.{rpc}

abbrev listers : List UserConfig
listers =
    record {
      username = codes "alice";
      password_hash = codes "pw";
      allow = record { namespace = codes "*"; actions = codes "list" ∷ [] } ∷ [];
    }
    ∷ []

abbrev listing : Service ℕ
listing = record {
  store = counting;
  policy = (codes "alice", record { namespace = zero_namespace; actions = list ∷ [] } ∷ []) ∷ [];
}

listing_compiles : new_policy (rule_specs listers) ≡ ok listing.policy
unfolding new_policy compile compile_rule compile_namespace compile_actions action_named append_rule
    rule_specs user_specs bytes_eq
listing_compiles = refl

abbrev request : ListRequest
request = record { namespace = codes "payments"; page_size = pos 0; page_token = [] }

alice_lists : with_auth bytes_eq listers (list_secrets (as_store 3 listing) request) rpc idle ≡ (
  reply (list_response (meta_db_url ∷ [])),
  (with_auth bytes_eq listers (list_secrets (as_store 3 listing) request) rpc idle).1,
)
unfolding with_auth authenticate check_token check_credentials check_password users_by_name
    with_principal decode decode_quanta value list_secrets wire_meta request_namespace as_store
    Service.list_secrets audit listed can_list overlaps_by allows rules_of allows_by grants
    action_eq contains same_segments parse_namespace check_segments bad_segment segment_re matches
    deriv nullable in_class trim trim_left split extend cut cut_prefix bytes_eq filter
alice_lists = refl

list_secrets-IsGranted_example :
    (auth who : Bytes) × (rest : List Bytes) × (ns : Namespace) × (rpc.authorization
      ≡ some (auth ∷ rest))
    × Proves bytes_eq listers auth who
    × (request_namespace (codes "payments") ≡ ok ns)
    × All (IsShown listers who ns) (list_response (meta_db_url ∷ [])).secrets
list_secrets-IsGranted_example =
    list_secrets-IsGranted listing 3 listers bytes_eq rpc request idle _
      (list_response (meta_db_url ∷ [])) listing_compiles alice_lists

abbrev watchers : List UserConfig
watchers =
    record {
      username = codes "alice";
      password_hash = codes "pw";
      allow = record { namespace = codes "*"; actions = codes "list" ∷ codes "watch" ∷ [] } ∷ [];
    }
    ∷ []

abbrev watching : Service ℕ
watching = record {
  store = counting;
  policy =
      (codes "alice", record { namespace = zero_namespace; actions = list ∷ watch ∷ [] } ∷ []) ∷ [];
}

watching_compiles : new_policy (rule_specs watchers) ≡ ok watching.policy
unfolding new_policy compile compile_rule compile_namespace compile_actions action_named append_rule
    rule_specs user_specs bytes_eq
watching_compiles = refl

-- The second send fails.
abbrev sends : List SendResult
sends = sent ∷ broken false ∷ []

streamed-IsGranted_example :
    ((with_auth bytes_eq watchers (streamed watching 3 sends (codes "payments")) rpc (idle, [])).1.1
      ≡ [])
    ⊎ ((auth who : Bytes) × (rest : List Bytes) × (ns : Namespace) × (rpc.authorization
          ≡ some (auth ∷ rest))
        × Proves bytes_eq watchers auth who
        × (request_namespace (codes "payments") ≡ ok ns)
        × All
            (IsSeen watchers who ns)
            (with_auth bytes_eq watchers
              (streamed watching 3 sends (codes "payments"))
              rpc
              (idle, [])).1.1)
streamed-IsGranted_example =
    streamed-IsGranted watching 3 watchers bytes_eq sends rpc (codes "payments") idle
      watching_compiles
