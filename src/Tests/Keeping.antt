-- ===== src/Tests/Keeping.antt =====
-- A write and a read through the handlers, the service and the policy, on a vault in memory.
use vaultlet.Prelude.{none, [], ◌∷◌, bytes_eq, codes, some, ◌≡◌, refl}
use vaultlet.Strings.{path_base, trim_right, trim, last_index, join, separated}
use vaultlet.Domain.Key.{key_string, key_is_zero, namespace_string}
use vaultlet.Domain.Secret.{new_version}
use vaultlet.Adapters.Escaping.{write_all}
use vaultlet.Adapters.Gcp.Name.{put_byte, encode_id}
use vaultlet.Adapters.Gcp.Store
use vaultlet.Regex.{matches, deriv, nullable, in_class}
use vaultlet.Domain.Key.{
  zero_namespace, contains, same_segments, parse_key, parse_key_at, parse_namespace, check_segments,
  bad_segment, bad_name, segment_re, name_re,
}
use vaultlet.Strings.{trim_left, split, extend}
use vaultlet.App.Policy.{Policy, get, put, allows, rules_of, allows_by, grants, action_eq}
use vaultlet.App.Service
use vaultlet.App.Service.{State, as_store, guarded, audit}
use vaultlet.Ports.{SecretStore}
use vaultlet.Adapters.Stores.{gcp_store}
use vaultlet.Adapters.Stores.Backends
use vaultlet.Adapters.Stores.Backends.{backend_store}
use vaultlet.Adapters.Stores.Backends.Keeping.{handlers_get-put}
use vaultlet.Adapters.Grpc.Auth.{reply}
use vaultlet.Adapters.Grpc.Handlers.{PutRequest, put_secret, get_secret, wire_meta}
use vaultlet.Tests.Samples.{parse_db_url, db_url, alice}
use vaultlet.Tests.Writes.{Project, store, store-ReadsBack, empty_project, meta_v3}

abbrev keeper : Policy
keeper = (codes "alice", record { namespace = zero_namespace; actions = get ∷ put ∷ [] } ∷ []) ∷ []

abbrev server : SecretStore (State Project)
server = as_store 3 (record { store = backend_store [] 3 (Backends.gcp store); policy = keeper })

abbrev put_request : PutRequest
put_request = record {
  key = codes "payments/prod/DB_URL";
  value = codes "x";
  expected_version = none;
}

abbrev idle_project : State Project
idle_project = record { world = empty_project; log = [] }

put_replies :
    put_secret server put_request alice idle_project
    ≡ (reply (wire_meta meta_v3), (put_secret server put_request alice idle_project).1)
unfolding put_secret as_store Service.put_secret guarded audit backend_store gcp_store
    Store.put_secret Store.ensure Store.create Store.secret_name Store.meta_of encode_id put_byte
    write_all new_version path_base trim_right trim last_index key_string namespace_string join
    separated key_is_zero bytes_eq wire_meta allows rules_of allows_by grants action_eq contains
    same_segments parse_key parse_key_at parse_namespace check_segments bad_segment bad_name
    segment_re name_re matches deriv nullable in_class trim_left split extend
put_replies = refl

handlers_get-put_example :
    (get_secret server
      (codes "payments/prod/DB_URL")
      alice
      (put_secret server put_request alice idle_project).1).0
    ≡ reply (record { value = codes "x"; meta = some (wire_meta meta_v3) })
handlers_get-put_example =
    handlers_get-put (Backends.gcp store) [] 3 (λ w. w) keeper alice alice
      (codes "payments/prod/DB_URL") (codes "x") db_url idle_project _ (wire_meta meta_v3)
      store-ReadsBack tt parse_db_url refl
      (unfold allows rules_of allows_by grants action_eq contains same_segments bytes_eq in refl)
      put_replies
