-- ===== src/Tests/Listings.antt =====
-- What the stores find in small projects.
use vaultlet.Prelude.{
  All, List, [], bytes_eq, codes, false, none, refl, some, true, ℕ, ◌++◌, ◌∷◌, ◌≡◌, ◌⊎◌,
}
use vaultlet.Errors.{Error, canceled, err, is, not_found, ok, plain, response, sentinel}
use vaultlet.Strings.{path_base, trim, trim_right, trim_left, last_index, split, extend}
use vaultlet.Domain.Key.{
  contains, same_segments, parse_key, parse_key_at, parse_namespace, check_segments, bad_segment,
  bad_name, segment_re, name_re,
}
use vaultlet.Domain.Secret.{SecretMeta, new_version}
use vaultlet.Adapters.Backend.{sort_by_key, insert_meta}
use vaultlet.Adapters.Backend.Order.{IsAscending}
use vaultlet.Adapters.Gcp.Name.{decode_id, read, unescape}
use vaultlet.Adapters.Gcp.Store
use vaultlet.Adapters.Gcp.Store.{list_secrets, list_loop, latest_meta}
use vaultlet.Adapters.Gcp.Store.Listing.{IsListed, list_secrets-IsListed}
use vaultlet.Adapters.Bitwarden.Store as Bitwarden
use vaultlet.Adapters.Bitwarden.Store.{Identifier, resolve}
use vaultlet.Adapters.Bitwarden.Store.Resolving.{Matches, resolve-cases}
use vaultlet.Regex.{matches, deriv, nullable, in_class}
use vaultlet.Ports.{Context}
use vaultlet.Adapters.Stores.{bitwarden_store}
use vaultlet.Adapters.Stores.Ended.{bitwarden_store_ended}
use vaultlet.Adapters.Stores.{gcp_store}
use vaultlet.Adapters.Stores.Backends
use vaultlet.Adapters.Stores.Backends.{backend_store}
use vaultlet.Adapters.Stores.Backends.Listed.{HasValidKey, list-HasValidKey}
use vaultlet.Tests.Samples.{alice, db_url, payments_prod}

-- A project with one secret.
abbrev pub project : Store.Api ℕ
project = record {
  get_secret = λ name w. (err (response 5), w);
  create_secret = λ parent id key w. (err (response 7), w);
  add_secret_version = λ name payload w. (err (response 7), w);
  get_secret_version = λ name w. (ok (record { name = codes "v/3"; enabled = true }), w);
  access_secret_version = λ name w. (err (response 5), w);
  delete_secret = λ name w. (err (response 5), w);
  list_secrets = λ parent w.
      (ok (record { name = codes "s/payments-1prod-1DB_URL"; create_time = some 5 } ∷ []), w);
}

abbrev pub store : Store.Store ℕ
store = record {
  client = project;
  parent = codes "projects/p";
  allow_writes = false;
  code = λ e. 2;
}

abbrev listed_meta : SecretMeta
listed_meta = record { key = db_url; version = record { id = codes "3" }; created_at = 5 }

list_runs : list_secrets store payments_prod 0 ≡ (ok (listed_meta ∷ []), 0)
unfolding list_secrets list_loop latest_meta Store.meta_of new_version decode_id read unescape
    parse_key parse_key_at parse_namespace check_segments bad_segment bad_name segment_re name_re
    matches deriv nullable in_class trim trim_left split extend last_index bytes_eq path_base
    trim_right contains same_segments sort_by_key insert_meta
list_runs = refl

list_secrets-IsListed_example :
    All (IsListed payments_prod) (listed_meta ∷ []) × IsAscending (listed_meta ∷ [])
list_secrets-IsListed_example =
    list_secrets-IsListed store payments_prod 0 0 (listed_meta ∷ []) list_runs

abbrev empty_organization : Bitwarden.Api ℕ
empty_organization = record {
  list = λ org w. (ok [], w);
  get = λ id w. (err (plain "missing"), w);
  get_by_ids = λ ids w. (ok [], w);
  create = λ key value note org projects w. (err (plain "denied"), w);
  update = λ id key value note org projects w. (err (plain "denied"), w);
  delete = λ ids w. (ok [], w);
}

abbrev scoped : Bitwarden.Store ℕ
scoped = record {
  client = empty_organization;
  project_id = codes "p";
  org_id = codes "o";
  allow_writes = false;
  format = λ t. codes "t";
}

abbrev identifiers : List Identifier
identifiers =
    record { id = codes "1"; key = codes "k"; project_ids = [] }
    ∷ record { id = codes "2"; key = codes "k"; project_ids = codes "p" ∷ [] }
    ∷ []

resolve-cases_example :
    ((skipped rest : List Identifier) × (i : Identifier) × (identifiers ≡ skipped ++ i ∷ rest)
      × All (λ j. Matches scoped (codes "k") j → ⊥) skipped
      × Matches scoped (codes "k") i
      × (resolve scoped (codes "k") identifiers ≡ ok i.id))
    ⊎ (All (λ j. Matches scoped (codes "k") j → ⊥) identifiers
        × ((e : Error) × (resolve scoped (codes "k") identifiers ≡ err e)
            × (is e not_found ≡ true)))
resolve-cases_example = resolve-cases scoped (codes "k") identifiers

abbrev ended : Context
ended = record { principal = none; done = some (sentinel canceled) }

bitwarden_store_ended_example :
    ((bitwarden_store [] 3 scoped).get ended db_url 7 ≡ (err (sentinel canceled), 7))
    × ((bitwarden_store [] 3 scoped).put ended db_url (codes "x") 7 ≡ (err (sentinel canceled), 7))
    × ((bitwarden_store [] 3 scoped).list ended payments_prod 7 ≡ (err (sentinel canceled), 7))
    × ((bitwarden_store [] 3 scoped).delete ended db_url 7 ≡ (err (sentinel canceled), 7))
    × ((bitwarden_store [] 3 scoped).watch ended payments_prod 7 ≡ (err (sentinel canceled), 7))
bitwarden_store_ended_example =
    bitwarden_store_ended scoped [] 3 ended (sentinel canceled) db_url (codes "x") payments_prod 7
      refl

list-HasValidKey_example : All HasValidKey (listed_meta ∷ []) × IsAscending (listed_meta ∷ [])
list-HasValidKey_example =
    list-HasValidKey (Backends.gcp store) [] 3 alice payments_prod 0 0 (listed_meta ∷ [])
      (unfold backend_store gcp_store in list_runs)
