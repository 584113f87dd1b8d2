-- ===== src/Adapters/Gcp/Store.antt =====
-- internal/adapters/driven/gcp/gcp.go and config.go: the store over a Secret Manager client, which
-- is a parameter, as is the status code that grpc reads from an error.
pub mod Listing
pub mod Writes
use vaultlet.Prelude.{
  ℕ, Bool, true, false, not, Option, none, some, List, [], ◌∷◌, ◌++◌, Bytes, bytes_eq, codes, ltb,
  ◌==◌, ◌||◌, if◌then◌else◌,
}
use vaultlet.Integers.{ℤ, is_zero, below}
use vaultlet.Errors.{
  Error, sentinel, plain, wrap, wrap_both, Result, ok, err, read_only, empty_value, not_found,
}
use vaultlet.Strings.{path_base}
use vaultlet.Domain.Key.{Key, Namespace, key_string, contains}
use vaultlet.Domain.Secret.{Secret, SecretMeta, Version, Time, new_version, new_secret}
use vaultlet.Adapters.Backend.{Exec, ◌>>=◌, ◌>>◌, lift, refuse_if, wrapped, sort_by_key}
use vaultlet.Adapters.Gcp.Name.{encode_id, decode_id}

-- pb.Secret, as far as it is read.
pub record Resource : Type 0 where
  pub name : Bytes
  pub create_time : Option Time

-- pb.AccessSecretVersionResponse. A payload that is missing is empty.
pub record Access : Type 0 where
  pub version_name : Bytes
  pub payload : Bytes

-- pb.SecretVersion.
pub record ResourceVersion : Type 0 where
  pub name : Bytes
  pub enabled : Bool

-- The client, over its state `W`.
pub record Api (W : Type 0) : Type 0 where
  pub get_secret : Bytes → Exec W Resource
  pub create_secret : Bytes → Bytes → Bytes → Exec W Resource
  pub add_secret_version : Bytes → Bytes → Exec W ResourceVersion
  pub get_secret_version : Bytes → Exec W ResourceVersion
  pub access_secret_version : Bytes → Exec W Access
  pub delete_secret : Bytes → Exec W (Unit {0})
  pub list_secrets : Bytes → Exec W (List Resource)

pub record Store (W : Type 0) : Type 0 where
  pub client : Api W
  pub parent : Bytes
  pub allow_writes : Bool
  -- status.Code of an error that is not nil
  pub code : Error → ℕ

-- codes.OK, NotFound, AlreadyExists and FailedPrecondition
abbrev pub code_ok : ℕ
code_ok = 0

abbrev pub code_not_found : ℕ
code_not_found = 5

abbrev pub code_already_exists : ℕ
code_already_exists = 6

abbrev pub code_failed_precondition : ℕ
code_failed_precondition = 9

abbrev gcp : Error → Error
gcp e = wrap "gcp: %w" e

abbrev in_gcp : {A : Type 0} → Result A → Result A
in_gcp (ok a) = ok a
in_gcp (err e) = err (gcp e)

abbrev with_created : Key → Option Time → Result Version → Result SecretMeta
with_created k created (err e) = err (wrap "gcp: secret %s: version %q: %w" e)
with_created k none (ok v) = err (plain "gcp: secret %s: response missing create time")
with_created k (some created) (ok v) = ok (record { key = k; version = v; created_at = created })

-- metaOf
unfoldable pub meta_of : Key → Bytes → Resource → Result SecretMeta
meta_of k version_name sec = with_created k sec.create_time (new_version (path_base version_name))

module _ {W : Type 0} (s : Store W) where
  unfoldable pub wrap_code : Error → Error
  wrap_code e =
      if s.code e == code_not_found
      then wrap_both "gcp: %s: %w: %w" (sentinel not_found) e
      else wrap "gcp: %s: %w" e

  unfoldable pub secret_name : Bytes → Bytes
  secret_name id = s.parent ++ (codes "/secrets/" ++ id)

  abbrev pub latest : Bytes → Bytes
  latest name = name ++ codes "/versions/latest"

  unfoldable pub get_secret : Key → Exec W Secret
  unfolding secret_name
  get_secret k = do
    id ← lift (in_gcp (encode_id k))
    res ← wrapped wrap_code (s.client.access_secret_version (latest (secret_name id)))
    refuse_if (bytes_eq res.payload []) (wrap "gcp: secret %s: %w" (sentinel empty_value))
    sec ← wrapped wrap_code (s.client.get_secret (secret_name id))
    meta ← lift (meta_of k res.version_name sec)
    lift (new_secret meta res.payload)

  -- CreateSecret, and GetSecret again where another writer was first.
  unfoldable pub create : Key → Bytes → Exec W Resource
  unfolding secret_name
  create k id w =
      let (created, w') = s.client.create_secret s.parent id (key_string k) w in
      elim created [
        | ok sec ↦ (ok sec, w')
        | err e ↦
            if s.code e == code_already_exists
            then wrapped wrap_code (s.client.get_secret (secret_name id)) w'
            else (err (wrap_code e), w')
      ]

  -- The switch of Put: the resource that there is, or a new one.
  unfoldable pub ensure : Key → Bytes → Exec W Resource
  unfolding secret_name create
  ensure k id w =
      let (found, w') = s.client.get_secret (secret_name id) w in
      elim found [
        | ok sec ↦ (ok sec, w')
        | err e ↦ if s.code e == code_not_found then create k id w' else (err (wrap_code e), w')
      ]

  unfoldable pub put_secret : Key → Bytes → Exec W SecretMeta
  unfolding secret_name ensure
  put_secret k value = do
    refuse_if (not s.allow_writes) (gcp (sentinel read_only))
    refuse_if (bytes_eq value []) (gcp (sentinel empty_value))
    id ← lift (in_gcp (encode_id k))
    sec ← ensure k id
    ver ← wrapped wrap_code (s.client.add_secret_version (secret_name id) value)
    lift (meta_of k ver.name sec)

  -- The codes of a failed GetSecretVersion that List passes over. With OK the switch goes on with no
  -- version, which is not enabled.
  unfoldable pub passed_over : Error → Bool
  passed_over e =
      s.code e == code_ok || (s.code e == code_not_found || s.code e == code_failed_precondition)

  abbrev pub singleton : Result SecretMeta → Result (List SecretMeta)
  singleton (ok meta) = ok (meta ∷ [])
  singleton (err e) = err e

  -- What List makes of a secret under the namespace.
  unfoldable pub latest_meta : Key → Resource → Exec W (List SecretMeta)
  unfolding passed_over
  latest_meta k sec w =
      let (answer, w') = s.client.get_secret_version (latest sec.name) w in
      elim answer [
        | ok ver ↦ (if not ver.enabled then ok [] else singleton (meta_of k ver.name sec), w')
        | err e ↦ (if passed_over e then ok [] else err (wrap_code e), w')
      ]

  -- The loop of List.
  unfoldable pub list_loop : Namespace → List Resource → Exec W (List SecretMeta)
  unfolding latest_meta
  list_loop ns [] = lift (ok [])
  list_loop ns (sec ∷ secs) =
      let rest = list_loop ns secs in
      elim (decode_id (path_base sec.name)) [
        | err e ↦ rest
        | ok k ↦
            if not (contains ns k.ns)
            then rest
            else (latest_meta k sec >>= λ shown. rest >>= λ others. lift (ok (shown ++ others)))
      ]

  unfoldable pub list_secrets : Namespace → Exec W (List SecretMeta)
  unfolding list_loop
  list_secrets ns = do
    secrets ← wrapped wrap_code (s.client.list_secrets s.parent)
    metas ← list_loop ns secrets
    lift (ok (sort_by_key metas))

  unfoldable pub delete_secret : Key → Exec W (Unit {0})
  unfolding secret_name
  delete_secret k = do
    refuse_if (not s.allow_writes) (gcp (sentinel read_only))
    id ← lift (in_gcp (encode_id k))
    wrapped wrap_code (s.client.delete_secret (secret_name id))

-- Config, and the least interval in nanoseconds.
pub record Config : Type 0 where
  pub project_id : Bytes
  pub credentials_file : Bytes
  pub poll_interval : ℤ
  pub allow_writes : Bool

abbrev pub min_poll_interval : Time
min_poll_interval = 1000000000

unfoldable pub validate : Config → Result (Unit {0})
validate c =
    if bytes_eq c.project_id []
    then err (plain "gcp: project_id required")
    else if is_zero c.poll_interval
    then err (plain "gcp: poll_interval required")
    else if below c.poll_interval min_poll_interval
    then err (plain "gcp: poll_interval must be at least %s")
    else ok tt

-- newStore
unfoldable pub new_store : {W : Type 0} → Api W → (Error → ℕ) → Config → Store W
new_store client code cfg = record {
  client = client;
  parent = codes "projects/" ++ cfg.project_id;
  allow_writes = cfg.allow_writes;
  code = code;
}
