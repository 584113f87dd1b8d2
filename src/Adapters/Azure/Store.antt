-- ===== src/Adapters/Azure/Store.antt =====
-- internal/adapters/driven/azure/azure.go: the store over a Key Vault client, which is a parameter,
-- as is the printing of a time that versions are made by.
pub mod Statuses
pub mod Writes
use vaultlet.Prelude.{
  ℕ, zero, suc, ◌-◌, Bool, true, false, not, Option, none, some, List, [], ◌∷◌, ◌++◌, Bytes,
  bytes_eq, ◌==◌, if◌then◌else◌, length,
}
use vaultlet.Errors.{
  Error, sentinel, plain, wrap, wrap_both, response, Result, ok, err, read_only, empty_value,
  not_found,
}
use vaultlet.Domain.Key.{Key, Namespace, key_string, contains}
use vaultlet.Domain.Secret.{Secret, SecretMeta, Version, Time, new_version, new_secret}
use vaultlet.Adapters.Backend.{Exec, ◌>>=◌, ◌>>◌, lift, refuse_if, wrapped, sort_by_key}
use vaultlet.Adapters.Azure.Name.{encode_name, decode_name}

-- azsecrets.SecretAttributes, as far as it is read.
pub record Attributes : Type 0 where
  pub created : Option Time
  pub updated : Option Time

-- An answer of GetSecret or SetSecret.
pub record VaultSecret : Type 0 where
  pub value : Option Bytes
  pub attributes : Option Attributes

-- An entry of a page; its ID is given by the name in it.
pub record Properties : Type 0 where
  pub name : Option Bytes
  pub attributes : Option Attributes

-- The client, over its state `W`. `pages` are the answers of NextPage until More is false.
pub record Api (W : Type 0) : Type 0 where
  pub get_secret : Bytes → Exec W VaultSecret
  pub set_secret : Bytes → Bytes → Bytes → Exec W VaultSecret
  pub delete_secret : Bytes → Exec W (Unit {0})
  pub purge_deleted_secret : Bytes → Exec W (Unit {0})
  pub pages : W → List (Result (List (Option Properties)))

pub record Store (W : Type 0) : Type 0 where
  pub client : Api W
  pub allow_writes : Bool
  pub purge_on_delete : Bool
  -- t.UTC().Format(versionLayout)
  pub format : Time → Bytes

-- errors.As(err, &re) for a *azcore.ResponseError.
unfoldable pub as_response : Error → Option ℕ
as_response (sentinel s) = none
as_response (plain t) = none
as_response (wrap t e) = as_response e
as_response (wrap_both t e f) = elim (as_response e) [ some n ↦ some n | none ↦ as_response f ]
as_response (response n) = some n

abbrev or_zero : Option ℕ → ℕ
or_zero none = 0
or_zero (some n) = n

unfoldable pub status_code : Error → ℕ
unfolding as_response
status_code e = or_zero (as_response e)

-- wrap: a 404 becomes ports.ErrNotFound, with the response still in the chain.
unfoldable pub wrap_status : Error → Error
unfolding status_code
wrap_status e =
    if status_code e == 404
    then wrap_both "azure: %s: %w: %w" (sentinel not_found) e
    else wrap "azure: %s: %w" e

abbrev pub azure : Error → Error
azure e = wrap "azure: %w" e

abbrev missing_attributes : Error
missing_attributes = plain "azure: secret %s: response missing attributes"

abbrev with_version : Key → Time → Result Version → Result SecretMeta
with_version k created (ok v) = ok (record { key = k; version = v; created_at = created })
with_version k created (err e) = err (wrap "azure: secret %s: %w" e)

unfoldable pub meta_of : (Time → Bytes) → Key → Option Attributes → Result SecretMeta
meta_of format k none = err missing_attributes
meta_of format k (some attrs) = elim attrs.updated [
  | none ↦ err missing_attributes
  | some updated ↦ elim attrs.created [
    | none ↦ err missing_attributes
    | some created ↦ with_version k created (new_version (format updated))
  ]
]

abbrev secret_of : SecretMeta → Option Bytes → Result Secret
secret_of meta none = err (wrap "azure: secret %s: %w" (sentinel empty_value))
secret_of meta (some value) = new_secret meta value

-- One entry of a page: skipped, an error that ends the listing, or listed.
unfoldable pub list_entry :
    (Time → Bytes) → Namespace → Option Properties → Result (List SecretMeta)
list_entry format ns none = ok []
list_entry format ns (some props) = elim props.name [
  | none ↦ ok []
  | some name ↦ elim (decode_name name) [
    | err e ↦ ok []
    | ok k ↦
        if not (contains ns k.ns)
        then ok []
        else (elim (meta_of format k props.attributes) [ ok meta ↦ ok (meta ∷ []) | err e ↦ err e ])
  ]
]

unfoldable pub list_page :
    (Time → Bytes) → Namespace → List (Option Properties) → Result (List SecretMeta)
list_page format ns [] = ok []
list_page format ns (p ∷ ps) = elim (list_entry format ns p) [
  | err e ↦ err e
  | ok shown ↦ elim (list_page format ns ps) [ ok rest ↦ ok (shown ++ rest) | err e ↦ err e ]
]

unfoldable pub list_pages :
    (Time → Bytes) → Namespace → List (Result (List (Option Properties))) → Result (List SecretMeta)
list_pages format ns [] = ok []
list_pages format ns (err e ∷ pages) = err (wrap_status e)
list_pages format ns (ok page ∷ pages) = elim (list_page format ns page) [
  | err e ↦ err e
  | ok shown ↦ elim (list_pages format ns pages) [ ok rest ↦ ok (shown ++ rest) | err e ↦ err e ]
]

abbrev sorted : Result (List SecretMeta) → Result (List SecretMeta)
sorted (ok metas) = ok (sort_by_key metas)
sorted (err e) = err e

abbrev change_name : {A : Type 0} → Result A → Result A
change_name (ok a) = ok a
change_name (err e) = err (azure e)

abbrev put_error : Error → Error
put_error e =
    if status_code e == 409
    then wrap "azure: put secret %s: name is soft-deleted and not yet purged: %w" e
    else wrap_status e

abbrev pub max_attempts : ℕ
max_attempts = 30

-- What the purge loop does with an answer.
pub data Verdict : Type 0 where
  purged : Verdict
  retry : Error → Verdict
  failed : Error → Verdict

unfoldable pub verdict : Result (Unit {0}) → Verdict
unfolding status_code
verdict (ok u) = purged
verdict (err e) =
    if status_code e == 404 then purged else if status_code e == 409 then retry e else failed e

module _ {W : Type 0} (s : Store W) where
  unfoldable pub get_secret : Key → Exec W Secret
  get_secret k = do
    name ← lift (change_name (encode_name k))
    res ← wrapped wrap_status (s.client.get_secret name)
    meta ← lift (meta_of s.format k res.attributes)
    lift (secret_of meta res.value)

  unfoldable pub put_secret : Key → Bytes → Exec W SecretMeta
  put_secret k value = do
    refuse_if (not s.allow_writes) (azure (sentinel read_only))
    refuse_if (bytes_eq value []) (azure (sentinel empty_value))
    name ← lift (change_name (encode_name k))
    res ← wrapped put_error (s.client.set_secret name value (key_string k))
    lift (meta_of s.format k res.attributes)

  unfoldable pub list_secrets : Namespace → Exec W (List SecretMeta)
  list_secrets ns w = (sorted (list_pages s.format ns (s.client.pages w)), w)

  -- The purge loop with `left` attempts after this one. `wait` is the environment's part: whether
  -- the context ends while the loop waits after an attempt, and what time does to the vault.
  unfoldable pub purge_loop : ℕ → Bytes → (ℕ → W → Option Error × W) → Exec W (Unit {0})
  purge_loop zero name wait w =
      let (r, w') = s.client.purge_deleted_secret name w in
      elim (verdict r) [
        | purged ↦ (ok tt, w')
        | retry e ↦ (err (wrap_status e), w')
        | failed e ↦ (err (wrap_status e), w')
      ]
  purge_loop (suc left) name wait w =
      let (r, w') = s.client.purge_deleted_secret name w in
      let (ended, later) = wait (max_attempts - suc left) w' in
      elim (verdict r) [
        | purged ↦ (ok tt, w')
        | retry e ↦ elim ended [
          | some done ↦ (err done, later)
          | none ↦ purge_loop left name wait later
        ]
        | failed e ↦ (err (wrap_status e), w')
      ]

  unfoldable pub delete_secret : Key → (ℕ → W → Option Error × W) → Exec W (Unit {0})
  delete_secret k wait = do
    refuse_if (not s.allow_writes) (azure (sentinel read_only))
    name ← lift (change_name (encode_name k))
    wrapped wrap_status (s.client.delete_secret name)
    if not s.purge_on_delete then lift (ok tt) else purge_loop 29 name wait
