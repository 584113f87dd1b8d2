-- ===== src/Adapters/Bitwarden/Store.antt =====
-- internal/adapters/driven/bitwarden/bitwarden.go and config.go: the store over a Bitwarden client,
-- which is a parameter, as is the printing of a time that versions are made by.
pub mod Resolving
pub mod Laws
pub mod Relisting
pub mod Writes
use vaultlet.Prelude.{
  ℕ, Bool, true, false, not, ◌&&◌, Option, none, some, List, [], ◌∷◌, Bytes, bytes_eq, ltb, ◌==◌,
  if◌then◌else◌,
}
use vaultlet.Integers.{ℤ, is_zero, below}
use vaultlet.Errors.{
  Error, sentinel, plain, wrap, Result, ok, err, is, read_only, empty_value, not_found,
}
use vaultlet.Ports.{Context}
use vaultlet.Domain.Key.{Key, Namespace, key_string, parse_key, contains}
use vaultlet.Domain.Secret.{Secret, SecretMeta, Version, Time, new_version, new_secret}
use vaultlet.Adapters.Backend.{Exec, ◌>>=◌, ◌>>◌, lift, refuse_if, wrapped, sort_by_key}

-- sdk.SecretIdentifierResponse
pub record Identifier : Type 0 where
  pub id : Bytes
  pub key : Bytes
  pub project_ids : List Bytes

-- sdk.SecretResponse
pub record Stored : Type 0 where
  pub key : Bytes
  pub value : Bytes
  pub note : Bytes
  pub creation_date : Time
  pub revision_date : Time

-- The client's Secrets(), over its state `W`. An answer of Delete has the error of each entry.
pub record Api (W : Type 0) : Type 0 where
  pub list : Bytes → Exec W (List Identifier)
  pub get : Bytes → Exec W Stored
  pub get_by_ids : List Bytes → Exec W (List Stored)
  pub create : Bytes → Bytes → Bytes → Bytes → List Bytes → Exec W Stored
  pub update : Bytes → Bytes → Bytes → Bytes → Bytes → List Bytes → Exec W Stored
  pub delete : List Bytes → Exec W (List (Option Bytes))

pub record Store (W : Type 0) : Type 0 where
  pub client : Api W
  pub project_id : Bytes
  pub org_id : Bytes
  pub allow_writes : Bool
  -- t.UTC().Format(versionLayout)
  pub format : Time → Bytes

abbrev bitwarden : Error → Error
bitwarden e = wrap "bitwarden: %w" e

abbrev of_secret : {A : Type 0} → Result A → Result A
of_secret (ok a) = ok a
of_secret (err e) = err (wrap "bitwarden: secret %s: %w" e)

-- The check of ctx.Err() that every method begins with.
abbrev pub live : {W : Type 0} → Context → Exec W (Unit {0})
live ctx w = elim ctx.done [ some e ↦ (err e, w) | none ↦ (ok tt, w) ]

-- The loop of inProject.
unfoldable pub has_project : Bytes → List Bytes → Bool
has_project id [] = false
has_project id (p ∷ ps) = let rest = has_project id ps in if bytes_eq p id then true else rest

-- The loop of Delete over its answer.
unfoldable pub first_error : List (Option Bytes) → Result (Unit {0})
first_error [] = ok tt
first_error (some text ∷ ds) = err (plain "bitwarden: delete secret %s: %s")
first_error (none ∷ ds) = first_error ds

module _ {W : Type 0} (s : Store W) where
  unfoldable pub in_project : List Bytes → Bool
  unfolding has_project
  in_project project_ids =
      if bytes_eq s.project_id [] then true else has_project s.project_id project_ids

  -- versionAt
  unfoldable pub version_at : Time → Result Version
  version_at t = new_version (s.format t)

  -- The loop of resolveID.
  unfoldable pub resolve : Bytes → List Identifier → Result Bytes
  unfolding in_project
  resolve name [] = err (wrap "bitwarden: %s: %w" (sentinel not_found))
  resolve name (ident ∷ idents) =
      let rest = resolve name idents in
      if bytes_eq ident.key name && in_project ident.project_ids then ok ident.id else rest

  unfoldable pub resolve_id : Key → Exec W Bytes
  unfolding resolve
  resolve_id k = do
    idents ← wrapped (wrap "bitwarden: list secrets: %w") (s.client.list s.org_id)
    lift (resolve (key_string k) idents)

  -- The metadata of an answer.
  unfoldable pub meta_of : Key → Stored → Result SecretMeta
  unfolding version_at
  meta_of k res = elim (of_secret (version_at res.revision_date)) [
    | ok v ↦ ok (record { key = k; version = v; created_at = res.creation_date })
    | err e ↦ err e
  ]

  unfoldable pub get_secret : Context → Key → Exec W Secret
  unfolding resolve_id meta_of
  get_secret ctx k = do
    live ctx
    id ← resolve_id k
    res ← wrapped (wrap "bitwarden: get secret %s: %w") (s.client.get id)
    meta ← lift (meta_of k res)
    lift (new_secret meta res.value)

  unfoldable pub projects : List Bytes
  projects = if bytes_eq s.project_id [] then [] else s.project_id ∷ []

  -- The branches of Put where the key is not found, and where it has an identifier.
  unfoldable pub create : Key → Bytes → Exec W SecretMeta
  unfolding meta_of projects
  create k value = do
    res ←
        wrapped (wrap "bitwarden: create secret %s: %w")
          (s.client.create (key_string k) value [] s.org_id projects)
    lift (meta_of k res)

  unfoldable pub update : Key → Bytes → Bytes → Exec W SecretMeta
  unfolding meta_of projects
  update k value id = do
    prev ← wrapped (wrap "bitwarden: read secret %s before update: %w") (s.client.get id)
    res ←
        wrapped (wrap "bitwarden: update secret %s: %w")
          (s.client.update id (key_string k) value prev.note s.org_id projects)
    lift (meta_of k res)

  unfoldable pub upsert : Key → Bytes → Exec W SecretMeta
  unfolding resolve_id create update
  upsert k value w =
      let (found, w') = resolve_id k w in
      elim found [
        | ok id ↦ update k value id w'
        | err e ↦ if is e not_found then create k value w' else (err e, w')
      ]

  unfoldable pub put_secret : Context → Key → Bytes → Exec W SecretMeta
  unfolding upsert
  put_secret ctx k value = do
    live ctx
    refuse_if (not s.allow_writes) (bitwarden (sentinel read_only))
    refuse_if (bytes_eq value []) (bitwarden (sentinel empty_value))
    upsert k value

  -- The first loop of List.
  unfoldable pub wanted : Namespace → List Identifier → List Bytes
  unfolding in_project
  wanted ns [] = []
  wanted ns (ident ∷ idents) =
      let rest = wanted ns idents in
      if not (in_project ident.project_ids) then rest else (elim (parse_key ident.key) [
        | err e ↦ rest
        | ok k ↦ if not (contains ns k.ns) then rest else ident.id ∷ rest
      ])

  -- The second.
  unfoldable pub metas_of : List Stored → Result (List SecretMeta)
  unfolding meta_of
  metas_of [] = ok []
  metas_of (sec ∷ secs) =
      let rest = metas_of secs in
      elim (parse_key sec.key) [
        | err e ↦ rest
        | ok k ↦ elim (meta_of k sec) [
          | err e ↦ err e
          | ok meta ↦ elim rest [ ok metas ↦ ok (meta ∷ metas) | err e ↦ err e ]
        ]
      ]

  abbrev sorted : Result (List SecretMeta) → Result (List SecretMeta)
  sorted (ok metas) = ok (sort_by_key metas)
  sorted (err e) = err e

  -- What List does with the identifiers.
  unfoldable pub fetch : List Bytes → Exec W (List SecretMeta)
  unfolding metas_of
  fetch [] = lift (ok [])
  fetch (id ∷ ids) = do
    full ← wrapped (wrap "bitwarden: get secrets by id: %w") (s.client.get_by_ids (id ∷ ids))
    lift (sorted (metas_of full))

  unfoldable pub list_secrets : Context → Namespace → Exec W (List SecretMeta)
  unfolding wanted fetch
  list_secrets ctx ns = do
    live ctx
    idents ← wrapped (wrap "bitwarden: list secrets: %w") (s.client.list s.org_id)
    fetch (wanted ns idents)

  unfoldable pub delete_secret : Context → Key → Exec W (Unit {0})
  unfolding resolve_id
  delete_secret ctx k = do
    live ctx
    refuse_if (not s.allow_writes) (bitwarden (sentinel read_only))
    id ← resolve_id k
    ds ← wrapped (wrap "bitwarden: delete secret %s: %w") (s.client.delete (id ∷ []))
    lift (first_error ds)

pub record Config : Type 0 where
  pub api_url : Bytes
  pub org_id : Bytes
  pub identity_url : Bytes
  pub project_id : Bytes
  pub access_token : Bytes
  pub poll_interval : ℤ
  pub allow_writes : Bool

abbrev pub min_poll_interval : Time
min_poll_interval = 1000000000

unfoldable pub validate : Config → Result (Unit {0})
validate c =
    if bytes_eq c.access_token []
    then err (plain "bitwarden: access token required")
    else if bytes_eq c.project_id []
    then err (plain "bitwarden: project_id required")
    else if bytes_eq c.org_id []
    then err (plain "bitwarden: org_id required")
    else if is_zero c.poll_interval
    then err (plain "bitwarden: poll_interval required")
    else if below c.poll_interval min_poll_interval
    then err (plain "bitwarden: poll_interval must be at least %s")
    else ok tt
