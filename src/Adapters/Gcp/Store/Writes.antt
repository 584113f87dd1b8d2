-- ===== src/Adapters/Gcp/Store/Writes.antt =====
-- What a write to Secret Manager leaves behind, the races of Put included.
use vaultlet.Prelude.{
  false, [], Bytes, bytes_eq, bytes_eq_iff, ◌==◌, ◌≡◌, ◌≢◌, refl, sym, ◌∙◌, subst, arith,
  Bool-cases, inl, inr,
}
use vaultlet.Errors.{ok, Result-cases}
use vaultlet.Domain.Key.{Key, key_string}
use vaultlet.Domain.Key.Valid.{IsValidKey}
use vaultlet.Domain.Key.RoundTrip.{name-ne-nil}
use vaultlet.Domain.Secret.{SecretMeta, new_secret, new_secret_iff}
use vaultlet.Adapters.Gcp.Name.{encode_id}
use vaultlet.Adapters.Gcp.Store.{
  Resource, ResourceVersion, Store, code_not_found, code_already_exists, meta_of, secret_name,
  latest, create, ensure, get_secret, put_secret,
}
use vaultlet.Adapters.Gcp.Store.Listing.{meta_of_parts}

-- Documented behaviour of Secret Manager, while nobody deletes the secret or adds another version.
-- Only reads of a numbered version are consistent at once; the others become so. `settle` is the
-- time until they are.
pub record ReadsBack {W : Type 0} (s : Store W) (settle : W → W) : Type 0 where
  -- in the end the latest version is the one that was added, with its payload
  pub access_added :
      (name payload : Bytes) (w u : W) (ver : ResourceVersion)
      → s.client.add_secret_version name payload w ≡ (ok ver, u)
      → (s.client.access_secret_version (latest s name) (settle u)).0
        ≡ ok (record { version_name = ver.name; payload = payload })
  -- adding a version and reading do not change the resource
  pub add_keeps :
      (name payload : Bytes) (w u : W) (ver : ResourceVersion)
      → s.client.add_secret_version name payload w ≡ (ok ver, u)
      → (s.client.get_secret name (settle u)).0 ≡ (s.client.get_secret name (settle w)).0
  pub access_keeps :
      (name version : Bytes) (w : W)
      → (s.client.get_secret name (s.client.access_secret_version version w).1).0
        ≡ (s.client.get_secret name w).0
  -- a resource that was read stays as it is, and one that was created is there in the end
  pub get_keeps :
      (name : Bytes) (w u : W) (sec : Resource)
      → s.client.get_secret name w ≡ (ok sec, u)
      → (s.client.get_secret name (settle u)).0 ≡ ok sec
  pub get_created :
      (id key : Bytes) (w u : W) (sec : Resource)
      → s.client.create_secret s.parent id key w ≡ (ok sec, u)
      → (s.client.get_secret (secret_name s id) (settle u)).0 ≡ ok sec

module _ {W : Type 0} (s : Store W) (settle : W → W) where
  create-get :
      (k : Key) (id : Bytes) (w u : W) (sec : Resource)
      → ReadsBack s settle
      → create s k id w ≡ (ok sec, u)
      → (s.client.get_secret (secret_name s id) (settle u)).0 ≡ ok sec
  unfolding create
  create-get k id w u sec law h =
      let c = s.client.create_secret s.parent id (key_string k) w in
      let g = s.client.get_secret (secret_name s id) c.1 in
      elim (Result-cases c.0) [
        | inl (made, e) ↦ law.get_created id (key_string k) w u sec (ground arith)
        | inr (x, e) ↦ elim (Bool-cases (s.code x == code_already_exists)) [
          | inl t ↦ elim (Result-cases g.0) [
            | inl (there, f) ↦ law.get_keeps (secret_name s id) c.1 u sec (ground arith)
            | inr (y, f) ↦ ground arith
          ]
          | inr t ↦ ground arith
        ]
      ]

  ensure-get :
      (k : Key) (id : Bytes) (w u : W) (sec : Resource)
      → ReadsBack s settle
      → ensure s k id w ≡ (ok sec, u)
      → (s.client.get_secret (secret_name s id) (settle u)).0 ≡ ok sec
  unfolding ensure
  ensure-get k id w u sec law h =
      let g = s.client.get_secret (secret_name s id) w in
      elim (Result-cases g.0) [
        | inl (there, e) ↦ law.get_keeps (secret_name s id) w u sec (ground arith)
        | inr (x, e) ↦ elim (Bool-cases (s.code x == code_not_found)) [
          | inl t ↦ create-get k id g.1 u sec law (ground arith)
          | inr t ↦ ground arith
        ]
      ]

  put_parts :
      (k : Key) (value : Bytes) (w u : W) (m : SecretMeta)
      → put_secret s k value w ≡ (ok m, u)
      → (id : Bytes) × (sec : Resource) × (ver : ResourceVersion) × (v : W) × (encode_id k ≡ ok id)
        × (value ≢ [])
        × (ensure s k id w ≡ (ok sec, v))
        × (s.client.add_secret_version (secret_name s id) value v ≡ (ok ver, u))
        × (meta_of k ver.name sec ≡ ok m)
  unfolding put_secret
  put_parts k value w u m h = elim (Result-cases (encode_id k)) [
    | inr (x, e) ↦ ground arith
    | inl (id, e) ↦ elim (Result-cases (ensure s k id w).0) [
      | inr (x, f) ↦ ground arith
      | inl (sec, f) ↦
          let v = (ensure s k id w).1 in
          elim (Result-cases (s.client.add_secret_version (secret_name s id) value v).0) [
            | inr (x, g) ↦ ground arith
            | inl (ver, g) ↦ (
              id,
              sec,
              ver,
              v,
              e,
              ground (arith, bytes_eq_iff value []),
              ground arith,
              ground arith,
              ground arith,
            )
          ]
    ]
  ]

  -- Where Secret Manager reads back in the end what was written, a key whose Put succeeded is, once the
  -- vault has settled, read by Get with the value that was put and the metadata that Put returned,
  -- whether Put found the secret, created it, or lost the race to create it to another writer.
  pub gcp_get-put :
      (k : Key) (value : Bytes) (w u : W) (m : SecretMeta)
      → ReadsBack s settle
      → IsValidKey k
      → put_secret s k value w ≡ (ok m, u)
      → (get_secret s k (settle u)).0 ≡ ok (record { meta = m; value = value })
  unfolding get_secret
  gcp_get-put k value w u m law valid h =
      let (id, sec, ver, v, e, ne, there, added, made) = put_parts k value w u m h in
      let (mk, mv) = meta_of_parts k ver.name sec m made in
      let name = secret_name s id in
      let accessed = law.access_added name value v u ver added in
      let found : (s.client.get_secret name
            (s.client.access_secret_version (latest s name) (settle u)).1).0
          ≡ ok sec =
        law.access_keeps name (latest s name) (settle u)
        ∙ (law.add_keeps name value v u ver added ∙ ensure-get k id w v sec law there) in
      let stored : new_secret m value ≡ ok (record { meta = m; value = value }) =
        (new_secret_iff m value (record { meta = m; value = value })).1 (
          subst (λ (x : Key). x.name ≢ []) (sym mk) (name-ne-nil valid.name_valid),
          mv,
          ne,
          refl,
        ) in
      let full : bytes_eq value [] ≡ false = ground (arith, bytes_eq_iff value []) in
      rw (e, get_secret)
        (rw (accessed, get_secret)
          (rw (full, get_secret) (rw (found, get_secret) (rw (made, get_secret) stored))))
