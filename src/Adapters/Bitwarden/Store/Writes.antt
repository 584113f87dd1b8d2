-- ===== src/Adapters/Bitwarden/Store/Writes.antt =====
-- What a write to Bitwarden leaves behind: Put creates a secret or updates the one that resolves.
use vaultlet.Prelude.{
  none, List, [], Bytes, bytes_eq_iff, All, ◌≡◌, ◌≢◌, ◌⊎◌, refl, sym, ◌∙◌, subst, arith, inl, inr,
  Option-cases,
}
use vaultlet.Errors.{ok, is, Result-cases}
use vaultlet.Ports.{Context}
use vaultlet.Strings.Utf8.{IsUtf8}
use vaultlet.Domain.Key.{Key, key_string}
use vaultlet.Domain.Key.Alphabet.{key_string-IsUtf8}
use vaultlet.Domain.Key.Valid.{IsValidKey}
use vaultlet.Domain.Key.RoundTrip.{name-ne-nil}
use vaultlet.Domain.Secret.{SecretMeta, new_version, new_secret, new_secret_iff}
use vaultlet.Adapters.Bitwarden.Store.{
  Identifier, Stored, Store, resolve, resolve_id, version_at, meta_of, projects, create, update,
  upsert, get_secret, put_secret,
}
use vaultlet.Adapters.Bitwarden.Store.Laws.{Holds, IsUnambiguous, ReadsBack}
use vaultlet.Adapters.Bitwarden.Store.Resolving.{Matches, resolve-cases}
use vaultlet.Adapters.Bitwarden.Store.Relisting.{Written-resolves, none-Matches, resolved_one}

module _ {W : Type 0} (s : Store W) where
  meta_of-version :
      (k : Key) (res : Stored) (m : SecretMeta)
      → meta_of s k res ≡ ok m
      → (m.key ≡ k) × (m.version.id ≢ [])
  unfolding meta_of version_at new_version
  meta_of-version k res m h =
      (ground arith, ground (arith, bytes_eq_iff (s.format res.revision_date) []))

  meta_of-Holds :
      (k : Key) (value : Bytes) (res stored : Stored)
      → Holds value res stored
      → meta_of s k stored ≡ meta_of s k res
  unfolding meta_of
  meta_of-Holds k value res stored h = ground arith

  -- Get behind a write whose secret resolves and is read.
  get_after :
      (ctx : Context) (k : Key) (value id : Bytes) (idents : List Identifier) (res stored : Stored)
      (m : SecretMeta) (u : W)
      → ctx.done ≡ none
      → IsValidKey k
      → value ≢ []
      → (s.client.list s.org_id u).0 ≡ ok idents
      → resolve s (key_string k) idents ≡ ok id
      → (s.client.get id (s.client.list s.org_id u).1).0 ≡ ok stored
      → Holds value res stored
      → meta_of s k res ≡ ok m
      → (get_secret s ctx k u).0 ≡ ok (record { meta = m; value = value })
  unfolding get_secret resolve_id
  get_after ctx' k value id idents res stored m u alive valid full listed resolved read holds made =
      let (mk, mv) = meta_of-version k res m made in
      let again : meta_of s k stored ≡ ok m = meta_of-Holds k value res stored holds ∙ made in
      let kept : new_secret m stored.value ≡ ok (record { meta = m; value = value }) =
        rw holds.same_value (
          (new_secret_iff m value (record { meta = m; value = value })).1 (
            subst (λ (x : Key). x.name ≢ []) (sym mk) (name-ne-nil valid.name_valid),
            mv,
            full,
            refl,
          )) in
      rw (alive, get_secret)
        (rw (listed, get_secret)
          (rw (resolved, get_secret) (rw (read, get_secret) (rw (again, get_secret) kept))))

  updated_parts :
      (k : Key) (value id : Bytes) (w u : W) (m : SecretMeta)
      → update s k value id w ≡ (ok m, u)
      → (prev res : Stored) × (s.client.update id
            (key_string k)
            value
            prev.note
            s.org_id
            (projects s)
            (s.client.get id w).1
          ≡ (ok res, u))
        × (meta_of s k res ≡ ok m)
  unfolding update
  updated_parts k value id w u m h = elim (Result-cases (s.client.get id w).0) [
    | inr (x, e) ↦ ground arith
    | inl (prev, e) ↦
        let c =
          s.client.update id (key_string k) value prev.note s.org_id (projects s)
            (s.client.get id w).1 in
        elim (Result-cases c.0) [
          | inr (x, f) ↦ ground arith
          | inl (res, f) ↦ (prev, res, ground arith, ground arith)
        ]
  ]

  created_parts :
      (k : Key) (value : Bytes) (w u : W) (m : SecretMeta)
      → create s k value w ≡ (ok m, u)
      → (res : Stored) × (s.client.create (key_string k) value [] s.org_id (projects s) w
          ≡ (ok res, u))
        × (meta_of s k res ≡ ok m)
  unfolding create
  created_parts k value w u m h =
      elim (Result-cases (s.client.create (key_string k) value [] s.org_id (projects s) w).0) [
        | inr (x, f) ↦ ground arith
        | inl (res, f) ↦ (res, ground arith, ground arith)
      ]

  put_upsert :
      (ctx : Context) (k : Key) (value : Bytes) (w u : W) (m : SecretMeta)
      → put_secret s ctx k value w ≡ (ok m, u)
      → (ctx.done ≡ none) × (value ≢ []) × (upsert s k value w ≡ (ok m, u))
  unfolding put_secret
  put_upsert ctx k value w u m h = elim (Option-cases ctx.done) [
    | inr (x, e) ↦ ground arith
    | inl e ↦ (e, ground (arith, bytes_eq_iff value []), ground arith)
  ]

  upsert_parts :
      (settle : W → W) (k : Key) (value : Bytes) (w u : W) (m : SecretMeta)
      → ReadsBack s settle
      → upsert s k value w ≡ (ok m, u)
      → (idents : List Identifier) × ((s.client.list s.org_id w).0 ≡ ok idents)
        × (((id : Bytes) × (resolve s (key_string k) idents ≡ ok id)
              × (update s k value id (s.client.list s.org_id w).1 ≡ (ok m, u)))
            ⊎ (All (λ j. Matches s (key_string k) j → ⊥) idents
                × (create s k value (s.client.list s.org_id w).1 ≡ (ok m, u))))
  unfolding upsert resolve_id is
  upsert_parts settle k value w u m law h = elim (Result-cases (s.client.list s.org_id w).0) [
    | inr (x, e) ↦ let other = law.foreign w x e in ground arith
    | inl (idents, e) ↦ (
      idents,
      e,
      elim (resolve-cases s (key_string k) idents) [
        | inl (skipped, rest, i, f, all, match, r) ↦ inl (i.id, r, ground arith)
        | inr (all, (x, r, nf)) ↦ inr (all, ground arith)
      ],
    )
  ]

  -- Where Bitwarden behaves as `ReadsBack` says, a key whose Put of a text in UTF-8 succeeded is, once
  -- the vault has settled, read by Get, in any context that lives, with the value that was put and
  -- the metadata that Put returned, whether Put created the secret or updated it; the listed secrets
  -- of the key in scope, if there were any before, had one identifier.
  pub bitwarden_get-put :
      (settle : W → W) (ctx ctx' : Context) (k : Key) (value : Bytes) (w u : W) (m : SecretMeta)
      → ReadsBack s settle
      → IsUtf8 value
      → IsUnambiguous s (key_string k) w
      → IsValidKey k
      → ctx'.done ≡ none
      → put_secret s ctx k value w ≡ (ok m, u)
      → (get_secret s ctx' k (settle u)).0 ≡ ok (record { meta = m; value = value })
  bitwarden_get-put settle ctx ctx' k value w u m law text single valid alive h =
      let (_, full, upserted) = put_upsert ctx k value w u m h in
      let (idents, e, branch) = upsert_parts settle k value w u m law upserted in
      let name = key_string k in
      let label = key_string-IsUtf8 k valid in
      let l = s.client.list s.org_id w in
      elim branch [
        | inl (id, r, by) ↦
            let (prev, res, c, made) = updated_parts k value id l.1 u m by in
            let written =
              law.updates id name value prev.note (projects s) w u res idents label text e c in
            get_after ctx' k value id _ res written.stored m (settle u) alive valid full
              written.listed
              (Written-resolves s id name value res idents (settle u) written
                (resolved_one s name id idents r (single.one_id idents e)))
              written.read written.holds made
        | inr (all, by) ↦
            let (res, c, made) = created_parts k value l.1 u m by in
            let (id, written) =
              law.creates name value [] (projects s) w u res idents label text e c in
            get_after ctx' k value id _ res written.stored m (settle u) alive valid full
              written.listed
              (Written-resolves s id name value res idents (settle u) written
                (none-Matches s name id idents all))
              written.read written.holds made
      ]
