-- ===== src/Adapters/Azure/Store/Writes.antt =====
-- What a write leaves behind, and that the purge loop ends.
use vaultlet.Prelude.{
  ℕ, zero, suc, ◌-◌, Option, none, some, [], Bytes, bytes_eq_iff, ◌≡◌, ◌≢◌, refl, sym, arith, inl,
  inr, ◌↔◌, Option-cases, subst,
}
use vaultlet.Errors.{Error, Result, ok, Result-cases}
use vaultlet.Strings.Utf8.{IsUtf8}
use vaultlet.Domain.Key.{Key, key_string}
use vaultlet.Domain.Key.Valid.{IsValidKey}
use vaultlet.Domain.Key.RoundTrip.{name-ne-nil}
use vaultlet.Domain.Secret.{SecretMeta, Time, new_version, new_secret, new_secret_iff}
use vaultlet.Adapters.Azure.Name.{encode_name}
use vaultlet.Adapters.Azure.Store.{
  Attributes, VaultSecret, Api, Store, meta_of, max_attempts, get_secret, put_secret, purge_loop,
}
use vaultlet.Adapters.Azure.Store.Statuses.{
  IsSettled, IsConflict, verdict-IsSettled, verdict-IsConflict, verdict-cases,
}

-- Documented behaviour of Key Vault, while nobody else writes the secret: after a successful
-- SetSecret of a text in UTF-8, which a JSON string carries, the latest version has the value that
-- was set and the attributes that the call returned. `settle` is the time until a read shows it.
pub record ReadsBack {W : Type 0} (c : Api W) (settle : W → W) : Type 0 where
  pub reads_back :
      (name value tag : Bytes) (w w' : W) (res : VaultSecret)
      → IsUtf8 value
      → c.set_secret name value tag w ≡ (ok res, w')
      → (c.get_secret name (settle w')).0
        ≡ ok (record { value = some value; attributes = res.attributes })

-- Metadata that meta_of makes has the key and a version that is not empty.
meta_of_parts :
    (format : Time → Bytes) (k : Key) (attrs : Option Attributes) (m : SecretMeta)
    → meta_of format k attrs ≡ ok m
    → (m.key ≡ k) × (m.version.id ≢ [])
unfolding meta_of new_version
meta_of_parts format k none m h = cc
meta_of_parts format k (some attrs) m h = elim (Option-cases attrs.updated) [
  | inl e ↦ ground arith
  | inr (u, e) ↦ elim (Option-cases attrs.created) [
    | inl f ↦ ground arith
    | inr (c, f) ↦ (ground arith, ground (arith, bytes_eq_iff (format u) []))
  ]
]

module _ {W : Type 0} (s : Store W) where
  put_parts :
      (k : Key) (value : Bytes) (w w' : W) (m : SecretMeta)
      → put_secret s k value w ≡ (ok m, w')
      → (name : Bytes) × (res : VaultSecret) × (encode_name k ≡ ok name)
        × (value ≢ [])
        × (s.client.set_secret name value (key_string k) w ≡ (ok res, w'))
        × (meta_of s.format k res.attributes ≡ ok m)
  unfolding put_secret
  put_parts k value w w' m h = elim (Result-cases (encode_name k)) [
    | inl (name, e) ↦ elim (Result-cases (s.client.set_secret name value (key_string k) w).0) [
      | inl (res, f) ↦
          (name, res, e, ground (arith, bytes_eq_iff value []), ground arith, ground arith)
      | inr (failure, f) ↦ ground arith
    ]
    | inr (failure, e) ↦ ground arith
  ]

  -- Where the client reads back what was set, a key whose Put of a text in UTF-8 succeeded is read by
  -- Get with the value that was put and the metadata that Put returned.
  pub get_secret-put_secret :
      (settle : W → W) (k : Key) (value : Bytes) (w w' : W) (m : SecretMeta)
      → ReadsBack s.client settle
      → IsUtf8 value
      → IsValidKey k
      → put_secret s k value w ≡ (ok m, w')
      → (get_secret s k (settle w')).0 ≡ ok (record { meta = m; value = value })
  unfolding get_secret
  get_secret-put_secret settle k value w w' m law text valid h =
      let (name, res, e, ne, call, made) = put_parts k value w w' m h in
      let (mk, mv) = meta_of_parts s.format k res.attributes m made in
      let stored : new_secret m value ≡ ok (record { meta = m; value = value }) =
        (new_secret_iff m value (record { meta = m; value = value })).1 (
          subst (λ (x : Key). x.name ≢ []) (sym mk) (name-ne-nil valid.name_valid),
          mv,
          ne,
          refl,
        ) in
      let back = law.reads_back name value (key_string k) w w' res text call in
      rw e (rw back (rw made stored))

  -- A run of the purge loop, with `left` attempts after this one, that ends in the state `u` with
  -- the secret purged: every attempt before the last is answered with status 409, the last with
  -- success or status 404, and the context lives through the wait that follows each conflict.
  pub data Purges (name : Bytes) (wait : ℕ → W → Option Error × W) : ℕ → W → W → Type 0 where
    settled :
        (left : ℕ) (w u : W) (r : Result (Unit {0}))
        → s.client.purge_deleted_secret name w ≡ (r, u)
        → IsSettled r
        → Purges name wait left w u
    waited :
        (left : ℕ) (w w' later u : W) (r : Result (Unit {0}))
        → s.client.purge_deleted_secret name w ≡ (r, w')
        → IsConflict r
        → wait (max_attempts - suc left) w' ≡ (none, later)
        → Purges name wait left later u
        → Purges name wait (suc left) w u

  purge_loop-Purges :
      (left : ℕ) (name : Bytes) (wait : ℕ → W → Option Error × W) (w u : W)
      → Purges name wait left w u
      → purge_loop s left name wait w ≡ (ok tt, u)
  unfolding purge_loop
  purge_loop-Purges zero name wait w u (settled _ _ _ r c v) = ground (arith, verdict-IsSettled r v)
  purge_loop-Purges (suc left) name wait w u (settled _ _ _ r c v) =
      ground (arith, verdict-IsSettled r v)
  purge_loop-Purges (suc left) name wait w u (waited _ _ w' later _ r c v n rest) =
      let (e, again) = verdict-IsConflict r v in
      ground (arith, again, purge_loop-Purges left name wait later u rest)

  Purges-purge_loop :
      (left : ℕ) (name : Bytes) (wait : ℕ → W → Option Error × W) (w u : W)
      → purge_loop s left name wait w ≡ (ok tt, u)
      → Purges name wait left w u
  unfolding purge_loop
  Purges-purge_loop zero name wait w u h =
      elim (verdict-cases (s.client.purge_deleted_secret name w).0) [
        | inl (is_settled, p) ↦ settled zero w u _ (ground arith) is_settled
        | inr (inl (is_conflict, (e, p))) ↦ ground arith
        | inr (inr (e, p)) ↦ ground arith
      ]
  Purges-purge_loop (suc left) name wait w u h =
      let c = s.client.purge_deleted_secret name w in
      let l = wait (max_attempts - suc left) c.1 in
      elim (verdict-cases c.0) [
        | inl (is_settled, p) ↦ settled (suc left) w u c.0 (ground arith) is_settled
        | inr (inl (is_conflict, (e, p))) ↦ elim (Option-cases l.0) [
          | inl n ↦
              waited left w c.1 l.1 u c.0 refl is_conflict (ground arith)
                (Purges-purge_loop left name wait l.1 u (ground arith))
          | inr (d, n) ↦ ground arith
        ]
        | inr (inr (e, p)) ↦ ground arith
      ]

  -- The purge loop ends with success in the state `u` exactly if one of its attempts, at most
  -- `left` after the first, is answered with success or status 404 in the state `u`, all attempts
  -- before it with status 409, and the context lives through the waits between them.
  pub purge_loop_iff :
      (left : ℕ) (name : Bytes) (wait : ℕ → W → Option Error × W) (w u : W)
      → (purge_loop s left name wait w ≡ (ok tt, u)) ↔ Purges name wait left w u
  purge_loop_iff left name wait w u =
      (Purges-purge_loop left name wait w u, purge_loop-Purges left name wait w u)
