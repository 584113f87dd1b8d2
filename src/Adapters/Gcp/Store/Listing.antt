-- ===== src/Adapters/Gcp/Store/Listing.antt =====
-- What a listing of Secret Manager holds.
use vaultlet.Prelude.{
  true, List, [], ◌∷◌, ◌++◌, Bytes, All, All-append, ◌≡◌, ◌≢◌, sym, subst, arith, Bool-cases,
  Option-cases, inl, inr, bytes_eq_iff,
}
use vaultlet.Errors.{Result, ok, err, Result-cases, >>=-eq-ok}
use vaultlet.Domain.Key.{Key, Namespace, contains, parse_key}
use vaultlet.Domain.Key.Valid.{IsValidKey, parse_key-IsValid}
use vaultlet.Domain.Secret.{SecretMeta, new_version}
use vaultlet.Strings.{path_base}
use vaultlet.Adapters.Backend.{Exec, lift, ◌>>=◌, sort_by_key}
use vaultlet.Adapters.Backend.Order.{IsAscending, sort_by_key-IsAscending, sort_by_key-All}
use vaultlet.Adapters.Gcp.Name.{decode_id, read}
use vaultlet.Adapters.Gcp.Store.{
  Resource, Store, latest, passed_over, meta_of, latest_meta, list_loop, list_secrets,
}

-- The metadata is of a valid key under the namespace, and has a version.
abbrev pub IsListed : Namespace → SecretMeta → Type 0
IsListed ns m = IsValidKey m.key × (contains ns m.key.ns ≡ true) × (m.version.id ≢ [])

decode_id-IsValid : (id : Bytes) (k : Key) → decode_id id ≡ ok k → IsValidKey k
unfolding decode_id
decode_id-IsValid id k h =
    let (text, e, parsed) = >>=-eq-ok (read id) parse_key h in parse_key-IsValid text k parsed

pub meta_of_parts :
    (k : Key) (v : Bytes) (sec : Resource) (m : SecretMeta)
    → meta_of k v sec ≡ ok m
    → (m.key ≡ k) × (m.version.id ≢ [])
unfolding meta_of new_version
meta_of_parts k v sec m h = elim (Option-cases sec.create_time) [
  | inl e ↦ ground arith
  | inr (t, e) ↦ (ground arith, ground (arith, bytes_eq_iff (path_base v) []))
]

-- A predicate on the metadata of a result, if it has any.
abbrev Holds : (SecretMeta → Type 0) → Result (List SecretMeta) → Type 0
Holds P (ok ms) = All P ms
Holds P (err e) = Unit

-- Two steps of a listing whose answers are put together.
joined-Holds :
    {W : Type 0} (P : SecretMeta → Type 0) (first rest : Exec W (List SecretMeta)) (w : W)
    → Holds P (first w).0
    → ((u : W) → Holds P (rest u).0)
    → Holds P ((first >>= λ shown. rest >>= λ others. lift (ok (shown ++ others))) w).0
joined-Holds P first rest w h r = elim (Result-cases (first w).0) [
  | inr (x, e) ↦ rw e tt
  | inl (ms, e) ↦ elim (Result-cases (rest (first w).1).0) [
    | inr (x, f) ↦ rw e (rw f tt)
    | inl (ns, f) ↦
        rw e (rw f (All-append P ms ns (subst (Holds P) e h) (subst (Holds P) f (r (first w).1))))
  ]
]

module _ {W : Type 0} (s : Store W) where
  latest_meta-Holds :
      (ns : Namespace) (k : Key) (sec : Resource) (w : W)
      → IsValidKey k
      → contains ns k.ns ≡ true
      → Holds (IsListed ns) (latest_meta s k sec w).0
  unfolding latest_meta
  latest_meta-Holds ns k sec w v c =
      elim (Result-cases (s.client.get_secret_version (latest s sec.name) w).0) [
        | inl (ver, e) ↦ elim (Bool-cases ver.enabled) [
          | inl f ↦ elim (Result-cases (meta_of k ver.name sec)) [
            | inl (m, g) ↦
                let (mk, mv) = meta_of_parts k ver.name sec m g in
                rw (e, latest_meta)
                  (rw f (
                    rw g (
                      (
                        subst IsValidKey (sym mk) v,
                        subst (λ (x : Key). contains ns x.ns ≡ true) (sym mk) c,
                        mv,
                      ),
                      tt,
                    )))
            | inr (x, g) ↦ rw (e, latest_meta) (rw f (rw g tt))
          ]
          | inr f ↦ rw (e, latest_meta) (rw f tt)
        ]
        | inr (x, e) ↦ elim (Bool-cases (passed_over s x)) [
          | inl f ↦ rw (e, latest_meta) (rw f tt)
          | inr f ↦ rw (e, latest_meta) (rw f tt)
        ]
      ]

  list_loop-Holds :
      (ns : Namespace) (secs : List Resource) (w : W)
      → Holds (IsListed ns) (list_loop s ns secs w).0
  unfolding list_loop
  list_loop-Holds ns [] w = tt
  list_loop-Holds ns (sec ∷ secs) w = elim (Result-cases (decode_id (path_base sec.name))) [
    | inr (x, e) ↦ rw (e, list_loop) (list_loop-Holds ns secs w)
    | inl (k, e) ↦ elim (Bool-cases (contains ns k.ns)) [
      | inr f ↦ rw (e, list_loop) (rw f (list_loop-Holds ns secs w))
      | inl f ↦
          rw (e, list_loop)
            (rw f (
              joined-Holds (IsListed ns) (latest_meta s k sec) (list_loop s ns secs) w
                (latest_meta-Holds ns k sec w (decode_id-IsValid (path_base sec.name) k e) f)
                (list_loop-Holds ns secs)))
    ]
  ]

  -- What a List of Secret Manager returns is in the ascending order of its keys, and each of its
  -- metadata is of a valid key under the namespace and has a version.
  pub list_secrets-IsListed :
      (ns : Namespace) (w w' : W) (ms : List SecretMeta)
      → list_secrets s ns w ≡ (ok ms, w')
      → All (IsListed ns) ms × IsAscending ms
  unfolding list_secrets
  list_secrets-IsListed ns w w' ms h = elim (Result-cases (s.client.list_secrets s.parent w).0) [
    | inr (x, e) ↦ ground arith
    | inl (secs, e) ↦
        let u = (s.client.list_secrets s.parent w).1 in
        elim (Result-cases (list_loop s ns secs u).0) [
          | inr (x, f) ↦ ground arith
          | inl (found, f) ↦
              let all = subst (Holds (IsListed ns)) f (list_loop-Holds ns secs u) in
              let same : sort_by_key found ≡ ms = ground arith in
              (
                subst (All (IsListed ns)) same (sort_by_key-All (IsListed ns) found all),
                subst IsAscending same (sort_by_key-IsAscending found),
              )
        ]
  ]
