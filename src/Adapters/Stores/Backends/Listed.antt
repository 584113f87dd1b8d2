-- ===== src/Adapters/Stores/Backends/Listed.antt =====
-- The keys that the backends list.
use vaultlet.Prelude.{
  Option, none, some, List, [], ◌∷◌, ◌++◌, Bytes, All, All-append, ◌≡◌, subst, sym, arith,
  Option-cases, Bool-cases, inl, inr, ℕ,
}
use vaultlet.Errors.{Result, ok, err, Result-cases, >>=-eq-ok}
use vaultlet.Domain.Key.{Key, Namespace, parse_key, contains}
use vaultlet.Domain.Key.Valid.{IsValidKey, parse_key-IsValid}
use vaultlet.Domain.Secret.{SecretMeta, Time, new_version}
use vaultlet.Ports.{Context}
use vaultlet.Adapters.Poll.{Wait}
use vaultlet.Adapters.Backend.{sort_by_key}
use vaultlet.Adapters.Backend.Order.{IsAscending, sort_by_key-IsAscending, sort_by_key-All}
use vaultlet.Adapters.Azure.Name.{decode_name}
use vaultlet.Adapters.Azure.Name
use vaultlet.Adapters.Azure.Store as Azure
use vaultlet.Adapters.Gcp.Store.Listing.{IsListed, list_secrets-IsListed}
use vaultlet.Adapters.Bitwarden.Store as Bitwarden
use vaultlet.Adapters.Stores.{azure_store, gcp_store, bitwarden_store}
use vaultlet.Adapters.Stores.Backends.{Backend, azure, gcp, bitwarden, backend_store}

-- A valid key.
abbrev pub HasValidKey : SecretMeta → Type 0
HasValidKey m = IsValidKey m.key

listed_as : (found ms : List SecretMeta) → found ≡ ms → All HasValidKey found → All HasValidKey ms
listed_as found ms e h = subst (All HasValidKey) e h

decode_name-IsValid : (name : Bytes) (k : Key) → decode_name name ≡ ok k → IsValidKey k
unfolding decode_name
decode_name-IsValid name k h =
    let (text, e, parsed) = >>=-eq-ok (Name.read name) parse_key h in
    parse_key-IsValid text k parsed

azure_meta_of-key :
    (format : Time → Bytes) (k : Key) (a : Option Azure.Attributes) (m : SecretMeta)
    → Azure.meta_of format k a ≡ ok m
    → m.key ≡ k
unfolding Azure.meta_of
azure_meta_of-key format k none m h = cc
azure_meta_of-key format k (some a) m h = elim (Option-cases a.updated) [
  | inl e ↦ ground arith
  | inr (t, e) ↦ elim (Option-cases a.created) [
    | inl f ↦ ground arith
    | inr (u, f) ↦ elim (Result-cases (new_version (format t))) [
      | inl (v, g) ↦ ground arith
      | inr (x, g) ↦ ground arith
    ]
  ]
]

list_entry-valid :
    (format : Time → Bytes) (ns : Namespace) (p : Option Azure.Properties) (ms : List SecretMeta)
    → Azure.list_entry format ns p ≡ ok ms
    → All HasValidKey ms
unfolding Azure.list_entry
list_entry-valid format ns none ms h = listed_as [] ms (ground arith) tt
list_entry-valid format ns (some p) ms h = elim (Option-cases p.name) [
  | inl e ↦ listed_as [] ms (ground arith) tt
  | inr (name, e) ↦ elim (Result-cases (decode_name name)) [
    | inr (x, f) ↦ listed_as [] ms (ground arith) tt
    | inl (k, f) ↦ elim (Bool-cases (contains ns k.ns)) [
      | inr c ↦ listed_as [] ms (ground arith) tt
      | inl c ↦ elim (Result-cases (Azure.meta_of format k p.attributes)) [
        | inr (x, g) ↦ ground arith
        | inl (m, g) ↦ listed_as (m ∷ []) ms (ground arith) (
          subst IsValidKey (sym (azure_meta_of-key format k p.attributes m g))
              (decode_name-IsValid name k f),
          tt,
        )
      ]
    ]
  ]
]

list_page-valid :
    (format : Time → Bytes) (ns : Namespace) (ps : List (Option Azure.Properties))
    (ms : List SecretMeta)
    → Azure.list_page format ns ps ≡ ok ms
    → All HasValidKey ms
unfolding Azure.list_page
list_page-valid format ns [] ms h = listed_as [] ms (ground arith) tt
list_page-valid format ns (p ∷ ps) ms h = elim (Result-cases (Azure.list_entry format ns p)) [
  | inr (x, e) ↦ ground arith
  | inl (shown, e) ↦ elim (Result-cases (Azure.list_page format ns ps)) [
    | inr (x, f) ↦ ground arith
    | inl (rest, f) ↦ listed_as (shown ++ rest) ms (ground arith) (
        All-append HasValidKey shown rest (list_entry-valid format ns p shown e)
          (list_page-valid format ns ps rest f))
  ]
]

list_pages-valid :
    (format : Time → Bytes) (ns : Namespace)
    (pages : List (Result (List (Option Azure.Properties)))) (ms : List SecretMeta)
    → Azure.list_pages format ns pages ≡ ok ms
    → All HasValidKey ms
unfolding Azure.list_pages
list_pages-valid format ns [] ms h = listed_as [] ms (ground arith) tt
list_pages-valid format ns (err x ∷ pages) ms h = ground arith
list_pages-valid format ns (ok page ∷ pages) ms h =
    elim (Result-cases (Azure.list_page format ns page)) [
      | inr (x, e) ↦ ground arith
      | inl (shown, e) ↦ elim (Result-cases (Azure.list_pages format ns pages)) [
        | inr (x, f) ↦ ground arith
        | inl (rest, f) ↦ listed_as (shown ++ rest) ms (ground arith) (
            All-append HasValidKey shown rest (list_page-valid format ns page shown e)
              (list_pages-valid format ns pages rest f))
      ]
    ]

metas_of-valid :
    {W : Type 0} (s : Bitwarden.Store W) (secs : List Bitwarden.Stored) (ms : List SecretMeta)
    → Bitwarden.metas_of s secs ≡ ok ms
    → All HasValidKey ms
unfolding Bitwarden.metas_of Bitwarden.meta_of
metas_of-valid s [] ms h = listed_as [] ms (ground arith) tt
metas_of-valid s (sec ∷ secs) ms h = elim (Result-cases (parse_key sec.key)) [
  | inr (x, e) ↦ metas_of-valid s secs ms (ground arith)
  | inl (k, e) ↦ elim (Result-cases (Bitwarden.version_at s sec.revision_date)) [
    | inr (x, f) ↦ ground arith
    | inl (v, f) ↦ elim (Result-cases (Bitwarden.metas_of s secs)) [
      | inr (x, g) ↦ ground arith
      | inl (rest, g) ↦
          let m : SecretMeta = record { key = k; version = v; created_at = sec.creation_date } in
          listed_as (m ∷ rest) ms (ground arith)
            (parse_key-IsValid sec.key k e, metas_of-valid s secs rest g)
    ]
  ]
]

-- A list of valid keys, sorted.
sorted-valid :
    (found ms : List SecretMeta)
    → All HasValidKey found
    → sort_by_key found ≡ ms
    → All HasValidKey ms × IsAscending ms
sorted-valid found ms h e = (
  subst (All HasValidKey) e (sort_by_key-All HasValidKey found h),
  subst IsAscending e (sort_by_key-IsAscending found),
)

fetch-valid :
    {W : Type 0} (s : Bitwarden.Store W) (ids : List Bytes) (w u : W) (ms : List SecretMeta)
    → Bitwarden.fetch s ids w ≡ (ok ms, u)
    → All HasValidKey ms × IsAscending ms
unfolding Bitwarden.fetch
fetch-valid s [] w u ms h = sorted-valid [] ms tt (unfold sort_by_key in ground arith)
fetch-valid s (id ∷ ids) w u ms h = elim (Result-cases (s.client.get_by_ids (id ∷ ids) w).0) [
  | inr (x, e) ↦ ground arith
  | inl (full, e) ↦ elim (Result-cases (Bitwarden.metas_of s full)) [
    | inr (x, f) ↦ ground arith
    | inl (found, f) ↦ sorted-valid found ms (metas_of-valid s full found f) (ground arith)
  ]
]

bitwarden_list-valid :
    {W : Type 0} (s : Bitwarden.Store W) (ctx : Context) (ns : Namespace) (w u : W)
    (ms : List SecretMeta)
    → Bitwarden.list_secrets s ctx ns w ≡ (ok ms, u)
    → All HasValidKey ms × IsAscending ms
unfolding Bitwarden.list_secrets
bitwarden_list-valid s ctx ns w u ms h = elim (Option-cases ctx.done) [
  | inr (x, e) ↦ ground arith
  | inl e ↦
      let l = s.client.list s.org_id w in
      elim (Result-cases l.0) [
        | inr (x, f) ↦ ground arith
        | inl (idents, f) ↦ fetch-valid s (Bitwarden.wanted s ns idents) l.1 u ms (ground arith)
      ]
]

azure_list-valid :
    {W : Type 0} (s : Azure.Store W) (ns : Namespace) (w u : W) (ms : List SecretMeta)
    → Azure.list_secrets s ns w ≡ (ok ms, u)
    → All HasValidKey ms × IsAscending ms
unfolding Azure.list_secrets
azure_list-valid s ns w u ms h =
    elim (Result-cases (Azure.list_pages s.format ns (s.client.pages w))) [
      | inr (x, e) ↦ ground arith
      | inl (found, e) ↦
          sorted-valid found ms (list_pages-valid s.format ns (s.client.pages w) found e)
            (ground arith)
    ]

IsListed-HasValidKey :
    (ns : Namespace) (ms : List SecretMeta) → All (IsListed ns) ms → All HasValidKey ms
IsListed-HasValidKey ns [] h = tt
IsListed-HasValidKey ns (m ∷ ms) ((v, c, x), h) = (v, IsListed-HasValidKey ns ms h)

-- What a List of any of the three backends returns has valid keys only, in their ascending order,
-- whatever else the vault holds.
pub list-HasValidKey :
    {W : Type 0} (b : Backend W) (waits : List Wait) (room : ℕ) (ctx : Context) (ns : Namespace)
    (w u : W) (ms : List SecretMeta)
    → (backend_store waits room b).list ctx ns w ≡ (ok ms, u)
    → All HasValidKey ms × IsAscending ms
unfolding backend_store azure_store gcp_store bitwarden_store
list-HasValidKey (azure wait s) waits room ctx ns w u ms h = azure_list-valid s ns w u ms h
list-HasValidKey (gcp s) waits room ctx ns w u ms h =
    let (all, sorted) = list_secrets-IsListed s ns w u ms h in
    (IsListed-HasValidKey ns ms all, sorted)
list-HasValidKey (bitwarden s) waits room ctx ns w u ms h = bitwarden_list-valid s ctx ns w u ms h
