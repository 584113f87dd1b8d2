-- ===== src/Adapters/Stores/Backends/Keeping.antt =====
-- The backends keep what is written to them, where their vaults do; and what the handlers then
-- answer.
use vaultlet.Prelude.{ℕ, true, none, some, List, Bytes, ◌≡◌, arith, inl, inr}
use vaultlet.Errors.{ok, Result-cases}
use vaultlet.Strings.Utf8.{IsUtf8}
use vaultlet.Domain.Key.{Key, key_string, parse_key}
use vaultlet.Domain.Key.Valid.{parse_key-IsValid}
use vaultlet.Ports.{Context, SecretStore}
use vaultlet.Ports.Laws.{KeepsSecrets, Anyone}
use vaultlet.App.Policy.{Policy}
use vaultlet.App.Service.{Service, State, as_store}
use vaultlet.App.Service.Audited.{permitted, get_call}
use vaultlet.App.Service.Keeping.{MayGet, settled, as_store-KeepsSecrets}
use vaultlet.Adapters.Poll.{Wait}
use vaultlet.Adapters.Grpc.Auth.{reply}
use vaultlet.Adapters.Grpc.Handlers.{WireMeta, put_secret, get_secret}
use vaultlet.Adapters.Azure.Store.Writes as AzureWrites
use vaultlet.Adapters.Gcp.Store.Writes as GcpWrites
use vaultlet.Adapters.Bitwarden.Store.Laws as BitwardenLaws
use vaultlet.Adapters.Bitwarden.Store.Writes.{bitwarden_get-put}
use vaultlet.Adapters.Stores.{azure_store, gcp_store, bitwarden_store}
use vaultlet.Adapters.Stores.Backends.{Backend, azure, gcp, bitwarden, backend_store}

-- The vault behind the backend reads back, once it has settled, what was written.
abbrev pub VaultReadsBack : {W : Type 0} → Backend W → (W → W) → Type 0
VaultReadsBack (azure wait s) settle = AzureWrites.ReadsBack s.client settle
VaultReadsBack (gcp s) settle = GcpWrites.ReadsBack s settle
VaultReadsBack (bitwarden s) settle = BitwardenLaws.ReadsBack s settle

-- What the vault behind the backend keeps: Azure and Bitwarden texts in UTF-8, Bitwarden where the
-- secrets of the key in scope, if there are any, have one identifier.
abbrev pub Fits : {W : Type 0} → Backend W → Key → Bytes → W → Type 0
Fits (azure wait s) k value w = IsUtf8 value
Fits (gcp s) k value w = Unit
Fits (bitwarden s) k value w = IsUtf8 value × BitwardenLaws.IsUnambiguous s (key_string k) w

pub backend_store-KeepsSecrets :
    {W : Type 0} (b : Backend W) (waits : List Wait) (room : ℕ) (settle : W → W)
    → VaultReadsBack b settle
    → KeepsSecrets (backend_store waits room b) settle (Fits b) Anyone
unfolding backend_store azure_store gcp_store bitwarden_store
backend_store-KeepsSecrets (azure wait s) waits room settle law = record {
  keeps = λ ctx ctx' k value w u m text v alive may h.
      AzureWrites.get_secret-put_secret s settle k value w u m law text v h;
}
backend_store-KeepsSecrets (gcp s) waits room settle law = record {
  keeps = λ ctx ctx' k value w u m fits v alive may h.
      GcpWrites.gcp_get-put s settle k value w u m law v h;
}
backend_store-KeepsSecrets (bitwarden s) waits room settle law = record {
  keeps = λ ctx ctx' k value w u m (text, one_id) v alive may h.
      bitwarden_get-put s settle ctx ctx' k value w u m law text one_id v alive h;
}

-- Over any store that keeps secrets, a GetSecret behind a PutSecret that was answered with metadata is
-- answered with the value that was put and that metadata.
handlers-KeepsSecrets :
    {W : Type 0} (store : SecretStore W) (settle : W → W) (Fitting : Key → Bytes → W → Type 0)
    (MayRead : Context → Key → Type 0) (ctx ctx' : Context) (text value : Bytes) (k : Key) (w u : W)
    (meta : WireMeta)
    → KeepsSecrets store settle Fitting MayRead
    → Fitting k value w
    → parse_key text ≡ ok k
    → ctx'.done ≡ none
    → MayRead ctx' k
    → put_secret store (record { key = text; value = value; expected_version = none }) ctx w
      ≡ (reply meta, u)
    → (get_secret store text ctx' (settle u)).0 ≡ reply (record { value = value; meta = some meta })
unfolding put_secret get_secret
handlers-KeepsSecrets store settle Fitting MayRead ctx ctx' text value k w u meta law fits parsed
      alive may h =
    elim (Result-cases (store.put ctx k value w).0) [
      | inr (x, e) ↦ ground arith
      | inl (m, e) ↦
          let kept =
            law.keeps ctx ctx' k value w u m fits (parse_key-IsValid text k parsed) alive may
              (ground arith) in
          ground (arith, kept)
    ]

-- Over the service on any of the three backends, whose vault reads back in the end what was written,
-- a GetSecret that follows a PutSecret of the same key once the vault has settled is answered with the
-- value that was put and the metadata that the PutSecret was answered with, where its context lives
-- and its principal may get the key. On Azure and Bitwarden the value is a text in UTF-8; on
-- Bitwarden the secrets of the key in scope, before the PutSecret, have at most one identifier.
pub handlers_get-put :
    {W : Type 0} (b : Backend W) (waits : List Wait) (room : ℕ) (settle : W → W) (policy : Policy)
    (ctx ctx' : Context) (text value : Bytes) (k : Key) (st st' : State W) (meta : WireMeta)
    → VaultReadsBack b settle
    → Fits b k value st.world
    → parse_key text ≡ ok k
    → ctx'.done ≡ none
    → permitted policy ctx'.principal (get_call k) ≡ true
    → put_secret
        (as_store room (record { store = backend_store waits room b; policy = policy }))
        (record { key = text; value = value; expected_version = none })
        ctx
        st
      ≡ (reply meta, st')
    → (get_secret
        (as_store room (record { store = backend_store waits room b; policy = policy }))
        text
        ctx'
        (settled settle st')).0
      ≡ reply (record { value = value; meta = some meta })
handlers_get-put b waits room settle policy ctx ctx' text value k st st' meta law fits parsed alive
      may h =
    let s : Service _ = record { store = backend_store waits room b; policy = policy } in
    handlers-KeepsSecrets (as_store room s) (settled settle) (λ k v st. Fits b k v st.world)
      (MayGet policy) ctx ctx' text value k st st' meta
      (as_store-KeepsSecrets s room settle (Fits b)
        (backend_store-KeepsSecrets b waits room settle law))
      fits parsed alive may h
