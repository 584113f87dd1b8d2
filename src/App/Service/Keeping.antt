-- ===== src/App/Service/Keeping.antt =====
-- The service keeps what is written through it, for those who may read it.
use vaultlet.Prelude.{true, Bytes, ◌≡◌, arith, inl, inr, Bool-cases, Option-cases, ℕ}
use vaultlet.Errors.{ok}
use vaultlet.Domain.Key.{Key}
use vaultlet.Domain.Secret.{Secret, SecretMeta}
use vaultlet.Ports.{Context}
use vaultlet.Ports.Laws.{KeepsSecrets, Anyone}
use vaultlet.App.Policy.{Policy, put, allows}
use vaultlet.App.Service.{Service, State, as_store, guarded, audit}
use vaultlet.App.Service
use vaultlet.App.Service.Audited.{permitted, get_call}

-- Who may read through the service.
abbrev pub MayGet : Policy → Context → Key → Type 0
MayGet policy ctx k = permitted policy ctx.principal (get_call k) ≡ true

-- The backend settles; the log stays.
abbrev pub settled : {W : Type 0} → (W → W) → State W → State W
settled settle st = record st { world = settle st.world }

module _ {W : Type 0} (s : Service W) (room : ℕ) where
  -- A put of the service that succeeded was one of the backend.
  put-backend :
      (ctx : Context) (k : Key) (value : Bytes) (st st' : State W) (m : SecretMeta)
      → (as_store room s).put ctx k value st ≡ (ok m, st')
      → s.store.put ctx k value st.world ≡ (ok m, st'.world)
  unfolding as_store Service.put_secret guarded audit
  put-backend ctx k value st st' m h = elim (Option-cases ctx.principal) [
    | inl e ↦ ground arith
    | inr (who, e) ↦ elim (Bool-cases (allows s.policy who put k.ns)) [
      | inl f ↦ ground arith
      | inr f ↦ ground arith
    ]
  ]

  get-backend :
      (ctx : Context) (k : Key) (st : State W) (secret : Secret)
      → MayGet s.policy ctx k
      → (s.store.get ctx k st.world).0 ≡ ok secret
      → ((as_store room s).get ctx k st).0 ≡ ok secret
  unfolding as_store Service.get_secret guarded audit
  get-backend ctx k st secret may h = elim (Option-cases ctx.principal) [
    | inl e ↦ ground arith
    | inr (who, e) ↦ ground arith
  ]

  -- Where the backend keeps secrets for everyone, the service, which is a SecretStore itself, keeps
  -- them for the principals that may get them.
  pub as_store-KeepsSecrets :
      (settle : W → W) (Fits : Key → Bytes → W → Type 0)
      → KeepsSecrets s.store settle Fits Anyone
      → KeepsSecrets
          (as_store room s)
          (settled settle)
          (λ k value st. Fits k value st.world)
          (MayGet s.policy)
  as_store-KeepsSecrets settle Fits law = record {
    keeps = λ ctx ctx' k value st st' m fits v alive may h.
        get-backend ctx' k (settled settle st') (record { meta = m; value = value }) may
          (law.keeps ctx ctx' k value st.world st'.world m fits v alive tt
            (put-backend ctx k value st st' m h));
  }
