-- ===== src/Main/Access.antt =====
-- Who a secret leaves the server for: authentication, the policy of the configured rules and the
-- backend behind one RPC.
use vaultlet.Prelude.{
  ℕ, Bool, true, some, List, ◌∷◌, Bytes, Any, ◌≡◌, refl, sym, ◌∙◌, arith, inl, inr, Bool-cases,
}
use vaultlet.Errors.{ok, Result-cases}
use vaultlet.Config.{UserConfig, rule_specs}
use vaultlet.Config.Granting.{IsGranted, allows-IsGranted}
use vaultlet.Domain.Key.{Key, parse_key}
use vaultlet.Domain.Secret.{Secret}
use vaultlet.Ports.{Context}
use vaultlet.App.Policy.{get, allows, new_policy}
use vaultlet.App.Service.{Service, State, as_store, guarded, audit}
use vaultlet.App.Service
use vaultlet.Adapters.Grpc.Auth.{reply, Incoming, with_auth}
use vaultlet.Adapters.Grpc.Auth.Answers.{Proves, with_auth-cases}
use vaultlet.Adapters.Grpc.Handlers.{WireSecret, get_secret, wire_secret}

module _ {W : Type 0} (s : Service W) (room : ℕ) where
  -- A handler that answers with a secret has it from the backend, and the policy allowed it.
  get_secret-replies :
      (ctx : Context) (who text : Bytes) (st st' : State W) (answer : WireSecret)
      → ctx.principal ≡ some who
      → get_secret (as_store room s) text ctx st ≡ (reply answer, st')
      → (k : Key) × (secret : Secret) × (parse_key text ≡ ok k)
        × (allows s.policy who get k.ns ≡ true)
        × ((s.store.get ctx k st.world).0 ≡ ok secret)
        × (answer ≡ wire_secret secret)
  unfolding get_secret as_store Service.get_secret guarded audit
  get_secret-replies ctx who text st st' answer known h = elim (Result-cases (parse_key text)) [
    | inr (x, e) ↦ ground arith
    | inl (k, e) ↦ elim (Bool-cases (allows s.policy who get k.ns)) [
      | inr f ↦ ground arith
      | inl f ↦ elim (Result-cases (s.store.get ctx k st.world).0) [
        | inr (x, g) ↦ ground arith
        | inl (secret, g) ↦ (k, secret, e, f, g, ground arith)
      ]
    ]
  ]

  -- A GetSecret RPC that is answered with a secret has a first authorization value that proves the
  -- name of a user with its password, and that user's name is granted get by the configuration at the namespace of
  -- the requested key; the answer is what the backend has for the key.
  pub get_secret-IsGranted :
      (compare : Bytes → Bytes → Bool) (users : List UserConfig) (rpc : Incoming) (text : Bytes)
      (st st' : State W) (answer : WireSecret)
      → new_policy (rule_specs users) ≡ ok s.policy
      → with_auth compare users (get_secret (as_store room s) text) rpc st ≡ (reply answer, st')
      → (auth who : Bytes) × (rest : List Bytes) × (k : Key) × (secret : Secret)
        × (rpc.authorization ≡ some (auth ∷ rest))
        × Proves compare users auth who
        × (parse_key text ≡ ok k)
        × Any (IsGranted who get k.ns) users
        × ((s.store.get (record rpc.ctx { principal = some who }) k st.world).0 ≡ ok secret)
        × (answer ≡ wire_secret secret)
  get_secret-IsGranted compare users rpc text st st' answer compiled h =
      elim (with_auth-cases compare users (get_secret (as_store room s) text) rpc st) [
        | inl refused ↦ cc
        | inr (auth, who, rest, header, handled, proved) ↦
            let (k, secret, parsed, allowed, found, same) =
              get_secret-replies (record rpc.ctx { principal = some who }) who text st st' answer
                refl (sym handled ∙ h) in
            let (granted, _) = allows-IsGranted who get k.ns users s.policy compiled in
            (auth, who, rest, k, secret, header, proved, parsed, granted allowed, found, same)
      ]
