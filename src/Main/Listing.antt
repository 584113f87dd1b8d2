-- ===== src/Main/Listing.antt =====
-- Whom the server lists a secret for.
use vaultlet.Prelude.{
  ℕ, Bool, true, some, List, [], ◌∷◌, Bytes, bytes_eq, All, Any, ◌≡◌, refl, sym, subst, ◌∙◌, arith,
  inl, inr, Bool-cases,
}
use vaultlet.Errors.{ok, Result-cases}
use vaultlet.Config.{UserConfig, rule_specs}
use vaultlet.Config.Granting.{IsGranted, allows-IsGranted}
use vaultlet.Domain.Key.{Key, Namespace, key_string, contains}
use vaultlet.Domain.Secret.{SecretMeta}
use vaultlet.Ports.{Context}
use vaultlet.App.Policy.{list, allows, new_policy, can_list}
use vaultlet.App.Service.{Service, State, as_store, audit, listed}
use vaultlet.App.Service
use vaultlet.Adapters.Grpc.Auth.{reply, Incoming, with_auth}
use vaultlet.Adapters.Grpc.Auth.Answers.{Proves, with_auth-cases}
use vaultlet.Adapters.Grpc.Handlers.{
  WireMeta, ListRequest, ListResponse, wire_metas, wire_meta, request_namespace, list_secrets,
}

-- A line of a listing is of a key under the namespace, at which the users' rules grant list.
abbrev pub IsShown : List UserConfig → Bytes → Namespace → WireMeta → Type 0
IsShown users who ns meta =
    (k : Key) × (meta.key ≡ key_string k)
    × (contains ns k.ns ≡ true)
    × Any (IsGranted who list k.ns) users

module _ {W : Type 0} (s : Service W) (room : ℕ) (users : List UserConfig) where
  listed-IsShown :
      (who : Bytes) (ns : Namespace) (metas : List SecretMeta)
      → new_policy (rule_specs users) ≡ ok s.policy
      → All (IsShown users who ns) (wire_metas (listed s who ns metas))
  unfolding listed wire_meta
  listed-IsShown who ns [] compiled = tt
  listed-IsShown who ns (m ∷ metas) compiled = elim (Bool-cases (contains ns m.key.ns)) [
    | inr e ↦ rw e (listed-IsShown who ns metas compiled)
    | inl e ↦ elim (Bool-cases (allows s.policy who list m.key.ns)) [
      | inr f ↦ rw (e, f) (listed-IsShown who ns metas compiled)
      | inl f ↦
          let (granted, _) = allows-IsGranted who list m.key.ns users s.policy compiled in
          rw (e, f) ((m.key, refl, e, granted f), listed-IsShown who ns metas compiled)
    ]
  ]

  list_secrets-replies :
      (ctx : Context) (who : Bytes) (req : ListRequest) (st st' : State W) (resp : ListResponse)
      → ctx.principal ≡ some who
      → list_secrets (as_store room s) req ctx st ≡ (reply resp, st')
      → (ns : Namespace) × (metas : List SecretMeta) × (request_namespace req.namespace ≡ ok ns)
        × (resp.secrets ≡ wire_metas (listed s who ns metas))
  unfolding list_secrets as_store Service.list_secrets audit
  list_secrets-replies ctx who req st st' resp known h =
      elim (Result-cases (request_namespace req.namespace)) [
        | inr (x, e) ↦ ground arith
        | inl (ns, e) ↦ elim (Bool-cases (can_list s.policy who ns)) [
          | inr f ↦ elim (Bool-cases (bytes_eq req.page_token [])) [
            | inl t ↦ ground arith
            | inr t ↦ ground arith
          ]
          | inl f ↦ elim (Bool-cases (bytes_eq req.page_token [])) [
            | inr t ↦ ground arith
            | inl t ↦ elim (Result-cases (s.store.list ctx ns st.world).0) [
              | inr (x, g) ↦ ground arith
              | inl (metas, g) ↦ (ns, metas, e, ground arith)
            ]
          ]
        ]
      ]

  -- A ListSecrets RPC that is answered has a first authorization value that proves the name of a user
  -- with its password, and every line of the answer is of a key under the requested namespace at
  -- which the configuration grants that name list.
  pub list_secrets-IsGranted :
      (compare : Bytes → Bytes → Bool) (rpc : Incoming) (req : ListRequest) (st st' : State W)
      (resp : ListResponse)
      → new_policy (rule_specs users) ≡ ok s.policy
      → with_auth compare users (list_secrets (as_store room s) req) rpc st ≡ (reply resp, st')
      → (auth who : Bytes) × (rest : List Bytes) × (ns : Namespace) × (rpc.authorization
          ≡ some (auth ∷ rest))
        × Proves compare users auth who
        × (request_namespace req.namespace ≡ ok ns)
        × All (IsShown users who ns) resp.secrets
  list_secrets-IsGranted compare rpc req st st' resp compiled h =
      elim (with_auth-cases compare users (list_secrets (as_store room s) req) rpc st) [
        | inl refused ↦ cc
        | inr (auth, who, rest, header, handled, proved) ↦
            let (ns, metas, parsed, shown) =
              list_secrets-replies (record rpc.ctx { principal = some who }) who req st st' resp
                refl (sym handled ∙ h) in
            (
              auth,
              who,
              rest,
              ns,
              header,
              proved,
              parsed,
              subst (All (IsShown users who ns)) (sym shown) (listed-IsShown who ns metas compiled),
            )
      ]
