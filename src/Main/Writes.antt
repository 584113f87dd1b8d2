-- ===== src/Main/Writes.antt =====
-- Who changes a secret through the server.
use vaultlet.Prelude.{
  ℕ, Bool, true, some, List, ◌∷◌, Bytes, Any, ◌≡◌, ◌≢◌, refl, ap, ◌∙◌, arith, inl, inr, Bool-cases,
  Option-cases,
}
use vaultlet.Errors.{ok, Result-cases}
use vaultlet.Config.{UserConfig, rule_specs}
use vaultlet.Config.Granting.{IsGranted, allows-IsGranted}
use vaultlet.Domain.Key.{Key, parse_key}
use vaultlet.Ports.{Context}
use vaultlet.App.Policy.{Action, put, delete, allows, new_policy}
use vaultlet.App.Service.{Service, State, as_store, guarded, audit}
use vaultlet.App.Service
use vaultlet.Adapters.Grpc.Auth.{Incoming, with_auth}
use vaultlet.Adapters.Grpc.Auth.Answers.{Proves, with_auth-cases}
use vaultlet.Adapters.Grpc.Handlers.{PutRequest, DeleteRequest, put_secret, delete_secret}

-- An RPC that may write.
pub data Write : Type 0 where
  put_rpc : PutRequest → Write
  delete_rpc : DeleteRequest → Write

abbrev pub action_of : Write → Action
action_of (put_rpc req) = put
action_of (delete_rpc req) = delete

abbrev pub text_of : Write → Bytes
text_of (put_rpc req) = req.key
text_of (delete_rpc req) = req.key

module _ {W : Type 0} (s : Service W) (room : ℕ) where
  -- The state behind the RPC's handler, and behind the RPC.
  unfoldable pub handled : Write → Context → State W → State W
  handled (put_rpc req) ctx st = (put_secret (as_store room s) req ctx st).1
  handled (delete_rpc req) ctx st = (delete_secret (as_store room s) req ctx st).1

  unfoldable pub behind :
      (Bytes → Bytes → Bool) → List UserConfig → Write → Incoming → State W → State W
  behind compare users (put_rpc req) rpc st =
      (with_auth compare users (put_secret (as_store room s) req) rpc st).1
  behind compare users (delete_rpc req) rpc st =
      (with_auth compare users (delete_secret (as_store room s) req) rpc st).1

  handled-allows :
      (write : Write) (ctx : Context) (who : Bytes) (st : State W)
      → ctx.principal ≡ some who
      → (handled write ctx st).world ≢ st.world
      → (k : Key) × (parse_key (text_of write) ≡ ok k)
        × (allows s.policy who (action_of write) k.ns ≡ true)
  unfolding handled put_secret delete_secret as_store Service.put_secret Service.delete_secret
      guarded audit
  handled-allows (put_rpc req) ctx who st known h = elim (Result-cases (parse_key req.key)) [
    | inr (x, e) ↦ absurd (h (ground arith))
    | inl (k, e) ↦ elim (Option-cases req.expected_version) [
      | inr (v, f) ↦ absurd (h (ground arith))
      | inl f ↦ elim (Bool-cases (allows s.policy who put k.ns)) [
        | inl g ↦ (k, e, g)
        | inr g ↦ absurd (h (ground arith))
      ]
    ]
  ]
  handled-allows (delete_rpc req) ctx who st known h = elim (Result-cases (parse_key req.key)) [
    | inr (x, e) ↦ absurd (h (ground arith))
    | inl (k, e) ↦ elim (Option-cases req.expected_version) [
      | inr (v, f) ↦ absurd (h (ground arith))
      | inl f ↦ elim (Bool-cases (allows s.policy who delete k.ns)) [
        | inl g ↦ (k, e, g)
        | inr g ↦ absurd (h (ground arith))
      ]
    ]
  ]

  -- An RPC that is refused leaves the state alone; another runs its handler for a proved name.
  behind-cases :
      (compare : Bytes → Bytes → Bool) (users : List UserConfig) (write : Write) (rpc : Incoming)
      (st : State W)
      → (behind compare users write rpc st).world ≢ st.world
      → (auth who : Bytes) × (rest : List Bytes) × (rpc.authorization ≡ some (auth ∷ rest))
        × Proves compare users auth who
        × ((handled write (record rpc.ctx { principal = some who }) st).world ≢ st.world)
  unfolding behind handled
  behind-cases compare users (put_rpc req) rpc st h =
      elim (with_auth-cases compare users (put_secret (as_store room s) req) rpc st) [
        | inl refused ↦ absurd (h (ap (λ x. x.1.world) refused))
        | inr (auth, who, rest, header, same, proved) ↦
            (auth, who, rest, header, proved, λ e. h (ap (λ x. x.1.world) same ∙ e))
      ]
  behind-cases compare users (delete_rpc req) rpc st h =
      elim (with_auth-cases compare users (delete_secret (as_store room s) req) rpc st) [
        | inl refused ↦ absurd (h (ap (λ x. x.1.world) refused))
        | inr (auth, who, rest, header, same, proved) ↦
            (auth, who, rest, header, proved, λ e. h (ap (λ x. x.1.world) same ∙ e))
      ]

  -- A PutSecret or DeleteSecret RPC that changes the backend's state has a first authorization value
  -- that proves the name of a user with its password, and that user's name is granted the action by
  -- the configuration at the namespace of the key of the request.
  pub behind-IsGranted :
      (compare : Bytes → Bytes → Bool) (users : List UserConfig) (write : Write) (rpc : Incoming)
      (st : State W)
      → new_policy (rule_specs users) ≡ ok s.policy
      → (behind compare users write rpc st).world ≢ st.world
      → (auth who : Bytes) × (rest : List Bytes) × (k : Key) × (rpc.authorization
          ≡ some (auth ∷ rest))
        × Proves compare users auth who
        × (parse_key (text_of write) ≡ ok k)
        × Any (IsGranted who (action_of write) k.ns) users
  behind-IsGranted compare users write rpc st compiled h =
      let (auth, who, rest, header, proved, changed) = behind-cases compare users write rpc st h in
      let (k, parsed, allowed) =
        handled-allows write (record rpc.ctx { principal = some who }) who st refl changed in
      let (granted, _) = allows-IsGranted who (action_of write) k.ns users s.policy compiled in
      (auth, who, rest, k, header, proved, parsed, granted allowed)
