-- ===== src/Adapters/Grpc/Handlers/Refusals.antt =====
-- The handlers over the service: a request that the policy refuses.
use vaultlet.Prelude.{ℕ, false, none, [], ◌∷◌, ◌++◌, Bytes, ◌≡◌, ap}
use vaultlet.Errors.{Result, ok, err, sentinel, permission_denied, is, same, number}
use vaultlet.Domain.Key.{Key, parse_key}
use vaultlet.Domain.Secret.{Secret, SecretMeta}
use vaultlet.Ports.{Context, SecretStore}
use vaultlet.App.Service.{Service, State, as_store}
use vaultlet.App.Service.Audited.{
  Reply, secret, meta, done, Call, get_call, put_call, delete_call, permitted, line, serve,
  serve-denied,
}
use vaultlet.Adapters.Grpc.Auth.{Status, fail}
use vaultlet.Adapters.Grpc.Handlers.{
  denied_status, answer, wire_secret, wire_meta, get_status, put_status, delete_status, get_secret,
  put_secret, delete_secret,
}

-- What a reply holds, for each kind of call.
abbrev secret_in : Reply → Result Secret
secret_in (secret r) = r
secret_in _ = err (sentinel permission_denied)

abbrev meta_in : Reply → Result SecretMeta
meta_in (meta r) = r
meta_in _ = err (sentinel permission_denied)

abbrev done_in : Reply → Result (Unit {0})
done_in (done r) = r
done_in _ = err (sentinel permission_denied)

-- A request for one key, without an expected version.
pub data Request : Type 0 where
  get_request : Request
  put_request : Bytes → Request
  delete_request : Request

abbrev pub call_of : Request → Key → Call
call_of get_request k = get_call k
call_of (put_request value) k = put_call k value
call_of delete_request k = delete_call k

-- The handler of the request, for the key text, answers with the status and leaves the state `u`.
unfoldable pub Fails :
    {W : Type 0} → SecretStore W → Request → Bytes → Context → Status → W → W → Type 0
Fails store get_request text ctx status w u = get_secret store text ctx w ≡ (fail status, u)
Fails store (put_request value) text ctx status w u =
    put_secret store (record { key = text; value = value; expected_version = none }) ctx w
    ≡ (fail status, u)
Fails store delete_request text ctx status w u =
    delete_secret store (record { key = text; expected_version = none }) ctx w ≡ (fail status, u)

module _ {W : Type 0} (s : Service W) (room : ℕ) where
  -- What the log becomes by a refused call.
  abbrev pub noted : Context → Call → State W → State W
  noted ctx c st = record st { log = st.log ++ line s ctx c st.world ∷ [] }

  -- Over the service, a GetSecret, a PutSecret or a DeleteSecret without an expected version, of a
  -- key that parses, answers PermissionDenied whenever the policy does not admit that one call,
  -- whatever it admits besides and whether there is such a secret or not; the backend is not
  -- touched, and the log gets the line of the refusal.
  pub handlers_denied :
      (ctx : Context) (req : Request) (text : Bytes) (k : Key) (st : State W)
      → parse_key text ≡ ok k
      → permitted s.policy ctx.principal (call_of req k) ≡ false
      → Fails (as_store room s) req text ctx denied_status st (noted ctx (call_of req k) st)
  unfolding Fails get_secret put_secret delete_secret as_store serve is same number get_status
      put_status delete_status
  handlers_denied ctx get_request text k st h g =
      rw (h, get_secret)
        (ap (λ x. (answer get_status wire_secret (secret_in x.0), x.1))
          (serve-denied s ctx (get_call k) st g))
  handlers_denied ctx (put_request value) text k st h p =
      rw (h, put_secret)
        (ap (λ x. (answer put_status wire_meta (meta_in x.0), x.1))
          (serve-denied s ctx (put_call k value) st p))
  handlers_denied ctx delete_request text k st h d =
      rw (h, delete_secret)
        (ap (λ x. (answer delete_status (λ u. u) (done_in x.0), x.1))
          (serve-denied s ctx (delete_call k) st d))
