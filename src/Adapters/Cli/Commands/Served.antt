-- ===== src/Adapters/Cli/Commands/Served.antt =====
-- The command `get` against the server of this repository.
use vaultlet.Prelude.{
  ℕ, Bool, true, false, Option, none, some, List, [], ◌∷◌, Bytes, codes, bytes_eq, bytes_eq_iff,
  ◌≡◌, ◌≢◌, sym, ap, ◌∙◌, subst, refl, arith, ◌⊎◌, inl, inr,
}
use vaultlet.Errors.{ok, err}
use vaultlet.Base64.{encode}
use vaultlet.Base64.RoundTrip.{IsBytes}
use vaultlet.Strings.Parts.{Lacks}
use vaultlet.Config.{UserConfig}
use vaultlet.Domain.Key.{Key, key_string, parse_key}
use vaultlet.Domain.Key.Valid.{parse_key-IsValid}
use vaultlet.Domain.Key.RoundTrip.{parse_key-string}
use vaultlet.Domain.Secret.{Secret}
use vaultlet.Ports.{Context}
use vaultlet.App.Policy.{get, allows}
use vaultlet.App.Service.{Service, State, as_store, with_principal, guarded}
use vaultlet.App.Service
use vaultlet.Adapters.Backend.{Exec, ◌>>◌}
use vaultlet.Adapters.Grpc.Auth.{Answer, reply, fail, Incoming, authenticate, with_auth}
use vaultlet.Adapters.Grpc.Auth.Users.{Registered}
use vaultlet.Adapters.Grpc.Handlers.{WireSecret, wire_secret}
use vaultlet.Adapters.Grpc.Handlers
use vaultlet.Adapters.Cli.Token.{request_metadata, credentials, authenticate-request_metadata}
use vaultlet.Adapters.Cli.Options.{
  Options, Host, Client, tls_system, Rpc, RpcError, rpc_error, answered, failed, of_status,
  validate_output, call_timeout, closing, transport_credentials, token_option, with_client,
}
use vaultlet.Adapters.Cli.Render.{Format, newline}
use vaultlet.Adapters.Cli.Commands.{show_secret, get_command}

encode-ne-nil : (s : Bytes) → s ≢ [] → encode s ≢ []
unfolding encode
encode-ne-nil [] h = h
encode-ne-nil (a ∷ []) h = cc
encode-ne-nil (a ∷ b ∷ []) h = cc
encode-ne-nil (a ∷ b ∷ c ∷ s) h = cc

credentials-ne-nil : (username password : Bytes) → credentials username password ≢ []
credentials-ne-nil [] password = cc
credentials-ne-nil (c ∷ cs) password = cc

-- Over TLS with the system's roots a body runs on the client that was dialled.
with_client_dialled :
    {W A : Type 0} (host : Host W) (o : Options) (client : Client W) (body : Client W → Exec W A)
    (w v : W)
    → o.insecure ≡ false
    → o.ca_file ≡ []
    → o.token ≢ []
    → host.new_client
        (record {
          server = o.server;
          transport = tls_system;
          authorization = some (request_metadata o.token);
        })
        w
      ≡ (ok client, v)
    → with_client host o body w ≡ closing client (body client) v
unfolding with_client transport_credentials token_option
with_client_dialled host o client body w v tls roots token dialled =
    let present : bytes_eq o.token [] ≡ false = ground (arith, bytes_eq_iff o.token []) in
    rw (tls, with_client)
      (rw ((bytes_eq_iff o.ca_file []).1 roots, with_client)
        (rw (present, with_client) (rw (dialled, with_client) refl)))

-- What arrives of a connection's authorization, in a context that has not ended.
abbrev pub incoming : Option Bytes → Incoming
incoming none = record { authorization = some []; ctx = record { principal = none; done = none } }
incoming (some header) = record {
  authorization = some (header ∷ []);
  ctx = record { principal = none; done = none };
}

abbrev pub of_answer : Answer WireSecret → Rpc (Option WireSecret)
of_answer (reply secret) = answered (some secret)
of_answer (fail s) = failed (of_status s)

-- A context behind the interceptor.
abbrev pub authed : Bytes → Context
authed who = record { principal = some who; done = none }

Rpc-cases :
    {A : Type 0} (r : Rpc A) → ((a : A) × (r ≡ answered a)) ⊎ ((e : RpcError) × (r ≡ failed e))
Rpc-cases (answered a) = inl (a, refl)
Rpc-cases (failed e) = inr (e, refl)

-- In text, without a file, a secret is its value and a line break.
show_secret_text :
    {W : Type 0} (host : Host W) (f : Format) (o : Options) (secret : Secret) (u : W)
    → o.output ≡ codes "text"
    → show_secret host f o
        (record { out_file = []; no_trail = false })
        (some (wire_secret secret))
        u
      ≡ (host.write secret.value >> host.write newline) u
unfolding show_secret bytes_eq
show_secret_text host f o secret u text = rw (text, show_secret) refl

text_is_valid : (o : Options) → o.output ≡ codes "text" → validate_output o ≡ ok tt
unfolding validate_output bytes_eq
text_is_valid o text = rw (text, validate_output) refl

module _ {W B : Type 0} (compare : Bytes → Bytes → Bool) (users : List UserConfig) (s : Service B)
    (room : ℕ) (server_of : W → State B) where
  -- A call of a client may fail in any way and at any time. Where it is answered, the answer is that
  -- of the handler behind the interceptor, run with the metadata of the connection on the state
  -- that the server then has, which is part of the world.
  pub record Carries (client : Client W) (authorization : Option Bytes) : Type 0 where
    pub carries_get :
        (deadline : Option ℕ) (text : Bytes) (w w' : W) (secret : Option WireSecret)
        → client.get_secret deadline text w ≡ (answered secret, w')
        → of_answer
            (with_auth compare users
              (Handlers.get_secret (as_store room s) text)
              (incoming authorization)
              (server_of w)).0
          ≡ answered secret

  -- Behind the interceptor a permitted get of a secret that the backend has answers it.
  handler_replies :
      (who arg : Bytes) (k : Key) (secret : Secret) (st : State B) (b : B)
      → parse_key arg ≡ ok k
      → allows s.policy who get k.ns ≡ true
      → s.store.get (authed who) k st.world ≡ (ok secret, b)
      → (Handlers.get_secret (as_store room s) arg (authed who) st).0 ≡ reply (wire_secret secret)
  unfolding Handlers.get_secret as_store Service.get_secret
  handler_replies who arg k secret st b parsed allowed found = ground arith

  -- What a header that authenticates lets a handler answer.
  authed_answer :
      {A : Type 0} (handler : Context → State B → Answer A × State B) (header who : Bytes)
      (st : State B) (a : Answer A)
      → authenticate compare users (some (header ∷ [])) ≡ reply who
      → (handler (authed who) st).0 ≡ a
      → (with_auth compare users handler (incoming (some header)) st).0 ≡ a
  unfolding with_auth with_principal
  authed_answer handler header who st a e h = rw (e, with_auth) h

  -- The command `get` for a valid key, run with the token of a user that the server knows and no
  -- other flags, over a connection that is made; the user's name has no colon, name and password are
  -- of bytes, the hash of the user is that of the password, the policy lets the user get the key, and
  -- the backend has it. Then the call is answered, and the command writes the stored value and a line
  -- break to the standard output and closes the connection; or the call failed, and the
  -- command closes the connection and fails with that error.
  pub get_command_served :
      (host : Host W) (f : Format) (o : Options) (client : Client W)
      (username password hash arg : Bytes) (k : Key) (secret : Secret) (w v u : W) (b : B)
      (r : Rpc (Option WireSecret))
      → o.output ≡ codes "text"
      → o.insecure ≡ false
      → o.ca_file ≡ []
      → o.token ≡ encode (credentials username password)
      → IsBytes (credentials username password)
      → Lacks b':' username
      → Registered users username hash
      → compare hash password ≡ true
      → host.new_client
          (record {
            server = o.server;
            transport = tls_system;
            authorization = some (request_metadata o.token);
          })
          w
        ≡ (ok client, v)
      → Carries client (some (request_metadata o.token))
      → parse_key arg ≡ ok k
      → allows s.policy username get k.ns ≡ true
      → s.store.get (authed username) k (server_of v).world ≡ (ok secret, b)
      → client.get_secret (call_timeout o.timeout) (key_string k) v ≡ (r, u)
      → ((r ≡ answered (some (wire_secret secret)))
          × (get_command host f o (record { out_file = []; no_trail = false }) arg w
              ≡ closing client (host.write secret.value >> host.write newline) u))
        ⊎ ((e : RpcError) × (r ≡ failed e)
            × (get_command host f o (record { out_file = []; no_trail = false }) arg w
                ≡ (err (rpc_error e), client.close u)))
  unfolding get_command
  get_command_served host f o client username password hash arg k secret w v u b r text tls roots
        token bytes plain known matches dialled carries parsed allowed found called =
      let given : o.token ≢ [] =
        subst (λ t. t ≢ []) (sym token) (encode-ne-nil _ (credentials-ne-nil username password)) in
      let who : authenticate compare users (some (request_metadata o.token ∷ [])) ≡ reply username =
        subst (λ t. authenticate compare users (some (request_metadata t ∷ [])) ≡ reply username)
          (sym token)
          (authenticate-request_metadata compare users username password hash [] bytes plain known
            matches) in
      let canonical = parse_key-string k (parse_key-IsValid arg k parsed) in
      let replied =
        handler_replies username (key_string k) k secret (server_of v) b canonical allowed found in
      let arrived =
        authed_answer (Handlers.get_secret (as_store room s) (key_string k))
          (request_metadata o.token) username (server_of v) (reply (wire_secret secret)) who
          replied in
      let valid = text_is_valid o text in
      elim (Rpc-cases r) [
        | inl (answer, e) ↦
            let same : answer ≡ some (wire_secret secret) = ground (
              arith,
              carries.carries_get (call_timeout o.timeout) (key_string k) v u answer
                  (called ∙ ap (λ x. (x, u)) e),
              ap of_answer arrived,
            ) in
            inl (
              e ∙ ap answered same,
              rw (valid, get_command)
                  (rw (parsed, get_command)
                    (with_client_dialled host o client _ w v tls roots given dialled
                      ∙ rw (called, e, same) (rw (show_secret_text host f o secret u text) refl))),
            )
        | inr (failure, e) ↦ inr (
          failure,
          e,
          rw (valid, get_command)
              (rw (parsed, get_command)
                (with_client_dialled host o client _ w v tls roots given dialled
                  ∙ rw (called, e) refl)),
        )
      ]
