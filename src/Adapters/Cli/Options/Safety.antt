-- ===== src/Adapters/Cli/Options/Safety.antt =====
-- A token is never sent in the clear.
use vaultlet.Prelude.{
  false, Option, none, some, [], Bytes, bytes_eq, ◌≡◌, ◌≢◌, ◌⊎◌, inl, inr, refl, arith, Bool-cases,
  bytes_eq_iff,
}
use vaultlet.Errors.{ok, Result-cases}
use vaultlet.Adapters.Cli.Token.{request_metadata}
use vaultlet.Adapters.Cli.Options.{
  Options, Host, Client, Target, plaintext, Transport, transport_credentials, token_option, connect,
}

module _ {W : Type 0} (host : Host W) (o : Options) where
  -- A target that connect may dial: the flags' server, with the token's metadata only over TLS.
  pub record IsSafe (t : Target) : Type 0 where
    pub server : t.server ≡ o.server
    pub token :
        ((t.authorization ≡ none) × (o.token ≡ []))
        ⊎ ((t.authorization ≡ some (request_metadata o.token)) × (t.transport ≢ plaintext))

  token_option-cases :
      (authorization : Option Bytes)
      → token_option host o ≡ ok authorization
      → ((authorization ≡ none) × (o.token ≡ []))
        ⊎ ((authorization ≡ some (request_metadata o.token)) × (o.insecure ≡ false))
  unfolding token_option
  token_option-cases authorization h = elim (Bool-cases (bytes_eq o.token [])) [
    | inl e ↦ inl (ground arith, (bytes_eq_iff o.token []).0 e)
    | inr e ↦ elim (Bool-cases o.insecure) [ inl f ↦ ground arith | inr f ↦ inr (ground arith, f) ]
  ]

  secure-transport :
      (w u : W) (transport : Transport)
      → o.insecure ≡ false
      → transport_credentials host o w ≡ (ok transport, u)
      → transport ≢ plaintext
  unfolding transport_credentials
  secure-transport w u transport f h = elim (Bool-cases (bytes_eq o.ca_file [])) [
    | inl e ↦ ground arith
    | inr e ↦ elim (Result-cases (host.read_file o.ca_file w).0) [
      | inl (pem, g) ↦ elim (Bool-cases (host.has_certs pem)) [
        | inl c ↦ ground arith
        | inr c ↦ ground arith
      ]
      | inr (x, g) ↦ ground arith
    ]
  ]

  -- A client that connect returns was dialled at the server of the flags: without authorization, if
  -- the flags have no token, and else with the token's metadata, over a transport with TLS.
  pub connect-IsSafe :
      (w v : W) (client : Client W)
      → connect host o w ≡ (ok client, v)
      → (t : Target) × (u : W) × (host.new_client t u ≡ (ok client, v)) × IsSafe t
  unfolding connect
  connect-IsSafe w v client h = elim (Result-cases (transport_credentials host o w).0) [
    | inr (x, e) ↦ ground arith
    | inl (transport, e) ↦ elim (Result-cases (token_option host o)) [
      | inr (x, f) ↦ ground arith
      | inl (authorization, f) ↦
          let u = (transport_credentials host o w).1 in
          let t : Target = record {
            server = o.server;
            transport = transport;
            authorization = authorization;
          } in
          elim (Result-cases (host.new_client t u).0) [
            | inr (x, g) ↦ ground arith
            | inl (c, g) ↦ (
              t,
              u,
              ground arith,
              record {
                server = refl;
                token = elim (token_option-cases authorization f) [
                  | inl none_given ↦ inl none_given
                  | inr (header, tls) ↦
                      inr (header, secure-transport w u transport tls (ground arith))
                ];
              },
            )
          ]
    ]
  ]
