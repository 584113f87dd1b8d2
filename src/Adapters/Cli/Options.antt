-- ===== src/Adapters/Cli/Options.antt =====
-- internal/adapters/driving/cli/root.go, client.go and render.go: the shared flags, their checks
-- and the connection. What the command asks of its environment is a parameter, `Host`.
pub mod Safety
use Prim.Native.String.{String}
use vaultlet.Prelude.{
  ℕ, zero, suc, Bool, true, false, ◌||◌, not, Option, none, some, List, [], ◌∷◌, ◌++◌, Bytes,
  bytes_eq, codes, if◌then◌else◌,
}
use vaultlet.Integers.{ℤ, pos, negsuc}
use vaultlet.Errors.{Error, plain, wrap, Result, ok, err}
use vaultlet.Adapters.Backend.{Exec, ◌>>=◌, ◌>>◌, lift, refuse_if, wrapped}
use vaultlet.Adapters.Grpc.Auth.{Status}
use vaultlet.Adapters.Grpc.Handlers.{
  WireSecret, WireMeta, WireEvent, PutRequest, DeleteRequest, ListRequest, ListResponse,
}
use vaultlet.Adapters.Cli.Token.{request_metadata}

pub record Options : Type 0 where
  pub server : Bytes
  pub token : Bytes
  pub timeout : ℤ
  pub insecure : Bool
  pub ca_file : Bytes
  pub output : Bytes

-- The transport: plaintext, or TLS 1.3 over the system's roots or those of a file.
pub data Transport : Type 0 where
  plaintext : Transport
  tls_system : Transport
  tls_roots : Bytes → Transport

-- What grpc.NewClient is given. The authorization is that of tokenCreds.
pub record Target : Type 0 where
  pub server : Bytes
  pub transport : Transport
  pub authorization : Option Bytes

-- What a call of the client fails with: an error that status.FromError finds a status in, or not.
pub data RpcError : Type 0 where
  of_status : Status → RpcError
  other_error : Error → RpcError

pub data Rpc (A : Type 0) : Type 0 where
  answered : A → Rpc A
  failed : RpcError → Rpc A

-- How a stream of Recv ends: io.EOF, or an error, and whether ctx.Err() is set then.
pub data StreamEnd : Type 0 where
  eof : StreamEnd
  broken : RpcError → Bool → StreamEnd

pub record EventStream : Type 0 where
  pub events : List (Option WireEvent)
  pub end : StreamEnd

-- A client, over the state `W` of everything outside. A call gets its timeout, if it has one.
pub record Client (W : Type 0) : Type 0 where
  pub get_secret : Option ℕ → Bytes → W → Rpc (Option WireSecret) × W
  pub put_secret : Option ℕ → PutRequest → W → Rpc (Option WireMeta) × W
  pub list_secrets : Option ℕ → ListRequest → W → Rpc ListResponse × W
  pub delete_secret : Option ℕ → DeleteRequest → W → Rpc (Unit {0}) × W
  pub watch_secrets : Bytes → W → Rpc EventStream × W
  pub close : W → W

-- Files, the standard streams and grpc.NewClient.
pub record Host (W : Type 0) : Type 0 where
  pub read_file : Bytes → Exec W Bytes
  pub write_file : Bytes → Bytes → Exec W (Unit {0})
  pub read_stdin : Exec W Bytes
  pub write : Bytes → Exec W (Unit {0})
  pub new_client : Target → Exec W (Client W)
  -- whether AppendCertsFromPEM finds a certificate
  pub has_certs : Bytes → Bool

-- validateOutput
unfoldable pub validate_output : Options → Result (Unit {0})
validate_output o =
    if bytes_eq o.output (codes "text") || bytes_eq o.output (codes "json")
    then ok tt
    else err (plain "unknown --output %q: want text or json")

-- callContext: the timeout of a unary call, none for a timeout that is not positive.
unfoldable pub call_timeout : ℤ → Option ℕ
call_timeout (pos zero) = none
call_timeout (pos (suc n)) = some (suc n)
call_timeout (negsuc n) = none

-- rpcError: the text of a status replaces the error, so that nothing is wrapped.
unfoldable pub rpc_error : RpcError → Error
rpc_error (of_status s) = plain "%s: %s (%s)"
rpc_error (other_error e) = wrap "%s: %w" e

-- A unary call, with rpcError on a failure.
abbrev pub outcome : {A : Type 0} → Rpc A → Result A
outcome (answered a) = ok a
outcome (failed e) = err (rpc_error e)

abbrev pub call : {W A : Type 0} → (W → Rpc A × W) → Exec W A
call rpc w = let (r, w') = rpc w in (outcome r, w')

abbrev pub closing : {W A : Type 0} → Client W → Exec W A → Exec W A
closing client body w = let (r, w') = body w in (r, client.close w')

module _ {W : Type 0} (host : Host W) (o : Options) where
  -- transportCredentials
  unfoldable pub transport_credentials : Exec W Transport
  transport_credentials =
      if o.insecure
      then (if bytes_eq o.ca_file []
          then lift (ok plaintext)
          else lift (err (plain "--insecure and --ca are mutually exclusive")))
      else if bytes_eq o.ca_file []
      then lift (ok tls_system)
      else do
        pem ← wrapped (wrap "read --ca: %w") (host.read_file o.ca_file)
        refuse_if (not (host.has_certs pem)) (plain "read --ca: %s contains no certificates")
        lift (ok (tls_roots pem))

  -- The part of connect that adds the token.
  unfoldable pub token_option : Result (Option Bytes)
  token_option =
      if bytes_eq o.token []
      then ok none
      else if o.insecure
      then err (plain "--insecure and --token are mutually exclusive")
      else ok (some (request_metadata o.token))

  unfoldable pub connect : Exec W (Client W)
  unfolding transport_credentials token_option
  connect = do
    transport ← transport_credentials
    authorization ← lift token_option
    wrapped (wrap "dial %s: %w") (
        host.new_client
          (record { server = o.server; transport = transport; authorization = authorization }))

  -- `client, closeConn, err := opts.connect()` with the deferred closeConn, around a body.
  unfoldable pub with_client : {A : Type 0} → (Client W → Exec W A) → Exec W A
  unfolding connect
  with_client body = do client ← connect; closing client (body client)
