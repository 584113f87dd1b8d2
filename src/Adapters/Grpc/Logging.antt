-- ===== src/Adapters/Grpc/Logging.antt =====
-- internal/adapters/driving/grpcserver/logging.go, and the chain of interceptors of server.go: a
-- line of the log for each RPC, around the authentication. The duration is left out.
use vaultlet.Prelude.{Bool, Option, none, some, List, [], ◌∷◌, ◌++◌, Bytes}
use vaultlet.Config.{UserConfig}
use vaultlet.Ports.{Context}
use vaultlet.Adapters.Grpc.Auth.{Code, Answer, reply, fail, Incoming, with_auth}

-- The line "rpc completed". No code stands for OK.
pub record RpcLine : Type 0 where
  pub method : Bytes
  pub status : Option Code

abbrev pub status_of {ℓ} : {A : Type ℓ} → Answer A → Option Code
status_of (reply a) = none
status_of (fail s) = some s.code

-- unaryLogging and streamLogging
unfoldable pub with_logging {ℓ} :
    {A : Type ℓ} {W : Type 0}
    → Bytes
    → (Incoming → W → Answer A × W)
    → Incoming
    → W × List RpcLine
    → Answer A × (W × List RpcLine)
with_logging method handler rpc (w, log) =
    let (answer, w') = handler rpc w in
    (answer, (w', log ++ record { method = method; status = status_of answer } ∷ []))

-- ChainUnaryInterceptor and ChainStreamInterceptor of New
unfoldable pub intercepted {ℓ} :
    {A : Type ℓ} {W : Type 0}
    → (Bytes → Bytes → Bool)
    → List UserConfig
    → Bytes
    → (Context → W → Answer A × W)
    → Incoming
    → W × List RpcLine
    → Answer A × (W × List RpcLine)
unfolding with_logging with_auth
intercepted compare users method handler = with_logging method (with_auth compare users handler)
