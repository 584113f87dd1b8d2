-- ===== src/Adapters/Cli/Token.antt =====
-- internal/adapters/driving/cli/token.go: what a token becomes on the wire, and what the server
-- makes of it.
use vaultlet.Prelude.{Bool, true, some, List, ◌∷◌, ◌++◌, Bytes, codes, ◌≡◌, refl}
use vaultlet.Base64.{encode}
use vaultlet.Base64.RoundTrip.{IsBytes, decode-encode}
use vaultlet.Strings.Parts.{Lacks}
use vaultlet.Config.{UserConfig}
use vaultlet.Adapters.Grpc.Auth.{reply, authenticate}
use vaultlet.Adapters.Grpc.Auth.Users.{Registered}
use vaultlet.Adapters.Grpc.Auth.Answers.{authenticate_iff}

-- GetRequestMetadata: the value of "authorization".
unfoldable pub request_metadata : Bytes → Bytes
request_metadata token = codes "Basic " ++ token

-- RequireTransportSecurity
unfoldable pub require_transport_security : Bytes → Bool
require_transport_security token = true

-- The credentials that a token stands for.
abbrev pub credentials : Bytes → Bytes → Bytes
credentials username password = username ++ b':' ∷ password

-- A user that the server knows, whose name has no colon, is authenticated with the password that
-- its hash is of by the token that is the base64 of its name, a colon and the password, whatever
-- other values the metadata has; name and password are of bytes, and the hash is that of the last
-- configured user of the name.
pub authenticate-request_metadata :
    (compare : Bytes → Bytes → Bool) (users : List UserConfig) (username password hash : Bytes)
    (rest : List Bytes)
    → IsBytes (credentials username password)
    → Lacks b':' username
    → Registered users username hash
    → compare hash password ≡ true
    → authenticate compare users
        (some (request_metadata (encode (credentials username password)) ∷ rest))
      ≡ reply username
unfolding request_metadata
authenticate-request_metadata compare users username password hash rest bytes plain known matches =
    let header = request_metadata (encode (credentials username password)) in
    (authenticate_iff compare users (some (header ∷ rest)) username).1 (
      header,
      rest,
      refl,
      record {
        token = encode (credentials username password);
        password = password;
        hash = hash;
        is_basic = refl;
        decodes = decode-encode (credentials username password) bytes;
        has_no_colon = plain;
        known = known;
        matches = matches;
      },
    )
