-- ===== src/Adapters/Grpc/Auth.antt =====
-- internal/adapters/driving/grpcserver/auth.go: Basic credentials to a principal. bcrypt is a
-- parameter.
pub mod Users
pub mod Answers
use vaultlet.Prelude.{
  Bool, true, false, Option, none, some, List, [], ◌∷◌, ◌++◌, Bytes, bytes_eq, codes, if◌then◌else◌,
  not, ◌||◌,
}
use vaultlet.Strings.{cut, cut_prefix}
use vaultlet.Base64.{decode}
use vaultlet.Config.{UserConfig}
use vaultlet.Ports.{Context}
use vaultlet.App.Service.{with_principal}
use Prim.Native.String.{String}

-- The codes of grpc, without OK.
pub data Code : Type 0 where
  canceled unknown invalid_argument deadline_exceeded not_found already_exists : Code
  permission_denied resource_exhausted failed_precondition aborted out_of_range : Code
  unimplemented internal unavailable data_loss unauthenticated : Code

-- A status error; a message of the server is kept as its format.
pub record Status : Type 0 where
  pub code : Code
  pub message : String

pub data Answer {ℓ} (A : Type ℓ) : Type ℓ where
  reply : A → Answer A
  fail : Status → Answer A

abbrev pub unauthenticated_error : Status
unauthenticated_error = record { code = unauthenticated; message = "invalid credentials" }

abbrev pub dummy_hash : Bytes
dummy_hash = codes "$2y$10$sSy2zu.lkhMSh0tzGrFD2eCyfeqkxmpVwEFCDjlm6Nb9Swq.u7sgO"

-- The map of usersByName at a name: the last of the users counts.
unfoldable pub users_by_name : List UserConfig → Bytes → Option Bytes
users_by_name [] name = none
users_by_name (u ∷ us) name = elim (users_by_name us name) [
  | some hash ↦ some hash
  | none ↦ if bytes_eq u.username name then some u.password_hash else none
]

-- What an RPC brings: the values of its "authorization" metadata, where it has metadata.
pub record Incoming : Type 0 where
  pub authorization : Option (List Bytes)
  pub ctx : Context

-- The hash to compare with, and whether the name is known.
abbrev hash_or_dummy : Option Bytes → Bytes × Bool
hash_or_dummy none = (dummy_hash, false)
hash_or_dummy (some hash) = (hash, true)

module _ (compare : Bytes → Bytes → Bool) (users : List UserConfig) where
  -- The lookup and the comparison, which is made with the dummy hash for a name that is not known.
  unfoldable pub check_password : Bytes → Bytes → Answer Bytes
  unfolding users_by_name
  check_password username password =
      let (hash, known) = hash_or_dummy (users_by_name users username) in
      if not (compare hash password) || not known
      then fail unauthenticated_error
      else reply username

  unfoldable pub check_credentials : Bytes → Answer Bytes
  unfolding check_password
  check_credentials raw = elim (cut raw b':') [
    | none ↦ fail unauthenticated_error
    | some (username, password) ↦ check_password username password
  ]

  unfoldable pub check_token : Bytes → Answer Bytes
  unfolding check_credentials
  check_token auth = elim (cut_prefix auth (codes "Basic ")) [
    | none ↦ fail unauthenticated_error
    | some token ↦ elim (decode token) [
      | none ↦ fail unauthenticated_error
      | some raw ↦ check_credentials raw
    ]
  ]

  unfoldable pub authenticate : Option (List Bytes) → Answer Bytes
  unfolding check_token
  authenticate none = fail unauthenticated_error
  authenticate (some []) = fail unauthenticated_error
  authenticate (some (auth ∷ auths)) = check_token auth

  -- unaryAuth and streamAuth: the handler runs with the principal in its context, or not at all.
  unfoldable pub with_auth {ℓ} :
      {A : Type ℓ} {W : Type 0} → (Context → W → Answer A × W) → Incoming → W → Answer A × W
  unfolding authenticate
  with_auth handler rpc w = elim (authenticate rpc.authorization) [
    | fail e ↦ (fail e, w)
    | reply principal ↦ handler (with_principal rpc.ctx principal) w
  ]
