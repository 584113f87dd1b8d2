-- ===== src/Config.antt =====
-- internal/config/config.go: the configuration and its Validate; and from
-- cmd/vaultlet/main.go the rules that its users give to the policy.
pub mod Load
pub mod Specs
pub mod Granting
use vaultlet.Prelude.{ℕ, true, false, Bool, List, [], ◌∷◌, ◌++◌, Bytes, bytes_eq, if◌then◌else◌}
use vaultlet.Errors.{Result, ok, err, plain, ◌>>=◌, ◌>>◌}
use vaultlet.App.Policy.{RuleSpec}
use vaultlet.Adapters.Bitwarden.Store as Bitwarden
use vaultlet.Adapters.Azure.Config as Azure
use vaultlet.Adapters.Gcp.Store as Gcp

pub record UserAllowConfig : Type 0 where
  pub namespace : Bytes
  pub actions : List Bytes

pub record UserConfig : Type 0 where
  pub username : Bytes
  pub password_hash : Bytes
  pub allow : List UserAllowConfig

pub record TlsConfig : Type 0 where
  pub cert_file : Bytes
  pub key_file : Bytes

pub record Config : Type 0 where
  pub listen : Bytes
  pub backend : Bytes
  pub bitwarden : Bitwarden.Config
  pub azure : Azure.Config
  pub gcp : Gcp.Config
  pub tls : TlsConfig
  pub users : List UserConfig

-- The inner loop of Validate.
unfoldable pub validate_rules : List UserAllowConfig → Result (Unit {0})
validate_rules [] = ok tt
validate_rules (rule ∷ rules) =
    let rest = validate_rules rules in
    if bytes_eq rule.namespace []
    then err (plain "config: auth.users[].allow[].namespace required")
    else rest

unfoldable pub validate_user : UserConfig → Result (Unit {0})
unfolding validate_rules
validate_user user =
    if bytes_eq user.username []
    then err (plain "config: auth.users[].username required")
    else if bytes_eq user.password_hash []
    then err (plain "config: auth.users[].password_hash required")
    else (elim user.allow [
      | [] ↦ err (plain "config: auth.users[].allow required")
      | rule ∷ rules ↦ validate_rules (rule ∷ rules)
    ])

-- The loop over the users.
unfoldable pub validate_users : List UserConfig → Result (Unit {0})
unfolding validate_user
validate_users [] = ok tt
validate_users (user ∷ users) = validate_user user >> validate_users users

unfoldable pub validate : Config → Result (Unit {0})
unfolding validate_users
validate c =
    if bytes_eq c.backend []
    then err (plain "config: backend required")
    else if bytes_eq c.listen []
    then err (plain "config: listen required")
    else if bytes_eq c.tls.cert_file []
    then err (plain "config: tls.cert_file required")
    else if bytes_eq c.tls.key_file []
    then err (plain "config: tls.key_file required")
    else (elim c.users [
      | [] ↦ err (plain "config: auth.users required")
      | user ∷ users ↦ validate_users (user ∷ users)
    ])

-- The loops of run that collect the rules.
unfoldable pub user_specs : Bytes → List UserAllowConfig → List RuleSpec
user_specs name [] = []
user_specs name (rule ∷ rules) =
    record { principal = name; namespace = rule.namespace; actions = rule.actions }
    ∷ user_specs name rules

unfoldable pub rule_specs : List UserConfig → List RuleSpec
unfolding user_specs
rule_specs [] = []
rule_specs (user ∷ users) = user_specs user.username user.allow ++ rule_specs users
