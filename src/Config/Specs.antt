-- ===== src/Config/Specs.antt =====
-- The rules that a configuration gives to the policy once Validate has accepted it.
use vaultlet.Prelude.{
  List, [], ◌∷◌, Bytes, bytes_eq, bytes_eq_iff, All, All-append, ◌≡◌, ◌≢◌, arith, inl, inr,
  Bool-cases,
}
use vaultlet.Errors.{ok, >>=-eq-ok}
use vaultlet.App.Policy.{RuleSpec}
use vaultlet.Config.{
  UserAllowConfig, UserConfig, Config, validate_rules, validate_user, validate_users, validate,
  user_specs, rule_specs,
}

-- The rule names a principal and a namespace.
abbrev pub IsNamed : RuleSpec → Type 0
IsNamed r = (r.principal ≢ []) × (r.namespace ≢ [])

user_specs-IsNamed :
    (name : Bytes) (rules : List UserAllowConfig)
    → name ≢ []
    → validate_rules rules ≡ ok tt
    → All IsNamed (user_specs name rules)
unfolding user_specs validate_rules
user_specs-IsNamed name [] n h = tt
user_specs-IsNamed name (rule ∷ rules) n h = elim (Bool-cases (bytes_eq rule.namespace [])) [
  | inl e ↦ ground arith
  | inr e ↦ (
    (n, ground (arith, bytes_eq_iff rule.namespace [])),
    user_specs-IsNamed name rules n (ground arith),
  )
]

validate_user-IsNamed :
    (user : UserConfig)
    → validate_user user ≡ ok tt
    → All IsNamed (user_specs user.username user.allow) × (user.password_hash ≢ [])
unfolding validate_user
validate_user-IsNamed user h = elim (Bool-cases (bytes_eq user.username [])) [
  | inl e ↦ ground arith
  | inr e ↦ elim (Bool-cases (bytes_eq user.password_hash [])) [
    | inl f ↦ ground arith
    | inr f ↦ (
      user_specs-IsNamed user.username user.allow (ground (arith, bytes_eq_iff user.username []))
          (ground arith),
      ground (arith, bytes_eq_iff user.password_hash []),
    )
  ]
]

rule_specs-IsNamed :
    (users : List UserConfig)
    → validate_users users ≡ ok tt
    → All IsNamed (rule_specs users) × All (λ (u : UserConfig). u.password_hash ≢ []) users
unfolding rule_specs validate_users
rule_specs-IsNamed [] h = (tt, tt)
rule_specs-IsNamed (user ∷ users) h =
    let (u, e, rest) = >>=-eq-ok (validate_user user) (λ _. validate_users users) h in
    let (named, hash) = validate_user-IsNamed user e in
    let (others, hashes) = rule_specs-IsNamed users rest in
    (
      All-append IsNamed (user_specs user.username user.allow) (rule_specs users) named others,
      (hash, hashes),
    )

-- From a configuration that Validate accepts every rule that the policy is built from names a
-- principal and a namespace, and every user has a password hash.
pub validate-rule_specs :
    (c : Config)
    → validate c ≡ ok tt
    → All IsNamed (rule_specs c.users) × All (λ (u : UserConfig). u.password_hash ≢ []) c.users
unfolding validate
validate-rule_specs c h = rule_specs-IsNamed c.users (ground arith)
