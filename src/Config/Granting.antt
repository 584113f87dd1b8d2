-- ===== src/Config/Granting.antt =====
-- Which user of a configuration grants what, and that its policy allows exactly that.
use vaultlet.Prelude.{
  true, some, List, [], ◌∷◌, Bytes, Any, ◌≡◌, ◌↔◌, inl, inr, Any-append, Any-of_append,
}
use vaultlet.Errors.{ok}
use vaultlet.Config.{UserAllowConfig, UserConfig, user_specs, rule_specs}
use vaultlet.Domain.Key.{Namespace}
use vaultlet.App.Policy.{Action, Policy, action_named, new_policy, allows}
use vaultlet.App.Policy.Compile.{Covers, Gives, new_policy-allows_iff}

-- The user's entry has a rule that lists the action, at the wildcard or at or above the namespace.
abbrev pub Grants : Action → Namespace → UserAllowConfig → Type 0
Grants action ns rule =
    Any (λ a. action_named a ≡ some action) rule.actions × Covers rule.namespace ns

abbrev pub IsGranted : Bytes → Action → Namespace → UserConfig → Type 0
IsGranted who action ns user = (user.username ≡ who) × Any (Grants action ns) user.allow

module _ (who : Bytes) (action : Action) (ns : Namespace) where
  user_specs-granted :
      (name : Bytes) (rules : List UserAllowConfig)
      → Any (Gives who action ns) (user_specs name rules)
      → (name ≡ who) × Any (Grants action ns) rules
  unfolding user_specs
  user_specs-granted name [] h = absurd h
  user_specs-granted name (rule ∷ rules) (inl (e, a, c)) = (e, inl (a, c))
  user_specs-granted name (rule ∷ rules) (inr h) =
      let (e, later) = user_specs-granted name rules h in (e, inr later)

  granted-user_specs :
      (name : Bytes) (rules : List UserAllowConfig)
      → name ≡ who
      → Any (Grants action ns) rules
      → Any (Gives who action ns) (user_specs name rules)
  unfolding user_specs
  granted-user_specs name [] e h = absurd h
  granted-user_specs name (rule ∷ rules) e (inl (a, c)) = inl (e, a, c)
  granted-user_specs name (rule ∷ rules) e (inr h) = inr (granted-user_specs name rules e h)

  rule_specs-IsGranted :
      (users : List UserConfig)
      → Any (Gives who action ns) (rule_specs users)
      → Any (IsGranted who action ns) users
  unfolding rule_specs
  rule_specs-IsGranted [] h = absurd h
  rule_specs-IsGranted (user ∷ users) h =
      elim (Any-of_append (Gives who action ns) (user_specs user.username user.allow)
        (rule_specs users) h) [
          | inl here ↦ inl (user_specs-granted user.username user.allow here)
          | inr later ↦ inr (rule_specs-IsGranted users later)
        ]

  granted-rule_specs :
      (users : List UserConfig)
      → Any (IsGranted who action ns) users
      → Any (Gives who action ns) (rule_specs users)
  unfolding rule_specs
  granted-rule_specs [] h = absurd h
  granted-rule_specs (user ∷ users) (inl (e, g)) =
      Any-append (Gives who action ns) (user_specs user.username user.allow) (rule_specs users)
        (inl (granted-user_specs user.username user.allow e g))
  granted-rule_specs (user ∷ users) (inr later) =
      Any-append (Gives who action ns) (user_specs user.username user.allow) (rule_specs users)
        (inr (granted-rule_specs users later))

  -- The policy of the users' rules allows what one of the users grants, and nothing else.
  pub allows-IsGranted :
      (users : List UserConfig) (p : Policy)
      → new_policy (rule_specs users) ≡ ok p
      → (allows p who action ns ≡ true) ↔ Any (IsGranted who action ns) users
  allows-IsGranted users p h =
      let (there, back) = new_policy-allows_iff (rule_specs users) p who action ns h in
      (λ a. rule_specs-IsGranted users (there a), λ g. back (granted-rule_specs users g))
