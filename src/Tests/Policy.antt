-- ===== src/Tests/Policy.antt =====
-- A compiled policy at concrete inputs.
use vaultlet.Prelude.{true, false, [], ◌∷◌, codes, bytes_eq, ◌≡◌, ◌≢◌, ◌↔◌, refl, Any, All}
use vaultlet.Errors.{ok}
use vaultlet.Regex.{matches, deriv, nullable, in_class}
use vaultlet.Strings.{trim, trim_left, split, extend}
use vaultlet.Domain.Key.{
  segment_re, bad_segment, check_segments, parse_namespace, contains, same_segments,
}
use vaultlet.App.Policy.{
  get, list, RuleSpec, Policy, rules_of, append_rule, action_named, compile_actions,
  compile_namespace, compile_rule, compile, new_policy, grants, allows_by, allows, action_eq,
}
use vaultlet.App.Policy.Compile.{Gives, new_policy-allows_iff}
use vaultlet.App.Policy.Accepts.{IsGoodSpec, new_policy-accepts_iff}
use vaultlet.App.Policy.Checks.{allows_mono}
use vaultlet.Tests.Samples.{payments_prod}

abbrev alice_reads : RuleSpec
alice_reads = record {
  principal = codes "alice";
  namespace = codes "payments/prod";
  actions = codes "get" ∷ codes "list" ∷ [];
}

abbrev pub alice_policy : Policy
alice_policy =
    (codes "alice", record { namespace = payments_prod; actions = get ∷ list ∷ [] } ∷ []) ∷ []

alice_compiles : new_policy (alice_reads ∷ []) ≡ ok alice_policy
unfolding new_policy compile compile_rule compile_namespace compile_actions action_named append_rule
    parse_namespace check_segments bad_segment segment_re matches deriv nullable in_class trim
    trim_left split extend bytes_eq
alice_compiles = refl

unknown_action :
    new_policy (record alice_reads { actions = codes "read" ∷ [] } ∷ []) ≢ ok alice_policy
unfolding new_policy compile compile_rule compile_namespace compile_actions action_named append_rule
    parse_namespace check_segments bad_segment segment_re matches deriv nullable in_class trim
    trim_left split extend bytes_eq
unknown_action = λ h. cc

new_policy-allows_iff_example :
    (allows alice_policy (codes "alice") get payments_prod ≡ true)
    ↔ Any (Gives (codes "alice") get payments_prod) (alice_reads ∷ [])
new_policy-allows_iff_example =
    new_policy-allows_iff (alice_reads ∷ []) alice_policy (codes "alice") get payments_prod
      alice_compiles

new_policy-accepts_iff_example :
    ((p : Policy) × (new_policy (alice_reads ∷ []) ≡ ok p)) ↔ All IsGoodSpec (alice_reads ∷ [])
new_policy-accepts_iff_example = new_policy-accepts_iff (alice_reads ∷ [])

no_rule_no_access : allows alice_policy (codes "bob") get payments_prod ≡ false
unfolding allows rules_of allows_by bytes_eq
no_rule_no_access = refl

allows_mono_example : allows alice_policy (codes "alice") list payments_prod ≡ true
allows_mono_example =
    allows_mono alice_policy (codes "alice") list payments_prod payments_prod
      (unfold contains same_segments bytes_eq in refl)
      (unfold allows rules_of allows_by grants action_eq contains same_segments bytes_eq in refl)
