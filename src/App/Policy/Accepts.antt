-- ===== src/App/Policy/Accepts.antt =====
-- Which configured rules NewPolicy accepts.
use vaultlet.Prelude.{
  some, List, [], ◌∷◌, Bytes, bytes_eq, codes, ◌≡◌, ◌↔◌, ◌⊎◌, inl, inr, refl, ◌∙◌, ap, arith, All,
  Bool-cases, Option-cases, bytes_eq_iff, bytes_eq_refl,
}
use vaultlet.Errors.{ok, >>=-eq-ok, Result-cases}
use vaultlet.Domain.Key.{Namespace, zero_namespace, parse_namespace}
use vaultlet.App.Policy.{
  Action, get, action_string, Rule, RuleSpec, Policy, append_rule, action_named, compile_actions,
  compile_namespace, compile_rule, compile, new_policy,
}

-- A rule at the wildcard or at a namespace that parses, whose actions all have the spelling of one
-- of the five.
pub record IsGoodSpec (spec : RuleSpec) : Type 0 where
  pub at :
      (spec.namespace ≡ codes "*")
      ⊎ ((root : Namespace) × (parse_namespace spec.namespace ≡ ok root))
  pub named : All (λ a. (action : Action) × (a ≡ action_string action)) spec.actions

action_named-string : (action : Action) → action_named (action_string action) ≡ some action
unfolding action_named action_string bytes_eq
action_named-string get = refl
action_named-string _ = refl

string-action_named :
    (a : Bytes) (action : Action) → action_named a ≡ some action → a ≡ action_string action
unfolding action_named action_string
string-action_named a action h = ground (
  arith,
  bytes_eq_iff a (codes "get"),
  bytes_eq_iff a (codes "list"),
  bytes_eq_iff a (codes "watch"),
  bytes_eq_iff a (codes "put"),
  bytes_eq_iff a (codes "delete"),
)

actions-named :
    (texts : List Bytes) (acts : List Action)
    → compile_actions texts ≡ ok acts
    → All (λ a. (action : Action) × (a ≡ action_string action)) texts
unfolding compile_actions
actions-named [] acts h = tt
actions-named (a ∷ texts) acts h = elim (Option-cases (action_named a)) [
  | inl e ↦ ground arith
  | inr (x, e) ↦ elim (Result-cases (compile_actions texts)) [
    | inl (rest, f) ↦ ((x, string-action_named a x e), actions-named texts rest f)
    | inr (failure, f) ↦ ground arith
  ]
]

named-actions :
    (texts : List Bytes)
    → All (λ a. (action : Action) × (a ≡ action_string action)) texts
    → (acts : List Action) × (compile_actions texts ≡ ok acts)
unfolding compile_actions
named-actions [] h = ([], refl)
named-actions (a ∷ texts) ((x, e), h) =
    let (rest, f) = named-actions texts h in
    let hit : action_named a ≡ some x = ap action_named e ∙ action_named-string x in
    (x ∷ rest, ground arith)

at_root :
    (spec : RuleSpec)
    → IsGoodSpec spec
    → (root : Namespace) × (compile_namespace spec.namespace ≡ ok root)
unfolding compile_namespace
at_root spec g = elim g.at [
  | inl e ↦ (zero_namespace, rw (e, bytes_eq_refl))
  | inr (root, e) ↦ elim (Bool-cases (bytes_eq spec.namespace (codes "*"))) [
    | inl w ↦ (zero_namespace, rw w)
    | inr n ↦ (root, rw (n, e))
  ]
]

good-rule : (spec : RuleSpec) → IsGoodSpec spec → (r : Rule) × (compile_rule spec ≡ ok r)
unfolding compile_rule
good-rule spec g =
    let (root, e) = at_root spec g in
    let (acts, f) = named-actions spec.actions g.named in
    (record { namespace = root; actions = acts }, rw (e, f))

rule-good : (spec : RuleSpec) (r : Rule) → compile_rule spec ≡ ok r → IsGoodSpec spec
unfolding compile_rule
rule-good spec r h = record {
  at = elim (Bool-cases (bytes_eq spec.namespace (codes "*"))) [
    | inl w ↦ inl ((bytes_eq_iff spec.namespace (codes "*")).0 w)
    | inr n ↦ elim (Result-cases (parse_namespace spec.namespace)) [
      | inl (root, e) ↦ inr (root, e)
      | inr (failure, e) ↦ unfold compile_namespace in ground arith
    ]
  ];
  named = elim (Result-cases (compile_actions spec.actions)) [
    | inl (acts, e) ↦ actions-named spec.actions acts e
    | inr (failure, e) ↦ ground arith
  ];
}

compile-good :
    (p : Policy) (specs : List RuleSpec) (q : Policy)
    → compile p specs ≡ ok q
    → All IsGoodSpec specs
unfolding compile
compile-good p [] q h = tt
compile-good p (spec ∷ specs) q h =
    let (r, made, rest) = >>=-eq-ok (compile_rule spec) _ h in
    (rule-good spec r made, compile-good (append_rule p spec.principal r) specs q rest)

good-compile :
    (p : Policy) (specs : List RuleSpec)
    → All IsGoodSpec specs
    → (q : Policy) × (compile p specs ≡ ok q)
unfolding compile
good-compile p [] h = (p, refl)
good-compile p (spec ∷ specs) (g, h) =
    let (r, made) = good-rule spec g in
    let (q, rest) = good-compile (append_rule p spec.principal r) specs h in (q, rw made rest)

-- NewPolicy succeeds exactly if every configured rule is at the wildcard or at a namespace that
-- parses, and each of its actions is spelled get, list, watch, put or delete.
pub new_policy-accepts_iff :
    (specs : List RuleSpec) → ((p : Policy) × (new_policy specs ≡ ok p)) ↔ All IsGoodSpec specs
unfolding new_policy
new_policy-accepts_iff specs = (λ (p, h). compile-good [] specs p h, λ g. good-compile [] specs g)
