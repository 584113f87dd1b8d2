-- ===== src/App/Policy.antt =====
-- internal/app/policy.go: rules, the compilation of the configured rules, and the three checks.
pub mod Compile
pub mod Accepts
pub mod Checks
use vaultlet.Prelude.{
  ℕ, Bool, true, false, ◌&&◌, ◌||◌, not, Option, none, some, List, [], ◌∷◌, ◌++◌, Bytes, bytes_eq,
  codes, ◌==◌, if◌then◌else◌,
}
use vaultlet.Errors.{Error, Result, ok, err, plain, wrap, ◌>>=◌}
use vaultlet.Domain.Key.{Namespace, zero_namespace, parse_namespace, contains}

pub data Action : Type 0 where
  get list watch put delete : Action

abbrev action_number : Action → ℕ
action_number get = 0
action_number list = 1
action_number watch = 2
action_number put = 3
action_number delete = 4

unfoldable pub action_eq : Action → Action → Bool
action_eq a b = action_number a == action_number b

-- The action constants are strings.
unfoldable pub action_string : Action → Bytes
action_string get = codes "get"
action_string list = codes "list"
action_string watch = codes "watch"
action_string put = codes "put"
action_string delete = codes "delete"

pub record Rule : Type 0 where
  pub namespace : Namespace
  -- the keys of the map from actions to true
  pub actions : List Action

pub record RuleSpec : Type 0 where
  pub principal : Bytes
  pub namespace : Bytes
  pub actions : List Bytes

-- map[string][]Rule; the program never iterates over it.
abbrev pub Policy : Type 0
Policy = List (Bytes × List Rule)

-- p[principal]; nil for a missing key.
unfoldable pub rules_of : Policy → Bytes → List Rule
rules_of [] who = []
rules_of ((name, rules) ∷ p) who = if bytes_eq name who then rules else rules_of p who

-- p[principal] = append(p[principal], rule)
unfoldable pub append_rule : Policy → Bytes → Rule → Policy
append_rule [] who rule = (who, rule ∷ []) ∷ []
append_rule ((name, rules) ∷ p) who rule =
    if bytes_eq name who
    then (name, rules ++ rule ∷ []) ∷ p
    else (name, rules) ∷ append_rule p who rule

-- valid[Action(a)]: the action that a text names.
unfoldable pub action_named : Bytes → Option Action
action_named a =
    if bytes_eq a (codes "get")
    then some get
    else if bytes_eq a (codes "list")
    then some list
    else if bytes_eq a (codes "watch")
    then some watch
    else if bytes_eq a (codes "put")
    then some put
    else if bytes_eq a (codes "delete")
    then some delete
    else none

-- The loop over a rule's actions.
unfoldable pub compile_actions : List Bytes → Result (List Action)
compile_actions [] = ok []
compile_actions (a ∷ as') = elim (action_named a) [
  | none ↦ err (plain "policy: user %q: unknown action %q")
  | some action ↦ (compile_actions as' >>= λ rest. ok (action ∷ rest))
]

abbrev pub wrap_error {ℓ} : {A : Type ℓ} → Result A → Result A
wrap_error (ok a) = ok a
wrap_error (err e) = err (wrap "policy: user %q: %w" e)

unfoldable pub compile_namespace : Bytes → Result Namespace
compile_namespace text =
    if bytes_eq text (codes "*") then ok zero_namespace else wrap_error (parse_namespace text)

unfoldable pub compile_rule : RuleSpec → Result Rule
compile_rule spec = do
  ns ← compile_namespace spec.namespace
  actions ← compile_actions spec.actions
  ok (record { namespace = ns; actions = actions })

unfoldable pub compile : Policy → List RuleSpec → Result Policy
compile p [] = ok p
compile p (spec ∷ specs) =
    compile_rule spec >>= λ rule. compile (append_rule p spec.principal rule) specs

unfoldable pub new_policy : List RuleSpec → Result Policy
new_policy specs = compile [] specs

-- r.actions[action]
unfoldable pub grants : List Action → Action → Bool
grants [] action = false
grants (a ∷ as') action = action_eq a action || grants as' action

unfoldable pub allows_by : List Rule → Action → Namespace → Bool
allows_by [] action ns = false
allows_by (r ∷ rules) action ns =
    if grants r.actions action && contains r.namespace ns then true else allows_by rules action ns

unfoldable pub allows : Policy → Bytes → Action → Namespace → Bool
allows p who action ns = allows_by (rules_of p who) action ns

-- The loop of canList and of canWatch: a rule that grants the action overlaps the namespace.
unfoldable pub overlaps_by : List Rule → Action → Namespace → Bool
overlaps_by [] action ns = false
overlaps_by (r ∷ rules) action ns =
    if not (grants r.actions action)
    then overlaps_by rules action ns
    else if contains r.namespace ns || contains ns r.namespace
    then true
    else overlaps_by rules action ns

unfoldable pub can_list : Policy → Bytes → Namespace → Bool
can_list p who ns = overlaps_by (rules_of p who) list ns

unfoldable pub can_watch : Policy → Bytes → Namespace → Bool
can_watch p who ns =
    if not (can_list p who ns) then false else overlaps_by (rules_of p who) watch ns
