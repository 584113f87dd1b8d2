-- ===== src/App/Policy/Compile.antt =====
-- A compiled policy allows exactly what the configured rules say.
use vaultlet.Prelude.{
  true, ◌&&◌, ◌||◌, some, List, [], ◌∷◌, ◌++◌, Bytes, bytes_eq, codes, if◌then◌else◌, ◌≡◌, ◌↔◌, ◌⊎◌,
  inl, inr, ◌∙◌, ap, arith, Any, Bool-cases, Option-cases, bytes_eq_iff,
}
use vaultlet.Errors.{ok, >>=-eq-ok, Result-cases}
use vaultlet.Domain.Key.{Namespace, zero_namespace, parse_namespace, contains}
use vaultlet.Domain.Key.Containment.{Beneath, contains_iff, contains-zero}
use vaultlet.App.Policy.{
  Action, action_eq, Rule, RuleSpec, Policy, rules_of, append_rule, action_named, compile_actions,
  compile_namespace, compile_rule, compile, new_policy, grants, allows_by, allows,
}

-- The configured namespace covers `ns`: it is the wildcard, or it parses to a namespace that is
-- `ns` or above it.
abbrev pub Covers : Bytes → Namespace → Type 0
Covers text ns =
    (text ≡ codes "*") ⊎ ((root : Namespace) × (parse_namespace text ≡ ok root) × Beneath root ns)

-- The configured rule gives the principal the action at the namespace.
abbrev pub Gives : Bytes → Action → Namespace → RuleSpec → Type 0
Gives who action ns spec =
    (spec.principal ≡ who)
    × Any (λ a. action_named a ≡ some action) spec.actions
    × Covers spec.namespace ns

pub action_eq_sound : (a b : Action) → action_eq a b ≡ true → a ≡ b
unfolding action_eq
action_eq_sound a b h = ground arith

pub action_eq_refl : (a : Action) → action_eq a a ≡ true
unfolding action_eq
action_eq_refl a = ground arith

rules_of-append_rule :
    (p : Policy) (who name : Bytes) (r : Rule)
    → rules_of (append_rule p name r) who
      ≡ (if bytes_eq name who then rules_of p who ++ r ∷ [] else rules_of p who)
unfolding rules_of append_rule
rules_of-append_rule [] who name r = ground arith
rules_of-append_rule ((x, rules) ∷ p) who name r = ground (
  arith,
  rules_of-append_rule p who name r,
  bytes_eq_iff name who,
  bytes_eq_iff x name,
  bytes_eq_iff x who,
)

allows_by-append :
    (rs : List Rule) (r : Rule) (action : Action) (ns : Namespace)
    → allows_by (rs ++ r ∷ []) action ns
      ≡ (allows_by rs action ns || (grants r.actions action && contains r.namespace ns))
unfolding allows_by
allows_by-append [] r action ns = ground arith
allows_by-append (x ∷ rs) r action ns = ground (arith, allows_by-append rs r action ns)

compile_actions_cons :
    (a : Bytes) (texts : List Bytes) (acts : List Action)
    → compile_actions (a ∷ texts) ≡ ok acts
    → (x : Action) × (rest : List Action) × (action_named a ≡ some x)
      × (compile_actions texts ≡ ok rest)
      × (acts ≡ x ∷ rest)
unfolding compile_actions
compile_actions_cons a texts acts h = elim (Option-cases (action_named a)) [
  | inl e ↦ ground arith
  | inr (x, e) ↦ elim (Result-cases (compile_actions texts)) [
    | inl (rest, f) ↦ (x, rest, e, f, ground arith)
    | inr (failure, f) ↦ ground arith
  ]
]

grants-compile :
    (texts : List Bytes) (acts : List Action) (action : Action)
    → compile_actions texts ≡ ok acts
    → grants acts action ≡ true
    → Any (λ a. action_named a ≡ some action) texts
unfolding grants
grants-compile [] acts action h g = unfold compile_actions in ground arith
grants-compile (a ∷ texts) acts action h g =
    let (x, rest, e, f, parts) = compile_actions_cons a texts acts h in
    elim (Bool-cases (action_eq x action)) [
      | inl hit ↦ inl (e ∙ ap some (action_eq_sound x action hit))
      | inr miss ↦ inr (grants-compile texts rest action f (ground arith))
    ]

compile-grants :
    (texts : List Bytes) (acts : List Action) (action : Action)
    → compile_actions texts ≡ ok acts
    → Any (λ a. action_named a ≡ some action) texts
    → grants acts action ≡ true
unfolding grants
compile-grants [] acts action h g = absurd g
compile-grants (a ∷ texts) acts action h (inl e) =
    let (x, rest, e', f, parts) = compile_actions_cons a texts acts h in
    let same : x ≡ action = cc in rw (parts, same, action_eq_refl)
compile-grants (a ∷ texts) acts action h (inr m) =
    let (x, rest, e', f, parts) = compile_actions_cons a texts acts h in
    let later = compile-grants texts rest action f m in ground arith

Covers-compile :
    (text : Bytes) (root ns : Namespace)
    → compile_namespace text ≡ ok root
    → contains root ns ≡ true
    → Covers text ns
unfolding compile_namespace
Covers-compile text root ns h c = elim (Bool-cases (bytes_eq text (codes "*"))) [
  | inl e ↦ inl ((bytes_eq_iff text (codes "*")).0 e)
  | inr e ↦ elim (Result-cases (parse_namespace text)) [
    | inl (parsed, f) ↦ inr (root, ground arith, (contains_iff root ns).0 c)
    | inr (failure, f) ↦ ground arith
  ]
]

compile-Covers :
    (text : Bytes) (root ns : Namespace)
    → compile_namespace text ≡ ok root
    → Covers text ns
    → contains root ns ≡ true
unfolding compile_namespace
compile-Covers text root ns h (inl e) =
    let wild : root ≡ zero_namespace = ground (arith, bytes_eq_iff text (codes "*")) in
    rw wild (contains-zero ns)
compile-Covers text root ns h (inr (parsed, f, beneath)) =
    elim (Bool-cases (bytes_eq text (codes "*"))) [
      | inl e ↦ let wild : root ≡ zero_namespace = ground arith in rw wild (contains-zero ns)
      | inr e ↦
          let same : root ≡ parsed = ground arith in rw same ((contains_iff parsed ns).1 beneath)
    ]

-- What a compiled rule is made of.
compile_rule_parts :
    (spec : RuleSpec) (r : Rule)
    → compile_rule spec ≡ ok r
    → (compile_namespace spec.namespace ≡ ok r.namespace)
      × (compile_actions spec.actions ≡ ok r.actions)
unfolding compile_rule
compile_rule_parts spec r h = ground arith

module _ (who : Bytes) (action : Action) (ns : Namespace) where
  rule-Gives :
      (spec : RuleSpec) (r : Rule)
      → compile_rule spec ≡ ok r
      → spec.principal ≡ who
      → (grants r.actions action && contains r.namespace ns) ≡ true
      → Gives who action ns spec
  rule-Gives spec r h e g =
      let (named, acts) = compile_rule_parts spec r h in
      (
        e,
        grants-compile spec.actions r.actions action acts (ground arith),
        Covers-compile spec.namespace r.namespace ns named (ground arith),
      )

  Gives-rule :
      (spec : RuleSpec) (r : Rule)
      → compile_rule spec ≡ ok r
      → Gives who action ns spec
      → (grants r.actions action && contains r.namespace ns) ≡ true
  Gives-rule spec r h (e, m, c) =
      let (named, acts) = compile_rule_parts spec r h in
      ground (
        arith,
        compile-grants spec.actions r.actions action acts m,
        compile-Covers spec.namespace r.namespace ns named c,
      )

  allows-append_rule :
      (p : Policy) (name : Bytes) (r : Rule)
      → allows (append_rule p name r) who action ns ≡ (
          allows p who action ns
          || (bytes_eq name who && (grants r.actions action && contains r.namespace ns)))
  unfolding allows
  allows-append_rule p name r =
      rw rules_of-append_rule (ground (arith, allows_by-append (rules_of p who) r action ns))

  compile_sound :
      (p : Policy) (specs : List RuleSpec) (q : Policy)
      → compile p specs ≡ ok q
      → allows q who action ns ≡ true
      → (allows p who action ns ≡ true) ⊎ Any (Gives who action ns) specs
  unfolding compile
  compile_sound p [] q h a = inl (ground arith)
  compile_sound p (spec ∷ specs) q h a =
      let (r, made, rest) = >>=-eq-ok (compile_rule spec) _ h in
      elim (compile_sound (append_rule p spec.principal r) specs q rest a) [
        | inr later ↦ inr (inr later)
        | inl now ↦ elim (Bool-cases (allows p who action ns)) [
          | inl old ↦ inl old
          | inr new ↦
              let added : (bytes_eq spec.principal who
                    && (grants r.actions action && contains r.namespace ns))
                  ≡ true =
                ground (arith, allows-append_rule p spec.principal r) in
              inr (
                inl (
                  rule-Gives spec r made ((bytes_eq_iff spec.principal who).0 (ground arith))
                    (ground arith)))
        ]
      ]

  compile_complete :
      (p : Policy) (specs : List RuleSpec) (q : Policy)
      → compile p specs ≡ ok q
      → (allows p who action ns ≡ true) ⊎ Any (Gives who action ns) specs
      → allows q who action ns ≡ true
  unfolding compile
  compile_complete p [] q h (inl a) = ground arith
  compile_complete p [] q h (inr m) = absurd m
  compile_complete p (spec ∷ specs) q h given =
      let (r, made, rest) = >>=-eq-ok (compile_rule spec) _ h in
      compile_complete (append_rule p spec.principal r) specs q rest (step r made given)
    where
      step :
          (r : Rule)
          → compile_rule spec ≡ ok r
          → (allows p who action ns ≡ true) ⊎ Any (Gives who action ns) (spec ∷ specs)
          → (allows (append_rule p spec.principal r) who action ns ≡ true)
            ⊎ Any (Gives who action ns) specs
      step r made (inl old) = inl (rw (allows-append_rule p spec.principal r, old))
      step r made (inr (inl now)) =
          let hit = Gives-rule spec r made now in
          inl (
            ground (
              arith,
              allows-append_rule p spec.principal r,
              (bytes_eq_iff spec.principal who).1 now.0,
            ))
      step r made (inr (inr later)) = inr later

-- After a successful NewPolicy a principal is allowed an action at a namespace exactly if one of
-- the configured rules names the principal, lists the action, and is at the wildcard or at a
-- namespace that is the requested one or above it. No rule, no access.
pub new_policy-allows_iff :
    (specs : List RuleSpec) (p : Policy) (who : Bytes) (action : Action) (ns : Namespace)
    → new_policy specs ≡ ok p
    → (allows p who action ns ≡ true) ↔ Any (Gives who action ns) specs
unfolding new_policy
new_policy-allows_iff specs p who action ns h = (
  λ a. elim (compile_sound who action ns [] specs p h a) [
    | inl none_yet ↦ unfold allows rules_of allows_by in cc
    | inr m ↦ m
  ],
  λ m. compile_complete who action ns [] specs p h (inr m),
)
