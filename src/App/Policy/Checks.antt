-- ===== src/App/Policy/Checks.antt =====
-- How the checks of listing and watching relate to what a principal may list and watch.
use vaultlet.Prelude.{true, ◌||◌, List, [], ◌∷◌, Bytes, ◌≡◌, inl, inr, arith, Bool-cases}
use vaultlet.Domain.Key.{Namespace, contains}
use vaultlet.Domain.Key.Containment.{contains_trans, contains_chain}
use vaultlet.App.Policy.{
  Action, list, watch, Rule, Policy, rules_of, allows_by, allows, overlaps_by, can_list, can_watch,
}

-- Two namespaces above a third contain one another, one way or the other.
comparable :
    (a b c : Namespace)
    → contains a c ≡ true
    → contains b c ≡ true
    → (contains a b || contains b a) ≡ true
comparable a b c h k = elim (Bool-cases (contains a b)) [
  | inl e ↦ rw e
  | inr e ↦ ground (arith, contains_chain a b c h k, contains_chain b a c k h)
]

overlaps_of_allows :
    (rs : List Rule) (action : Action) (ns key_ns : Namespace)
    → contains ns key_ns ≡ true
    → allows_by rs action key_ns ≡ true
    → overlaps_by rs action ns ≡ true
unfolding allows_by overlaps_by
overlaps_of_allows [] action ns key_ns h a = cc
overlaps_of_allows (r ∷ rs) action ns key_ns h a =
    ground (arith, overlaps_of_allows rs action ns key_ns h, comparable r.namespace ns key_ns)

-- If a principal may list some key beneath a namespace, canList admits the listing of that
-- namespace: no key that List would show is lost to a denial of the whole call.
pub can_list_of_allows :
    (p : Policy) (who : Bytes) (ns key_ns : Namespace)
    → contains ns key_ns ≡ true
    → allows p who list key_ns ≡ true
    → can_list p who ns ≡ true
unfolding allows can_list
can_list_of_allows p who ns key_ns h a = overlaps_of_allows (rules_of p who) list ns key_ns h a

-- The same for canWatch, where a principal may both list and watch the key.
pub can_watch_of_allows :
    (p : Policy) (who : Bytes) (ns key_ns : Namespace)
    → contains ns key_ns ≡ true
    → allows p who list key_ns ≡ true
    → allows p who watch key_ns ≡ true
    → can_watch p who ns ≡ true
unfolding allows can_watch
can_watch_of_allows p who ns key_ns h a b = ground (
  arith,
  can_list_of_allows p who ns key_ns h,
  overlaps_of_allows (rules_of p who) watch ns key_ns h b,
)

allows_by_mono :
    (rs : List Rule) (action : Action) (ns below : Namespace)
    → contains ns below ≡ true
    → allows_by rs action ns ≡ true
    → allows_by rs action below ≡ true
unfolding allows_by
allows_by_mono [] action ns below h a = cc
allows_by_mono (r ∷ rs) action ns below h a =
    ground (arith, allows_by_mono rs action ns below h, contains_trans r.namespace ns below)

-- A permission at a namespace holds at every namespace beneath it.
pub allows_mono :
    (p : Policy) (who : Bytes) (action : Action) (ns below : Namespace)
    → contains ns below ≡ true
    → allows p who action ns ≡ true
    → allows p who action below ≡ true
unfolding allows
allows_mono p who action ns below h a = allows_by_mono (rules_of p who) action ns below h a
