-- ===== src/Adapters/Bitwarden/Store/Resolving.antt =====
-- Which identifier a key resolves to.
use vaultlet.Prelude.{
  true, List, [], ◌∷◌, ◌++◌, Bytes, bytes_eq, bytes_eq_iff, ◌≡◌, ◌↔◌, ◌⊎◌, refl, ap, ◌∙◌, arith,
  inl, inr, All, Any, Bool-cases,
}
use vaultlet.Errors.{Error, ok, err, sentinel, not_found, is, same, number, wrap}
use vaultlet.Adapters.Bitwarden.Store.{Identifier, Store, has_project, in_project, resolve}

-- The secret is in the project that the store is scoped to, or the store has none.
abbrev pub IsInScope : Bytes → Identifier → Type 0
IsInScope project i = (project ≡ []) ⊎ Any (λ p. p ≡ project) i.project_ids

has_project_sound : (id : Bytes) (ps : List Bytes) → has_project id ps ≡ true → Any (λ p. p ≡ id) ps
unfolding has_project
has_project_sound id [] h = cc
has_project_sound id (p ∷ ps) h = elim (Bool-cases (bytes_eq p id)) [
  | inl e ↦ inl ((bytes_eq_iff p id).0 e)
  | inr e ↦ inr (has_project_sound id ps (ground arith))
]

has_project_complete :
    (id : Bytes) (ps : List Bytes) → Any (λ p. p ≡ id) ps → has_project id ps ≡ true
unfolding has_project
has_project_complete id [] m = absurd m
has_project_complete id (p ∷ ps) (inl e) = ground (arith, (bytes_eq_iff p id).1 e)
has_project_complete id (p ∷ ps) (inr m) = ground (arith, has_project_complete id ps m)

module _ {W : Type 0} (s : Store W) where
  in_project_sound : (i : Identifier) → in_project s i.project_ids ≡ true → IsInScope s.project_id i
  unfolding in_project
  in_project_sound i h = elim (Bool-cases (bytes_eq s.project_id [])) [
    | inl e ↦ inl ((bytes_eq_iff s.project_id []).0 e)
    | inr e ↦ inr (has_project_sound s.project_id i.project_ids (ground arith))
  ]

  in_project_complete :
      (i : Identifier) → IsInScope s.project_id i → in_project s i.project_ids ≡ true
  unfolding in_project
  in_project_complete i (inl e) = ground (arith, (bytes_eq_iff s.project_id []).1 e)
  in_project_complete i (inr m) = ground (arith, has_project_complete s.project_id i.project_ids m)

  -- inProject is true exactly if the store has no project, or its project is among the given ones.
  pub in_project_iff :
      (i : Identifier) → (in_project s i.project_ids ≡ true) ↔ IsInScope s.project_id i
  unfolding in_project
  in_project_iff i = (in_project_sound i, in_project_complete i)

  -- The name and the scope of an identifier.
  abbrev pub Matches : Bytes → Identifier → Type 0
  Matches name i = (i.key ≡ name) × IsInScope s.project_id i

  pub resolve_step :
      (name : Bytes) (i : Identifier) (idents : List Identifier)
      → (Matches name i × (resolve s name (i ∷ idents) ≡ ok i.id))
        ⊎ ((Matches name i → ⊥) × (resolve s name (i ∷ idents) ≡ resolve s name idents))
  unfolding resolve
  resolve_step name i idents = elim (Bool-cases (bytes_eq i.key name)) [
    | inl e ↦ elim (Bool-cases (in_project s i.project_ids)) [
      | inl m ↦ inl (((bytes_eq_iff i.key name).0 e, in_project_sound i m), ground arith)
      | inr m ↦ inr (λ (_, scope). ground (arith, in_project_complete i scope), ground arith)
    ]
    | inr e ↦ inr (λ (k, _). ground (arith, (bytes_eq_iff i.key name).1 k), ground arith)
  ]

  -- resolveID's loop finds the identifier of the first listed secret with the name that is in scope:
  -- either the secrets before that do not match and its identifier is the answer, or no listed
  -- secret matches and the answer is an error that wraps ErrNotFound.
  pub resolve-cases :
      (name : Bytes) (idents : List Identifier)
      → ((skipped rest : List Identifier) × (i : Identifier) × (idents ≡ skipped ++ i ∷ rest)
          × All (λ j. Matches name j → ⊥) skipped
          × Matches name i
          × (resolve s name idents ≡ ok i.id))
        ⊎ (All (λ j. Matches name j → ⊥) idents
            × ((e : Error) × (resolve s name idents ≡ err e) × (is e not_found ≡ true)))
  unfolding resolve is same number
  resolve-cases name [] = inr (tt, (wrap "bitwarden: %s: %w" (sentinel not_found), refl, refl))
  resolve-cases name (i ∷ idents) = elim (resolve_step name i idents) [
    | inl (m, e) ↦ inl ([], idents, i, refl, tt, m, e)
    | inr (n, e) ↦ elim (resolve-cases name idents) [
      | inl (skipped, rest, j, f, all, m, r) ↦
          inl (i ∷ skipped, rest, j, ap (λ l. i ∷ l) f, (n, all), m, e ∙ r)
      | inr (all, (failure, r, nf)) ↦ inr ((n, all), (failure, e ∙ r, nf))
    ]
  ]
