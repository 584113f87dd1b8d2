-- ===== src/Adapters/Bitwarden/Store/Relisting.antt =====
-- Which identifier a key resolves to behind a write.
use vaultlet.Prelude.{
  List, [], ◌∷◌, Bytes, bytes_eq, bytes_eq_iff, All, Any, Any-map, Any-append, ap, ◌≡◌, ◌⊎◌, refl,
  sym, ◌∙◌, subst, Bool-cases, inl, inr,
}
use vaultlet.Errors.{ok}
use vaultlet.Adapters.Bitwarden.Store.{Identifier, Stored, Store, projects, resolve}
use vaultlet.Adapters.Bitwarden.Store.Laws.{IsEntry, Written}
use vaultlet.Adapters.Bitwarden.Store.Resolving.{IsInScope, Matches, resolve_step, resolve-cases}

module _ {W : Type 0} (s : Store W) where
  -- An entry with the store's own projects is in scope.
  IsEntry-Matches :
      (id name : Bytes) (j : Identifier) → IsEntry id name (projects s) j → Matches s name j
  unfolding projects
  IsEntry-Matches id name j h = (h.same_key, scope)
    where
      scope : IsInScope s.project_id j
      scope = elim (Bool-cases (bytes_eq s.project_id [])) [
        | inl e ↦ inl ((bytes_eq_iff s.project_id []).0 e)
        | inr e ↦
            let own : projects s ≡ s.project_id ∷ [] = rw e refl in
            inr ((subst (All (λ p. Any (λ q. q ≡ p) j.project_ids)) own h.has_projects).0)
      ]

  -- A name resolves to an identifier that a match has, where all matches have it.
  resolve_one :
      (name id : Bytes) (js : List Identifier)
      → Any (λ j. Matches s name j × (j.id ≡ id)) js
      → All (λ j. Matches s name j → j.id ≡ id) js
      → resolve s name js ≡ ok id
  resolve_one name id [] m h = absurd m
  resolve_one name id (j ∷ js) m (hj, h) = elim (resolve_step s name j js) [
    | inl (match, e) ↦ e ∙ ap ok (hj match)
    | inr (no_match, e) ↦ elim m [
      | inl (match, _) ↦ absurd (no_match match)
      | inr there ↦ e ∙ resolve_one name id js there h
    ]
  ]

  All-at :
      (P : Identifier → Type 0) (idents : List Identifier) (j : Identifier)
      → All P idents
      → Any (λ i. i ≡ j) idents
      → P j
  All-at P [] j h m = absurd m
  All-at P (i ∷ idents) j (p, h) (inl e) = subst P e p
  All-at P (i ∷ idents) j (p, h) (inr m) = All-at P idents j h m

  -- Behind a write whose identifier all earlier matches have, all matches have it.
  others_match :
      (name id : Bytes) (idents js : List Identifier)
      → All (λ j. Matches s name j → j.id ≡ id) idents
      → All (λ j. (j.id ≡ id) ⊎ Any (λ i. i ≡ j) idents) js
      → All (λ j. Matches s name j → j.id ≡ id) js
  others_match name id idents [] h g = tt
  others_match name id idents (j ∷ js) h (inl e, g) = (λ _. e, others_match name id idents js h g)
  others_match name id idents (j ∷ js) h (inr m, g) =
      (All-at (λ i. Matches s name i → i.id ≡ id) idents j h m, others_match name id idents js h g)

  pub Written-resolves :
      (id name value : Bytes) (res : Stored) (idents : List Identifier) (v : W)
      → (c : Written s id name value (projects s) res idents v)
      → All (λ j. Matches s name j → j.id ≡ id) idents
      → resolve s name c.after ≡ ok id
  Written-resolves id name value res idents v c h =
      resolve_one name id c.after
        (Any-map _ _ (λ j e. (IsEntry-Matches id name j e, e.same_id)) c.after c.there)
        (others_match name id idents c.after h c.others)

  -- No match, so every match has the identifier.
  pub none-Matches :
      (name id : Bytes) (idents : List Identifier)
      → All (λ j. Matches s name j → ⊥) idents
      → All (λ j. Matches s name j → j.id ≡ id) idents
  none-Matches name id [] h = tt
  none-Matches name id (j ∷ js) (no_match, h) =
      (λ m. absurd (no_match m), none-Matches name id js h)

  -- What resolves is the one identifier of the matches.
  pub resolved_one :
      (name id : Bytes) (idents : List Identifier)
      → resolve s name idents ≡ ok id
      → (one : Bytes) × All (λ j. Matches s name j → j.id ≡ one) idents
      → All (λ j. Matches s name j → j.id ≡ id) idents
  resolved_one name id idents r (one, h) = elim (resolve-cases s name idents) [
    | inl (skipped, rest, i, f, all, match, e) ↦
        let named : i.id ≡ one =
          All-at (λ j. Matches s name j → j.id ≡ one) idents i h
            (subst (Any (λ j. j ≡ i)) (sym f)
              (Any-append (λ j. j ≡ i) skipped (i ∷ rest) (inr (inl refl))))
            match in
        let same : one ≡ id = cc in
        subst (λ x. All (λ j. Matches s name j → j.id ≡ x) idents) same h
    | inr (all, _) ↦ none-Matches name id idents all
  ]
