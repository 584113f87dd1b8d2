-- ===== src/App/Service/Listing.antt =====
-- What List shows: exactly the backend's secrets that the principal may list, in their order.
use vaultlet.Prelude.{
  Bool, true, false, ◌&&◌, List, [], ◌∷◌, ◌++◌, Bytes, ◌≡◌, ◌↔◌, refl, ap, ◌∙◌, sym, arith, Any,
  Any-filter, Any-map, filter, filter-none, filter-append, subst,
}
use vaultlet.Domain.Key.{Namespace, contains}
use vaultlet.Domain.Secret.{SecretMeta}
use vaultlet.App.Policy.{list, Policy, allows, can_list}
use vaultlet.App.Policy.Checks.{can_list_of_allows}
use vaultlet.App.Service.{Service, listed}

-- The principal may list the secret, and it stands under the namespace.
pub record IsListable (p : Policy) (who : Bytes) (ns : Namespace) (m : SecretMeta) : Type 0 where
  pub under : contains ns m.key.ns ≡ true
  pub allowed : allows p who list m.key.ns ≡ true

module _ {W : Type 0} (s : Service W) (who : Bytes) (ns : Namespace) where
  abbrev pub shows : SecretMeta → Bool
  shows m = contains ns m.key.ns && allows s.policy who list m.key.ns

  -- The loop of List is a filter.
  pub listed-filter : (metas : List SecretMeta) → listed s who ns metas ≡ filter shows metas
  unfolding listed filter
  listed-filter [] = refl
  listed-filter (m ∷ metas) = rw (listed-filter metas)

  shows-IsListable : (m : SecretMeta) → shows m ≡ true → IsListable s.policy who ns m
  shows-IsListable m h = record { under = ground arith; allowed = ground arith }

  IsListable-shows : (m : SecretMeta) → IsListable s.policy who ns m → shows m ≡ true
  IsListable-shows m h = ground (arith, h.under, h.allowed)

  -- A secret is listed exactly if the backend reports it, it stands under the requested namespace
  -- and the principal may list it.
  pub listed_iff :
      (metas : List SecretMeta) (x : SecretMeta)
      → Any (λ m. m ≡ x) (listed s who ns metas)
        ↔ Any (λ m. (m ≡ x) × IsListable s.policy who ns m) metas
  listed_iff metas x = (
    λ h.
        Any-map _ _ (λ m (e, k). (e, shows-IsListable m k)) metas
          ((Any-filter _ shows metas).0 (subst (Any (λ m. m ≡ x)) (listed-filter metas) h)),
    λ h. subst (Any (λ m. m ≡ x)) (sym (listed-filter metas)) (
        (Any-filter _ shows metas).1 (Any-map _ _ (λ m (e, k). (e, IsListable-shows m k)) metas h)),
  )

  -- A secret that the principal may not list leaves no trace in the answer, wherever the backend
  -- reports it.
  pub listed_hidden :
      (before after : List SecretMeta) (m : SecretMeta)
      → allows s.policy who list m.key.ns ≡ false
      → listed s who ns (before ++ m ∷ after) ≡ listed s who ns (before ++ after)
  listed_hidden before after m h =
      let hide : filter shows (m ∷ after) ≡ filter shows after = unfold filter in ground arith in
      listed-filter (before ++ m ∷ after)
      ∙ (filter-append shows before (m ∷ after)
          ∙ (ap (λ r. filter shows before ++ r) hide
              ∙ (sym (filter-append shows before after) ∙ sym (listed-filter (before ++ after)))))

  -- Where canList denies the whole call, no secret would have been shown: the denial costs the
  -- principal nothing that it may list.
  pub listed_denied :
      (metas : List SecretMeta) → can_list s.policy who ns ≡ false → listed s who ns metas ≡ []
  listed_denied metas h = listed-filter metas ∙ filter-none shows none_shown metas
    where
      none_shown : (m : SecretMeta) → shows m ≡ false
      none_shown m = ground (arith, can_list_of_allows s.policy who ns m.key.ns)
