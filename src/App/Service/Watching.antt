-- ===== src/App/Service/Watching.antt =====
-- What Watch delivers: the events that the principal may see, in their order, up to the send at
-- which the context ends.
use vaultlet.Prelude.{
  ℕ, zero, suc, ◌≤◌, Bool, true, false, ◌||◌, List, [], ◌∷◌, Bytes, ◌≡◌, inl, inr, refl, ap, ◌∙◌,
  sym, arith, Bool-cases, Any, Any-filter, Any-map, filter, take, length, Any-take, take-all,
  length-filter, subst, take-take,
}
use vaultlet.Domain.Key.{Namespace, contains}
use vaultlet.Domain.Event.{SecretEvent, EventType, in_sync, is_in_sync}
use vaultlet.App.Policy.{list, watch, Policy, allows, can_watch}
use vaultlet.App.Policy.Checks.{can_watch_of_allows}
use vaultlet.App.Service.{Service, visible, filter_events}

-- The marker, or an event of a secret under the namespace that the principal may list and watch.
pub data IsVisible (p : Policy) (who : Bytes) (ns : Namespace) (ev : SecretEvent) : Type 0 where
  marker : ev.type ≡ in_sync → IsVisible p who ns ev
  seen :
      contains ns ev.meta.key.ns ≡ true
      → allows p who list ev.meta.key.ns ≡ true
      → allows p who watch ev.meta.key.ns ≡ true
      → IsVisible p who ns ev

module _ {W : Type 0} (s : Service W) (who : Bytes) (ns : Namespace) where
  abbrev pub passes : SecretEvent → Bool
  passes ev = is_in_sync ev.type || visible s who ns ev.meta

  pub passes-IsVisible : (ev : SecretEvent) → passes ev ≡ true → IsVisible s.policy who ns ev
  unfolding visible
  passes-IsVisible ev h = elim (Bool-cases (is_in_sync ev.type)) [
    | inl e ↦ marker (in_sync_type ev.type e)
    | inr e ↦ seen (ground arith) (ground arith) (ground arith)
  ]
    where
      in_sync_type : (t : EventType) → is_in_sync t ≡ true → t ≡ in_sync
      in_sync_type in_sync h = refl
      in_sync_type _ h = unfold is_in_sync in cc

  IsVisible-passes : (ev : SecretEvent) → IsVisible s.policy who ns ev → passes ev ≡ true
  unfolding visible is_in_sync
  IsVisible-passes ev (marker e) = rw e
  IsVisible-passes ev (seen a b c) = ground arith

  -- The stream is a prefix, as long as the sends that are taken, of the events that pass.
  pub filter_events-take :
      (room : ℕ) (src : List SecretEvent)
      → filter_events s room who ns src ≡ take room (filter passes src)
  unfolding filter_events filter
  filter_events-take zero [] = refl
  filter_events-take (suc room) [] = refl
  filter_events-take zero (ev ∷ src) = ground (arith, filter_events-take zero src)
  filter_events-take (suc room) (ev ∷ src) =
      ground (arith, filter_events-take room src, filter_events-take (suc room) src)

  -- Whatever a subscriber receives, at whatever send the context ends, the backend sent it, and it
  -- is the marker or an event of a secret under the namespace that the principal may list and watch.
  pub filter_events_sound :
      (room : ℕ) (src : List SecretEvent) (x : SecretEvent)
      → Any (λ ev. ev ≡ x) (filter_events s room who ns src)
      → Any (λ ev. (ev ≡ x) × IsVisible s.policy who ns ev) src
  filter_events_sound room src x h =
      Any-map _ _ (λ ev (e, k). (e, passes-IsVisible ev k)) src
        ((Any-filter _ passes src).0 (
          Any-take _ room (filter passes src)
            (subst (Any (λ ev. ev ≡ x)) (filter_events-take room src) h)))

  -- A subscriber that takes every send receives every event that it may see.
  pub filter_events_complete :
      (room : ℕ) (src : List SecretEvent) (x : SecretEvent)
      → length src ≤ room
      → Any (λ ev. (ev ≡ x) × IsVisible s.policy who ns ev) src
      → Any (λ ev. ev ≡ x) (filter_events s room who ns src)
  filter_events_complete room src x enough h =
      let short : length (filter passes src) ≤ room = omega (arith, length-filter passes src) in
      let whole = filter_events-take room src ∙ take-all room (filter passes src) short in
      subst (Any (λ ev. ev ≡ x)) (sym whole)
        ((Any-filter _ passes src).1 (Any-map _ _ (λ ev (e, k). (e, IsVisible-passes ev k)) src h))

  -- Sends beyond those taken change nothing in what was delivered: with less room the stream is the
  -- first part of the stream with more.
  pub filter_events_prefix :
      (room more : ℕ) (src : List SecretEvent)
      → room ≤ more
      → filter_events s room who ns src ≡ take room (filter_events s more who ns src)
  filter_events_prefix room more src h =
      filter_events-take room src
      ∙ (sym (take-take room more (filter passes src) h)
          ∙ ap (take room) (sym (filter_events-take more src)))

  -- Where canWatch denies the subscription, no event of a secret would have been delivered.
  pub filter_events_denied :
      (room : ℕ) (src : List SecretEvent) (x : SecretEvent)
      → can_watch s.policy who ns ≡ false
      → Any (λ ev. ev ≡ x) (filter_events s room who ns src)
      → x.type ≡ in_sync
  filter_events_denied room src x denied h = only_marker src (filter_events_sound room src x h)
    where
      marker_type : (ev : SecretEvent) → IsVisible s.policy who ns ev → ev.type ≡ in_sync
      marker_type ev (marker e) = e
      marker_type ev (seen a b c) = cc (can_watch_of_allows s.policy who ns ev.meta.key.ns a b c)

      only_marker :
          (src' : List SecretEvent)
          → Any (λ ev. (ev ≡ x) × IsVisible s.policy who ns ev) src'
          → x.type ≡ in_sync
      only_marker [] m = absurd m
      only_marker (ev ∷ src') (inl (e, v)) = rw (← e) (marker_type ev v)
      only_marker (ev ∷ src') (inr m) = only_marker src' m
