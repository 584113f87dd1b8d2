-- ===== src/Main/Watching.antt =====
-- Whom the server sends the events of a watch to.
use vaultlet.Prelude.{
  ℕ, zero, suc, Bool, true, some, List, [], ◌∷◌, ◌++◌, Bytes, All, Any, ◌≡◌, ◌⊎◌, refl, ap, sym,
  subst, ◌∙◌, arith, inl, inr, filter, take, Bool-cases,
}
use vaultlet.Errors.{ok, Result-cases}
use vaultlet.Config.{UserConfig, rule_specs}
use vaultlet.Config.Granting.{IsGranted, allows-IsGranted}
use vaultlet.Domain.Key.{Key, Namespace, key_string, contains}
use vaultlet.Domain.Event.{
  SecretEvent, EventType, in_sync, added, updated, deleted, other, is_in_sync,
}
use vaultlet.Ports.{Context}
use vaultlet.App.Policy.{list, watch, new_policy, can_watch}
use vaultlet.App.Service.{Service, State, as_store, audit, visible, filter_events}
use vaultlet.App.Service
use vaultlet.App.Service.Watching.{
  IsVisible, marker, seen, passes, passes-IsVisible, filter_events-take,
}
use vaultlet.Adapters.Grpc.Auth.{Answer, Incoming, with_auth}
use vaultlet.Adapters.Grpc.Auth.Answers.{Proves, with_auth-cases}
use vaultlet.Adapters.Grpc.Handlers.{
  WireEvent, WireMeta, type_in_sync, SendResult, sent, broken, send_all, wire_event, wire_meta,
  map_event, request_namespace, watch_secrets,
}

-- The marker, or an event of a key under the namespace, at which the users' rules grant list and
-- watch.
abbrev pub IsSeen : List UserConfig → Bytes → Namespace → WireEvent → Type 0
IsSeen users who ns ev =
    (ev.type ≡ type_in_sync)
    ⊎ ((k : Key) × (meta : WireMeta) × (ev.meta ≡ some meta)
        × (meta.key ≡ key_string k)
        × (contains ns k.ns ≡ true)
        × Any (IsGranted who list k.ns) users
        × Any (IsGranted who watch k.ns) users)

All-take :
    (P : SecretEvent → Type 0) (room : ℕ) (evs : List SecretEvent)
    → All P evs
    → All P (take room evs)
All-take P zero evs h = tt
All-take P (suc room) [] h = tt
All-take P (suc room) (ev ∷ evs) (p, h) = (p, All-take P room evs h)

module _ {W : Type 0} (s : Service W) (who : Bytes) (ns : Namespace) where
  filter-IsVisible :
      (src : List SecretEvent) → All (IsVisible s.policy who ns) (filter (passes s who ns) src)
  unfolding filter
  filter-IsVisible [] = tt
  filter-IsVisible (ev ∷ src) = elim (Bool-cases (passes s who ns ev)) [
    | inl e ↦ rw e (passes-IsVisible s who ns ev e, filter-IsVisible src)
    | inr e ↦ rw e (filter-IsVisible src)
  ]

  filter_events-IsVisible :
      (room : ℕ) (src : List SecretEvent)
      → All (IsVisible s.policy who ns) (filter_events s room who ns src)
  filter_events-IsVisible room src =
      subst (All (IsVisible s.policy who ns)) (sym (filter_events-take s who ns room src)) (
        All-take (IsVisible s.policy who ns) room (filter (passes s who ns) src)
          (filter-IsVisible src))

  module _ (users : List UserConfig) (compiled : new_policy (rule_specs users) ≡ ok s.policy) where
    wire_event-IsSeen :
        (ev : SecretEvent) → IsVisible s.policy who ns ev → IsSeen users who ns (wire_event ev)
    unfolding wire_event wire_meta map_event is_in_sync
    wire_event-IsSeen ev (marker e) = inl (rw e refl)
    wire_event-IsSeen ev (seen under may_list may_watch) = elim (Bool-cases (is_in_sync ev.type)) [
      | inl e ↦ inl (rw (marker_type ev.type e) refl)
      | inr e ↦
          let (lists, _) = allows-IsGranted who list ev.meta.key.ns users s.policy compiled in
          let (watches, _) = allows-IsGranted who watch ev.meta.key.ns users s.policy compiled in
          inr (
            ev.meta.key,
            wire_meta ev.meta,
            rw e refl,
            refl,
            under,
            lists may_list,
            watches may_watch,
          )
    ]
      where
        marker_type : (t : EventType) → is_in_sync t ≡ true → t ≡ in_sync
        marker_type in_sync h = refl
        marker_type added h = cc
        marker_type updated h = cc
        marker_type deleted h = cc
        marker_type (other t) h = cc

    send_all-IsSeen :
        (sends : List SendResult) (evs : List SecretEvent)
        → All (IsVisible s.policy who ns) evs
        → All (IsSeen users who ns) (send_all sends evs).1
    unfolding send_all
    send_all-IsSeen [] [] h = tt
    send_all-IsSeen (x ∷ sends) [] h = tt
    send_all-IsSeen [] (ev ∷ evs) (v, h) = (wire_event-IsSeen ev v, send_all-IsSeen [] evs h)
    send_all-IsSeen (sent ∷ sends) (ev ∷ evs) (v, h) =
        (wire_event-IsSeen ev v, send_all-IsSeen sends evs h)
    send_all-IsSeen (broken ended ∷ sends) (ev ∷ evs) h = tt

module _ {W : Type 0} (s : Service W) (room : ℕ) where
  -- The handler of a watch over the server's state and the events that the client has got.
  unfoldable pub streamed :
      List SendResult
      → Bytes
      → Context
      → State W × List WireEvent
      → Answer (Unit {0}) × (State W × List WireEvent)
  streamed sends text ctx (st, got) =
      let ((a, evs), st') = watch_secrets (as_store room s) sends text ctx st in
      (a, (st', got ++ evs))

module _ {W : Type 0} (s : Service W) (room : ℕ) (users : List UserConfig) where
  watch_secrets-IsSeen :
      (sends : List SendResult) (text : Bytes) (ctx : Context) (who : Bytes) (st : State W)
      → new_policy (rule_specs users) ≡ ok s.policy
      → ctx.principal ≡ some who
      → ((watch_secrets (as_store room s) sends text ctx st).0.1 ≡ [])
        ⊎ ((ns : Namespace) × (request_namespace text ≡ ok ns)
            × All (IsSeen users who ns) (watch_secrets (as_store room s) sends text ctx st).0.1)
  unfolding watch_secrets as_store Service.watch_secrets audit
  watch_secrets-IsSeen sends text ctx who st compiled known =
      elim (Result-cases (request_namespace text)) [
        | inr (x, e) ↦ inl (rw (e, watch_secrets) refl)
        | inl (ns, e) ↦ elim (Bool-cases (can_watch s.policy who ns)) [
          | inr f ↦ inl (ground arith)
          | inl f ↦ elim (Result-cases (s.store.watch ctx ns st.world).0) [
            | inr (x, g) ↦ inl (ground arith)
            | inl (src, g) ↦
                let same : (watch_secrets (as_store room s) sends text ctx st).0.1
                    ≡ (send_all sends (filter_events s room who ns src)).1 =
                  ground arith in
                inr (
                  ns,
                  e,
                  subst (All (IsSeen users who ns)) (sym same) (
                      send_all-IsSeen s who ns users compiled sends
                        (filter_events s room who ns src)
                        (filter_events-IsVisible s who ns room src)),
                )
          ]
        ]
      ]

  -- A WatchSecrets RPC sends nothing to its client, or it has a first authorization value that proves
  -- the name of a user with its password, and each event that it sends is the marker or of a key
  -- under the requested namespace at which the configuration grants that name list and watch.
  pub streamed-IsGranted :
      (compare : Bytes → Bytes → Bool) (sends : List SendResult) (rpc : Incoming) (text : Bytes)
      (st : State W)
      → new_policy (rule_specs users) ≡ ok s.policy
      → ((with_auth compare users (streamed s room sends text) rpc (st, [])).1.1 ≡ [])
        ⊎ ((auth who : Bytes) × (rest : List Bytes) × (ns : Namespace) × (rpc.authorization
              ≡ some (auth ∷ rest))
            × Proves compare users auth who
            × (request_namespace text ≡ ok ns)
            × All
                (IsSeen users who ns)
                (with_auth compare users (streamed s room sends text) rpc (st, [])).1.1)
  unfolding streamed
  streamed-IsGranted compare sends rpc text st compiled =
      elim (with_auth-cases compare users (streamed s room sends text) rpc (st, [])) [
        | inl refused ↦ inl (ap (λ x. x.1.1) refused)
        | inr (auth, who, rest, header, handled, proved) ↦
            let got = ap (λ x. x.1.1) handled in
            elim (watch_secrets-IsSeen sends text (record rpc.ctx { principal = some who }) who st
              compiled refl) [
                | inl none_sent ↦ inl (got ∙ none_sent)
                | inr (ns, parsed, shown) ↦ inr (
                  auth,
                  who,
                  rest,
                  ns,
                  header,
                  proved,
                  parsed,
                  subst (All (IsSeen users who ns)) (sym got) shown,
                )
              ]
      ]
