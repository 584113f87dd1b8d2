-- ===== src/Adapters/Stores/Watching.antt =====
-- A watch through the service of a backend that polls: what a subscriber's copy becomes.
use vaultlet.Prelude.{
  ℕ, ◌≤◌, true, Option, none, some, List, [], Bytes, length, if◌then◌else◌, ◌≡◌, refl, sym, ap, ◌∙◌,
  subst,
}
use vaultlet.Errors.{Result, ok}
use vaultlet.Domain.Key.{Key, Namespace, key_string}
use vaultlet.Domain.Key.Valid.{IsValidKey}
use vaultlet.Domain.Secret.{SecretMeta}
use vaultlet.Domain.Event.{SecretEvent}
use vaultlet.App.Policy.{can_watch}
use vaultlet.Domain.Secret.{Version}
use vaultlet.Adapters.Stores.{watch_list}
use vaultlet.Ports.{Context}
use vaultlet.App.Service.{Service, State, watch_secrets, filter_events}
use vaultlet.Adapters.Stores.Keyed.{HasValidKeys, BringValidKeys}
use vaultlet.Adapters.Poll.Channel.{sent_of}
use vaultlet.Adapters.Poll.{poll}
use vaultlet.Adapters.Poll.Delivery.{goroutine_sent}
use vaultlet.Adapters.Poll.View.{last_good, stream_view}
use vaultlet.Adapters.Poll.Versions.{latest, version_at}
use vaultlet.Prelude.{take-all}
use vaultlet.Adapters.Poll.{Wait, goroutine}
use vaultlet.Adapters.Poll.Diff.{stream_events}
use vaultlet.Adapters.Poll.Replay.{replay}
use vaultlet.Adapters.Stores.Filtered.{may_watch, filtered_view, stream-Decided}

-- A subscriber of the service's watch over a polled backend, which takes every event and replays it
-- into an empty copy, ends with the version of a key in the last good snapshot, if the key is under
-- the namespace and the policy lets the principal list and watch it, and without the key otherwise:
-- where the principal is admitted, the context lives, the key and all that are listed are valid, and
-- the first List succeeds.
pub watch_secrets_view :
    {W : Type 0} (s : Service W) (who : Bytes) (ns : Namespace) (k : Key) (room : ℕ)
    (waits : List Wait) (st : State W) (w : W) (snapshot : List SecretMeta)
    (list_of : Context → Namespace → W → Result (List SecretMeta) × W)
    → can_watch s.policy who ns ≡ true
    → s.store.watch (record { principal = some who; done = none }) ns st.world
      ≡ watch_list waits room list_of (record { principal = some who; done = none }) ns st.world
    → list_of (record { principal = some who; done = none }) ns st.world ≡ (ok snapshot, w)
    → IsValidKey k
    → HasValidKeys snapshot
    → BringValidKeys waits
    → length (stream_events snapshot waits) ≤ room
    → (evs : List SecretEvent) × ((watch_secrets s room
          (record { principal = some who; done = none })
          ns
          st).0
        ≡ ok evs)
      × (version_at (key_string k) (replay evs []) ≡ (
          if may_watch s who ns k then latest (key_string k) (last_good snapshot waits) else none))
unfolding watch_secrets watch_list poll
watch_secrets_view s who ns k room waits st w snapshot list_of admitted polled first v h hw enough =
    let sent = sent_of (goroutine snapshot waits (record { sent = []; room = room })) in
    let all_sent : sent ≡ stream_events snapshot waits =
      goroutine_sent snapshot waits room ∙ take-all room (stream_events snapshot waits) enough in
    let answer : s.store.watch (record { principal = some who; done = none }) ns st.world
        ≡ (ok sent, w) =
      polled ∙ rw first refl in
    (
      filter_events s room who ns sent,
      rw (answer, watch_secrets) (rw admitted refl),
      subst
            (λ x.
              version_at (key_string k) (replay (filter_events s room who ns x) [])
              ≡ (if may_watch s who ns k then version_at (key_string k) (replay x []) else none))
            (sym all_sent)
            (filtered_view s who ns k room (stream_events snapshot waits)
              (stream-Decided s who ns k snapshot waits v h hw) enough)
          ∙ ap (λ (x : Option Version). if may_watch s who ns k then x else none)
              (stream_view (key_string k) snapshot waits room enough),
    )
