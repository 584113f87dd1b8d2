-- ===== src/Tests/Watching.antt =====
-- A watch through the service, of a backend that polls.
use vaultlet.Prelude.{
  ℕ, arith, length, filter, none, some, if◌then◌else◌, List, [], ◌∷◌, codes, bytes_eq, ◌≡◌, refl,
}
use vaultlet.Errors.{ok, err, plain}
use vaultlet.Strings.{join, separated, before}
use vaultlet.Domain.Key.{
  contains, same_segments, key_string, key_is_zero, namespace_string, zero_namespace,
}
use vaultlet.Domain.Secret.{SecretMeta}
use vaultlet.Domain.Event.{SecretEvent}
use vaultlet.Ports.{SecretStore}
use vaultlet.App.Policy.{list, watch, can_watch, can_list, overlaps_by, rules_of, grants, action_eq}
use vaultlet.App.Service.{Service, watch_secrets}
use vaultlet.Adapters.Poll.{Wait, tick, ctx_done, unchanged, change_type, gone, meta_at}
use vaultlet.Adapters.Poll.Table.{find, insert, remove, keys, member, sort}
use vaultlet.Adapters.Poll.Diff.{
  stream_events, snapshot_events, insert_all, loop_events, round_events, round_seen, change_events,
  changed, lost, present_after, gone_events, remove_all,
}
use vaultlet.Adapters.Poll.Replay.{replay}
use vaultlet.Adapters.Poll.Versions.{latest, version_at}
use vaultlet.Adapters.Poll.View.{last_good}
use vaultlet.Adapters.Stores.{watch_list}
use vaultlet.Adapters.Stores.Keyed.{BringValidKeys}
use vaultlet.Adapters.Stores.Filtered.{may_watch}
use vaultlet.Adapters.Stores.Watching.{watch_secrets_view}
use vaultlet.Tests.Samples.{payments_prod, db_url, db_url-IsValidKey, meta_db_url, counting}
use vaultlet.Tests.Service.{idle}

abbrev rotated : SecretMeta
rotated = record meta_db_url { version = record { id = codes "8" } }

-- A poll fails, then the secret has a new version.
abbrev waits : List Wait
waits = tick (err (plain "backend down")) none ∷ tick (ok (rotated ∷ [])) none ∷ ctx_done ∷ []

abbrev polled : SecretStore ℕ
polled = record counting { watch = watch_list waits 4 (λ ctx ns w. (ok (meta_db_url ∷ []), w)) }

abbrev watcher : Service ℕ
watcher = record {
  store = polled;
  policy =
      (codes "alice", record { namespace = zero_namespace; actions = list ∷ watch ∷ [] } ∷ []) ∷ [];
}

three_events : length (stream_events (meta_db_url ∷ []) waits) ≡ 3
unfolding stream_events snapshot_events insert_all loop_events round_events round_seen change_events
    changed lost present_after gone_events remove_all unchanged change_type gone meta_at find insert
    remove keys member sort before filter key_string key_is_zero namespace_string join separated
    bytes_eq
three_events = refl

watch_secrets_view_example :
    (evs : List SecretEvent) × ((watch_secrets watcher 4
        (record { principal = some (codes "alice"); done = none })
        payments_prod
        idle).0
      ≡ ok evs)
    × (version_at (key_string db_url) (replay evs []) ≡ (
        if may_watch watcher (codes "alice") payments_prod db_url
        then latest (key_string db_url) (last_good (meta_db_url ∷ []) waits)
        else none))
watch_secrets_view_example =
    watch_secrets_view watcher (codes "alice") payments_prod db_url 4 waits idle 0
      (meta_db_url ∷ []) (λ ctx ns w. (ok (meta_db_url ∷ []), w))
      (unfold can_watch can_list rules_of overlaps_by grants action_eq contains same_segments
          bytes_eq in
        refl)
      refl refl db_url-IsValidKey (db_url-IsValidKey, tt)
      (unfold BringValidKeys in ((db_url-IsValidKey, tt), tt)) (omega (arith, three_events))
