-- ===== src/Tests/Polling.antt =====
-- The poller at concrete inputs, as in poll_test.go.
use vaultlet.Prelude.{
  arith, length, none, List, [], ◌∷◌, Bytes, codes, bytes_eq, ◌≡◌, refl, take, filter,
}
use vaultlet.Errors.{ok, err, plain}
use vaultlet.Strings.{join, separated, before}
use vaultlet.Domain.Key.{key_string, key_is_zero, namespace_string}
use vaultlet.Domain.Secret.{SecretMeta}
use vaultlet.Domain.Event.{added, updated, deleted, in_sync_event}
use vaultlet.Adapters.Poll.Table.{find, insert, remove, keys, member, sort}
use vaultlet.Adapters.Poll.Channel.{sent_of, pure, emit, close}
use vaultlet.Adapters.Poll.{
  Wait, tick, ctx_done, goroutine, snapshot_loop, metas_loop, unchanged, change_type, gone, meta_at,
  gone_loop, round, poll_loop,
}
use vaultlet.Adapters.Poll.Diff.{
  stream_events, snapshot_events, insert_all, loop_events, round_events, round_seen, change_events,
  changed, lost, present_after, gone_events, remove_all,
}
use vaultlet.Adapters.Poll.Delivery.{goroutine_sent}
use vaultlet.Adapters.Poll.Replay.{replay}
use vaultlet.Adapters.Poll.Versions.{latest, version_at}
use vaultlet.Adapters.Poll.View.{stream_view, last_good}
use vaultlet.Tests.Samples.{payments_prod}

abbrev secret : Bytes → Bytes → SecretMeta
secret name version = record {
  key = record { ns = payments_prod; name = name };
  version = record { id = version };
  created_at = 0;
}

abbrev first : List SecretMeta
first = secret (codes "A") (codes "1") ∷ secret (codes "B") (codes "1") ∷ []

abbrev second : List SecretMeta
second = secret (codes "A") (codes "2") ∷ secret (codes "C") (codes "1") ∷ []

abbrev waits : List Wait
waits =
    tick (err (plain "backend down")) none
    ∷ tick (ok second) none
    ∷ tick (ok second) none
    ∷ ctx_done
    ∷ []

-- A failed poll and an unchanged snapshot are silent.
snapshot_then_diffs :
    sent_of (goroutine first waits (record { sent = []; room = 100 }))
    ≡ record { type = added; meta = secret (codes "A") (codes "1") }
      ∷ record { type = added; meta = secret (codes "B") (codes "1") }
      ∷ in_sync_event
      ∷ record { type = updated; meta = secret (codes "A") (codes "2") }
      ∷ record { type = added; meta = secret (codes "C") (codes "1") }
      ∷ record { type = deleted; meta = secret (codes "B") (codes "1") }
      ∷ []
unfolding goroutine snapshot_loop metas_loop unchanged change_type gone meta_at gone_loop round
    poll_loop sent_of pure emit close find insert remove keys member sort before filter key_string
    key_is_zero namespace_string join separated bytes_eq
snapshot_then_diffs = refl

goroutine_sent_example :
    sent_of (goroutine first waits (record { sent = []; room = 4 }))
    ≡ take 4 (stream_events first waits)
goroutine_sent_example = goroutine_sent first waits 4

six_events : length (stream_events first waits) ≡ 6
unfolding stream_events snapshot_events insert_all loop_events round_events round_seen change_events
    changed lost present_after gone_events remove_all unchanged change_type gone meta_at find insert
    remove keys member sort before filter key_string key_is_zero namespace_string join separated
    bytes_eq
six_events = refl

stream_view_example :
    version_at
      (codes "payments/prod/A")
      (replay (sent_of (goroutine first waits (record { sent = []; room = 6 }))) [])
    ≡ latest (codes "payments/prod/A") (last_good first waits)
stream_view_example =
    stream_view (codes "payments/prod/A") first waits 6 (omega (arith, six_events))
