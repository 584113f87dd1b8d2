-- ===== src/Adapters/Poll/Diff.antt =====
-- What the goroutine sends, as plain functions of the snapshots that it gets.
use vaultlet.Prelude.{none, some, List, [], ◌∷◌, ◌++◌, Bytes, if◌then◌else◌}
use vaultlet.Errors.{ok, err}
use vaultlet.Domain.Key.{key_string}
use vaultlet.Domain.Secret.{SecretMeta}
use vaultlet.Domain.Event.{SecretEvent, added, deleted, in_sync_event}
use vaultlet.Adapters.Poll.Table.{Seen, find, insert, remove, sort}
use vaultlet.Adapters.Poll.{unchanged, change_type, gone, meta_at, Wait, ctx_done, tick}

-- The events of a snapshot, and the map behind it.
unfoldable pub snapshot_events : List SecretMeta → List SecretEvent
snapshot_events [] = []
snapshot_events (meta ∷ metas) = record { type = added; meta = meta } ∷ snapshot_events metas

unfoldable pub insert_all : List SecretMeta → Seen → Seen
insert_all [] seen = seen
insert_all (meta ∷ metas) seen = insert_all metas (insert (key_string meta.key) meta seen)

-- What the loop over a later snapshot sends, and the map that it leaves.
unfoldable pub change_events : List SecretMeta → Seen → List SecretEvent
change_events [] seen = []
change_events (meta ∷ metas) seen =
    let k = key_string meta.key in
    if unchanged (find k seen) meta
    then change_events metas seen
    else record { type = change_type (find k seen); meta = meta }
      ∷ change_events metas (insert k meta seen)

unfoldable pub changed : List SecretMeta → Seen → Seen
changed [] seen = seen
changed (meta ∷ metas) seen =
    let k = key_string meta.key in
    changed metas (if unchanged (find k seen) meta then seen else insert k meta seen)

unfoldable pub present_after : List SecretMeta → List Bytes → List Bytes
present_after [] present = present
present_after (meta ∷ metas) present = present_after metas (key_string meta.key ∷ present)

-- What the loop over the deletions sends, and the map that it leaves.
unfoldable pub gone_events : List Bytes → Seen → List SecretEvent
gone_events [] seen = []
gone_events (k ∷ ks) seen =
    record { type = deleted; meta = meta_at (find k seen) } ∷ gone_events ks (remove k seen)

unfoldable pub remove_all : List Bytes → Seen → Seen
remove_all [] seen = seen
remove_all (k ∷ ks) seen = remove_all ks (remove k seen)

-- The keys to delete after a snapshot, in the order of their deletion.
unfoldable pub lost : List SecretMeta → Seen → List Bytes
lost metas seen = sort (gone (present_after metas []) (changed metas seen))

unfoldable pub round_events : List SecretMeta → Seen → List SecretEvent
round_events metas seen =
    change_events metas seen ++ gone_events (lost metas seen) (changed metas seen)

unfoldable pub round_seen : List SecretMeta → Seen → Seen
round_seen metas seen = remove_all (lost metas seen) (changed metas seen)

-- What the loop sends over the waits that it meets, and whether it then waits or has returned.
unfoldable pub loop_events : List Wait → Seen → List SecretEvent
loop_events [] seen = []
loop_events (ctx_done ∷ waits) seen = []
loop_events (tick (ok metas) e ∷ waits) seen =
    round_events metas seen ++ loop_events waits (round_seen metas seen)
loop_events (tick (err failure) none ∷ waits) seen = loop_events waits seen
loop_events (tick (err failure) (some e) ∷ waits) seen = []

-- Everything that the goroutine sends to a subscriber that takes every send.
unfoldable pub stream_events : List SecretMeta → List Wait → List SecretEvent
stream_events snapshot waits =
    snapshot_events snapshot ++ in_sync_event ∷ loop_events waits (insert_all snapshot [])
