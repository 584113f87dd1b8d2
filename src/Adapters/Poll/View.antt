-- ===== src/Adapters/Poll/View.antt =====
-- A subscriber that replays the events has what the backend had at the last good snapshot.
use vaultlet.Prelude.{
  true, false, Option, none, some, List, [], ◌∷◌, Bytes, ◌≡◌, refl, ap, ◌∙◌, arith, Bool-cases,
  Option-cases, inl, inr, bytes_eq_iff, All, ℕ, ◌≤◌, length, take-all,
}
use mathlib.Core.Option
use vaultlet.Errors.{ok, err}
use vaultlet.Domain.Key.{key_string}
use vaultlet.Domain.Secret.{SecretMeta, Version}
use vaultlet.Domain.Event.{SecretEvent, in_sync_event}
use vaultlet.Adapters.Poll.Table.{Seen, find, insert, remove, keys, member}
use vaultlet.Adapters.Poll.Table.Keys.{
  IsTable, Distinct, insert-IsTable, remove-IsTable, sort-filter-Distinct,
}
use vaultlet.Adapters.Poll.{unchanged, gone, Wait, ctx_done, tick, goroutine}
use vaultlet.Adapters.Poll.Channel.{sent_of}
use vaultlet.Adapters.Poll.Delivery.{goroutine_sent}
use vaultlet.Adapters.Poll.Diff.{
  snapshot_events, insert_all, change_events, changed, gone_events, remove_all, lost, round_events,
  round_seen, loop_events, stream_events,
}
use vaultlet.Adapters.Poll.Replay.{
  replay, replay-append, replay-snapshot, replay-change, replay-gone, Within,
}
use vaultlet.Adapters.Poll.Versions.{
  latest, version_at, or_before, version-insert_all, member-lost, version-round_seen,
}

insert_all-IsTable :
    (metas : List SecretMeta) (seen : Seen) → IsTable seen → IsTable (insert_all metas seen)
unfolding insert_all
insert_all-IsTable [] seen t = t
insert_all-IsTable (m ∷ metas) seen t =
    insert_all-IsTable metas (insert (key_string m.key) m seen) (insert-IsTable m seen t)

changed-IsTable :
    (metas : List SecretMeta) (seen : Seen) → IsTable seen → IsTable (changed metas seen)
unfolding changed
changed-IsTable [] seen t = t
changed-IsTable (m ∷ metas) seen t =
    elim (Bool-cases (unchanged (find (key_string m.key) seen) m)) [
      | inl e ↦ rw e (changed-IsTable metas seen t)
      | inr e ↦
          rw e (changed-IsTable metas (insert (key_string m.key) m seen) (insert-IsTable m seen t))
    ]

remove_all-IsTable : (ks : List Bytes) (seen : Seen) → IsTable seen → IsTable (remove_all ks seen)
unfolding remove_all
remove_all-IsTable [] seen t = t
remove_all-IsTable (k ∷ ks) seen t = remove_all-IsTable ks (remove k seen) (remove-IsTable k seen t)

round_seen-IsTable :
    (metas : List SecretMeta) (seen : Seen) → IsTable seen → IsTable (round_seen metas seen)
unfolding round_seen
round_seen-IsTable metas seen t =
    remove_all-IsTable (lost metas seen) (changed metas seen) (changed-IsTable metas seen t)

lost-Within :
    (metas : List SecretMeta) (seen : Seen) → Within (lost metas seen) (changed metas seen)
lost-Within metas seen k h = ground (arith, member-lost k metas seen)

lost-Distinct : (metas : List SecretMeta) (seen : Seen) → IsTable seen → Distinct (lost metas seen)
unfolding lost gone
lost-Distinct metas seen t =
    sort-filter-Distinct _ (keys (changed metas seen)) (changed-IsTable metas seen t).distinct

-- Replaying what one snapshot sends turns the copy of the old map into the new map.
pub replay-round :
    (metas : List SecretMeta) (seen : Seen)
    → IsTable seen
    → replay (round_events metas seen) seen ≡ round_seen metas seen
unfolding round_events round_seen
replay-round metas seen t =
    replay-append (change_events metas seen) (gone_events (lost metas seen) (changed metas seen))
      seen
    ∙ (ap (replay (gone_events (lost metas seen) (changed metas seen))) (replay-change metas seen)
        ∙ replay-gone (lost metas seen) (changed metas seen) (changed-IsTable metas seen t)
            (lost-Distinct metas seen t) (lost-Within metas seen))

-- The last snapshot that the goroutine got before it returned, or before it last waited.
pub last_good : List SecretMeta → List Wait → List SecretMeta
last_good snapshot [] = snapshot
last_good snapshot (ctx_done ∷ waits) = snapshot
last_good snapshot (tick (ok metas) e ∷ waits) = last_good metas waits
last_good snapshot (tick (err failure) none ∷ waits) = last_good snapshot waits
last_good snapshot (tick (err failure) (some e) ∷ waits) = snapshot

loop_view :
    (k : Bytes) (snapshot : List SecretMeta) (waits : List Wait) (seen : Seen)
    → IsTable seen
    → version_at k seen ≡ latest k snapshot
    → version_at k (replay (loop_events waits seen) seen) ≡ latest k (last_good snapshot waits)
unfolding loop_events last_good
loop_view k snapshot [] seen t h = unfold replay in h
loop_view k snapshot (ctx_done ∷ waits) seen t h = unfold replay in h
loop_view k snapshot (tick (ok metas) e ∷ waits) seen t h =
    ap (version_at k) (
      replay-append (round_events metas seen) (loop_events waits (round_seen metas seen)) seen
      ∙ ap (replay (loop_events waits (round_seen metas seen))) (replay-round metas seen t))
    ∙ loop_view k metas waits (round_seen metas seen) (round_seen-IsTable metas seen t)
        (version-round_seen k metas seen)
loop_view k snapshot (tick (err failure) none ∷ waits) seen t h =
    loop_view k snapshot waits seen t h
loop_view k snapshot (tick (err failure) (some e) ∷ waits) seen t h = unfold replay in h

empty-IsTable : IsTable []
empty-IsTable = record { keyed = tt; distinct = unfold keys in tt }

stream_events_view :
    (k : Bytes) (snapshot : List SecretMeta) (waits : List Wait)
    → version_at k (replay (stream_events snapshot waits) []) ≡ latest k (last_good snapshot waits)
unfolding stream_events
stream_events_view k snapshot waits =
    ap (version_at k) (
      replay-append (snapshot_events snapshot)
        (in_sync_event ∷ loop_events waits (insert_all snapshot [])) []
      ∙ (ap (replay (in_sync_event ∷ loop_events waits (insert_all snapshot [])))
            (replay-snapshot snapshot [])
          ∙ skip_marker (loop_events waits (insert_all snapshot [])) (insert_all snapshot [])))
    ∙ loop_view k snapshot waits (insert_all snapshot [])
        (insert_all-IsTable snapshot [] empty-IsTable)
        (version-insert_all k snapshot [] ∙ nothing_before (latest k snapshot))
  where
    skip_marker :
        (es : List SecretEvent) (view : Seen) → replay (in_sync_event ∷ es) view ≡ replay es view
    skip_marker es view = unfold replay in refl

    nothing_before : (o : Option Version) → or_before o (version_at k []) ≡ o
    nothing_before none = unfold version_at find in refl
    nothing_before (some v) = refl

no_member : (ks : List Bytes) → ((k : Bytes) → member k ks ≡ false) → ks ≡ []
no_member [] h = refl
no_member (k ∷ ks) h = unfold member in ground (arith, h k, bytes_eq_iff k k)

some_version : {a b : Version} → some a ≡ some b → a ≡ b
some_version h = cc

quiet_changes :
    (metas : List SecretMeta) (seen : Seen)
    → All (λ m. version_at (key_string m.key) seen ≡ some m.version) metas
    → (change_events metas seen ≡ []) × (changed metas seen ≡ seen)
unfolding change_events changed
quiet_changes [] seen h = (refl, refl)
quiet_changes (m ∷ metas) seen (e, h) =
    rw (known (find (key_string m.key) seen) (unfold version_at in e)) (quiet_changes metas seen h)
  where
    known :
        (o : Option SecretMeta)
        → Option.map (λ (x : SecretMeta). x.version) o ≡ some m.version
        → unchanged o m ≡ true
    known none f = cc
    known (some p) f =
        unfold unchanged in
        (bytes_eq_iff p.version.id m.version.id).1 (ap (λ v. v.id) (some_version f))

-- A snapshot that has every key of the map at the version of the map, and no other key, sends
-- nothing and leaves the map as it was.
pub round_quiet :
    (metas : List SecretMeta) (seen : Seen)
    → All (λ m. version_at (key_string m.key) seen ≡ some m.version) metas
    → ((k : Bytes) → latest k metas ≡ none → member k (keys seen) ≡ false)
    → (round_events metas seen ≡ []) × (round_seen metas seen ≡ seen)
unfolding round_events round_seen
round_quiet metas seen h complete =
    let (silent, same) = quiet_changes metas seen h in
    let none_lost : lost metas seen ≡ [] = no_member (lost metas seen) absent in
    (
      rw (silent, none_lost) (unfold gone_events in refl),
      rw (none_lost, same) (unfold remove_all in refl),
    )
  where
    absent : (k : Bytes) → member k (lost metas seen) ≡ false
    absent k =
        member-lost k metas seen
        ∙ rw ((quiet_changes metas seen h).1) (elim (Option-cases (latest k metas)) [
          | inl e ↦ rw e (complete k e)
          | inr (v, e) ↦ rw e
        ])

-- A subscriber that takes every send and replays what the goroutine sent into an empty copy ends
-- with exactly the keys of the last good snapshot, each at the version that this snapshot has for
-- it, whatever snapshots, failed polls and end of the context the goroutine met.
pub stream_view :
    (k : Bytes) (snapshot : List SecretMeta) (waits : List Wait) (room : ℕ)
    → length (stream_events snapshot waits) ≤ room
    → version_at k
        (replay (sent_of (goroutine snapshot waits (record { sent = []; room = room }))) [])
      ≡ latest k (last_good snapshot waits)
stream_view k snapshot waits room enough =
    ap (λ sent. version_at k (replay sent []))
      (goroutine_sent snapshot waits room ∙ take-all room (stream_events snapshot waits) enough)
    ∙ stream_events_view k snapshot waits
