-- ===== src/Adapters/Poll.antt =====
-- internal/adapters/driven/watch/poll.go: a backend's List turned into a stream of events.
pub mod Table
pub mod Channel
pub mod Delivery
pub mod Diff
pub mod Replay
pub mod Versions
pub mod View
use vaultlet.Prelude.{
  ℕ, Bool, true, false, not, Option, none, some, List, [], ◌∷◌, Bytes, bytes_eq, if◌then◌else◌,
  filter,
}
use vaultlet.Errors.{Error, Result, ok, err}
use vaultlet.Domain.Key.{Namespace, key_string}
use vaultlet.Domain.Secret.{SecretMeta, Version}
use vaultlet.Domain.Event.{
  SecretEvent, EventType, added, updated, deleted, in_sync_event, zero_meta,
}
use vaultlet.Ports.{Context}
use vaultlet.Adapters.Poll.Table.{Seen, find, insert, remove, keys, member, sort}
use vaultlet.Adapters.Poll.Channel.{
  M, Flow, running, closed, Stream, pure, emit, close, ◌>>=◌, ◌>>◌,
}

-- The snapshot is recorded and replayed.
unfoldable pub snapshot_loop : List SecretMeta → Seen → M Seen
snapshot_loop [] seen = pure seen
snapshot_loop (meta ∷ metas) seen = do
  emit (record { type = added; meta = meta })
  snapshot_loop metas (insert (key_string meta.key) meta seen)

-- exists && prev.Version == meta.Version
unfoldable pub unchanged : Option SecretMeta → SecretMeta → Bool
unchanged none meta = false
unchanged (some prev) meta = bytes_eq prev.version.id meta.version.id

unfoldable pub change_type : Option SecretMeta → EventType
change_type none = added
change_type (some prev) = updated

-- The loop over a later snapshot: what is present so far, and the map.
unfoldable pub metas_loop : List SecretMeta → List Bytes → Seen → M (List Bytes × Seen)
metas_loop [] present seen = pure (present, seen)
metas_loop (meta ∷ metas) present seen =
    let k = key_string meta.key in
    let skip = metas_loop metas (k ∷ present) seen in
    let send =
      (emit (record { type = change_type (find k seen); meta = meta })
        >> metas_loop metas (k ∷ present) (insert k meta seen)) in
    if unchanged (find k seen) meta then skip else send

-- The keys of the map that the snapshot lacks.
unfoldable pub gone : List Bytes → Seen → List Bytes
gone present seen = filter (λ k. not (member k present)) (keys seen)

-- seen[k], the zero metadata for a missing key.
unfoldable pub meta_at : Option SecretMeta → SecretMeta
meta_at none = zero_meta
meta_at (some meta) = meta

-- The loop over the deletions.
unfoldable pub gone_loop : List Bytes → Seen → M Seen
gone_loop [] seen = pure seen
gone_loop (k ∷ ks) seen = do
  emit (record { type = deleted; meta = meta_at (find k seen) })
  gone_loop ks (remove k seen)

-- What one good snapshot does.
unfoldable pub round : List SecretMeta → Seen → M Seen
round metas seen = do
  (present, seen') ← metas_loop metas [] seen
  gone_loop (sort (gone present seen')) seen'

-- What the goroutine meets when it waits: the end of the context, or a tick, with the answer of the
-- backend's List and what ctx.Err() returns then.
pub data Wait : Type 0 where
  ctx_done : Wait
  tick : Result (List SecretMeta) → Option Error → Wait

-- The endless loop, over what it meets; where that ends the goroutine waits.
unfoldable pub poll_loop : List Wait → Seen → M Seen
poll_loop [] seen = pure seen
poll_loop (ctx_done ∷ waits) seen = close
poll_loop (tick (ok metas) e ∷ waits) seen = do seen' ← round metas seen; poll_loop waits seen'
poll_loop (tick (err failure) none ∷ waits) seen = poll_loop waits seen
poll_loop (tick (err failure) (some e) ∷ waits) seen = close

-- The goroutine.
unfoldable pub goroutine : List SecretMeta → List Wait → M Seen
goroutine snapshot waits = do
  seen ← snapshot_loop snapshot []
  emit in_sync_event
  poll_loop waits seen

abbrev pub start : List Wait → ℕ → Result (List SecretMeta) → Result (Flow Seen)
start waits room (ok snapshot) = ok (goroutine snapshot waits (record { sent = []; room = room }))
start waits room (err e) = err e

-- Poll: the error of the context or of the first List, or the channel's goroutine. `waits` and
-- `room` are the environment's part.
unfoldable pub poll :
    {W : Type 0}
    → Context
    → Namespace
    → (Context → Namespace → W → Result (List SecretMeta) × W)
    → List Wait
    → ℕ
    → W
    → Result (Flow Seen) × W
poll ctx ns list waits room w = elim ctx.done [
  | some e ↦ (err e, w)
  | none ↦ let (first, w') = list ctx ns w in (start waits room first, w')
]
