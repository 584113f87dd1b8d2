-- ===== src/Adapters/Stores/Keyed.antt =====
-- The keys of what the poller sends, where the backend lists valid keys only.
use vaultlet.Prelude.{
  none, some, List, [], ◌∷◌, Bytes, bytes_eq, All, All-append, ◌≡◌, ◌⊎◌, refl, Bool-cases, inl, inr,
}
use vaultlet.Errors.{ok, err}
use vaultlet.Domain.Key.{key_string}
use vaultlet.Domain.Key.Valid.{IsValidKey}
use vaultlet.Domain.Secret.{SecretMeta}
use vaultlet.Domain.Event.{SecretEvent, zero_meta, in_sync_event}
use vaultlet.Adapters.Poll.{unchanged, meta_at, Wait, ctx_done, tick}
use vaultlet.Adapters.Poll.Table.{Seen, find, insert, remove}
use vaultlet.Adapters.Poll.Diff.{
  snapshot_events, insert_all, change_events, changed, gone_events, remove_all, lost, round_events,
  round_seen, loop_events, stream_events,
}

-- The marker, or an event of a key that is valid, or of no key.
abbrev pub IsKeyed : SecretEvent → Type 0
IsKeyed ev = IsValidKey ev.meta.key ⊎ (ev.meta ≡ zero_meta)

-- A snapshot with valid keys, and so for all that the waits bring.
abbrev pub HasValidKeys : List SecretMeta → Type 0
HasValidKeys metas = All (λ m. IsValidKey m.key) metas

unfoldable pub BringValidKeys : List Wait → Type 0
BringValidKeys [] = Unit
BringValidKeys (ctx_done ∷ waits) = Unit
BringValidKeys (tick (ok metas) e ∷ waits) = HasValidKeys metas × BringValidKeys waits
BringValidKeys (tick (err failure) e ∷ waits) = BringValidKeys waits

abbrev HoldsValidKeys : Seen → Type 0
HoldsValidKeys seen = All (λ (e : Bytes × SecretMeta). IsValidKey e.1.key) seen

insert-HoldsValidKeys :
    (k : Bytes) (m : SecretMeta) (seen : Seen)
    → IsValidKey m.key
    → HoldsValidKeys seen
    → HoldsValidKeys (insert k m seen)
unfolding insert
insert-HoldsValidKeys k m [] v h = (v, tt)
insert-HoldsValidKeys k m ((j, n) ∷ seen) v (a, h) = elim (Bool-cases (bytes_eq j k)) [
  | inl e ↦ rw e (v, h)
  | inr e ↦ rw e (a, insert-HoldsValidKeys k m seen v h)
]

remove-HoldsValidKeys :
    (k : Bytes) (seen : Seen) → HoldsValidKeys seen → HoldsValidKeys (remove k seen)
unfolding remove
remove-HoldsValidKeys k [] h = tt
remove-HoldsValidKeys k ((j, n) ∷ seen) (a, h) = elim (Bool-cases (bytes_eq j k)) [
  | inl e ↦ rw e (remove-HoldsValidKeys k seen h)
  | inr e ↦ rw e (a, remove-HoldsValidKeys k seen h)
]

meta_at-IsKeyed :
    (k : Bytes) (seen : Seen)
    → HoldsValidKeys seen
    → IsValidKey (meta_at (find k seen)).key ⊎ (meta_at (find k seen) ≡ zero_meta)
unfolding find meta_at
meta_at-IsKeyed k [] h = inr refl
meta_at-IsKeyed k ((j, n) ∷ seen) (a, h) = elim (Bool-cases (bytes_eq j k)) [
  | inl e ↦ rw e (inl a)
  | inr e ↦ rw e (meta_at-IsKeyed k seen h)
]

snapshot_events-IsKeyed :
    (metas : List SecretMeta) → HasValidKeys metas → All IsKeyed (snapshot_events metas)
unfolding snapshot_events
snapshot_events-IsKeyed [] h = tt
snapshot_events-IsKeyed (m ∷ metas) (v, h) = (inl v, snapshot_events-IsKeyed metas h)

insert_all-HoldsValidKeys :
    (metas : List SecretMeta) (seen : Seen)
    → HasValidKeys metas
    → HoldsValidKeys seen
    → HoldsValidKeys (insert_all metas seen)
unfolding insert_all
insert_all-HoldsValidKeys [] seen h t = t
insert_all-HoldsValidKeys (m ∷ metas) seen (v, h) t =
    insert_all-HoldsValidKeys metas (insert (key_string m.key) m seen) h
      (insert-HoldsValidKeys (key_string m.key) m seen v t)

change_events-IsKeyed :
    (metas : List SecretMeta) (seen : Seen)
    → HasValidKeys metas
    → HoldsValidKeys seen
    → All IsKeyed (change_events metas seen) × HoldsValidKeys (changed metas seen)
unfolding change_events changed
change_events-IsKeyed [] seen h t = (tt, t)
change_events-IsKeyed (m ∷ metas) seen (v, h) t =
    elim (Bool-cases (unchanged (find (key_string m.key) seen) m)) [
      | inl e ↦ rw e (change_events-IsKeyed metas seen h t)
      | inr e ↦
          let (evs, t') =
            change_events-IsKeyed metas (insert (key_string m.key) m seen) h
              (insert-HoldsValidKeys (key_string m.key) m seen v t) in
          rw e ((inl v, evs), t')
    ]

gone_events-IsKeyed :
    (ks : List Bytes) (seen : Seen)
    → HoldsValidKeys seen
    → All IsKeyed (gone_events ks seen) × HoldsValidKeys (remove_all ks seen)
unfolding gone_events remove_all
gone_events-IsKeyed [] seen t = (tt, t)
gone_events-IsKeyed (k ∷ ks) seen t =
    let (evs, t') = gone_events-IsKeyed ks (remove k seen) (remove-HoldsValidKeys k seen t) in
    ((meta_at-IsKeyed k seen t, evs), t')

loop_events-IsKeyed :
    (waits : List Wait) (seen : Seen)
    → BringValidKeys waits
    → HoldsValidKeys seen
    → All IsKeyed (loop_events waits seen)
unfolding loop_events round_events round_seen BringValidKeys
loop_events-IsKeyed [] seen h t = tt
loop_events-IsKeyed (ctx_done ∷ waits) seen h t = tt
loop_events-IsKeyed (tick (ok metas) e ∷ waits) seen (v, h) t =
    let (changes, t') = change_events-IsKeyed metas seen v t in
    let (deletions, t'') = gone_events-IsKeyed (lost metas seen) (changed metas seen) t' in
    All-append IsKeyed (round_events metas seen) (loop_events waits (round_seen metas seen))
      (All-append IsKeyed (change_events metas seen)
        (gone_events (lost metas seen) (changed metas seen)) changes deletions)
      (loop_events-IsKeyed waits (round_seen metas seen) h t'')
loop_events-IsKeyed (tick (err failure) none ∷ waits) seen h t = loop_events-IsKeyed waits seen h t
loop_events-IsKeyed (tick (err failure) (some e) ∷ waits) seen h t = tt

-- Every event of the stream is keyed, where every snapshot has valid keys.
pub stream_events-IsKeyed :
    (snapshot : List SecretMeta) (waits : List Wait)
    → HasValidKeys snapshot
    → BringValidKeys waits
    → All IsKeyed (stream_events snapshot waits)
unfolding stream_events
stream_events-IsKeyed snapshot waits h hw =
    All-append IsKeyed (snapshot_events snapshot)
      (in_sync_event ∷ loop_events waits (insert_all snapshot []))
      (snapshot_events-IsKeyed snapshot h)
      (
        inr refl,
        loop_events-IsKeyed waits (insert_all snapshot []) hw
            (insert_all-HoldsValidKeys snapshot [] h tt),
      )
