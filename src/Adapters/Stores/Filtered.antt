-- ===== src/Adapters/Stores/Filtered.antt =====
-- What the filter of a watch leaves of a copy that is made from the poller's events, at a key.
use vaultlet.Prelude.{
  ℕ, ◌≤◌, Bool, true, false, ◌&&◌, none, List, [], ◌∷◌, Bytes, bytes_eq, bytes_eq_iff, length,
  filter, All, if◌then◌else◌, ◌≡◌, ◌≢◌, ◌⊎◌, refl, sym, ap, ◌∙◌, arith, Bool-cases, inl, inr,
}
use vaultlet.Domain.Key.{Key, Namespace, key_string, key_is_zero, contains}
use vaultlet.Domain.Key.Valid.{IsValidKey}
use vaultlet.Domain.Key.Accepts.{key_string-injective}
use vaultlet.Domain.Secret.{SecretMeta}
use vaultlet.Domain.Event.{
  SecretEvent, EventType, added, updated, deleted, in_sync, other, is_in_sync,
}
use vaultlet.App.Policy.{list, watch, allows}
use mathlib.Core.Option
use vaultlet.App.Service.{Service, visible, filter_events}
use vaultlet.App.Service.Watching.{passes, filter_events-take}
use vaultlet.Domain.Key.RoundTrip.{key_string-HasEnds, HasEnds-ne-nil}
use vaultlet.Adapters.Stores.Keyed.{IsKeyed, HasValidKeys, BringValidKeys, stream_events-IsKeyed}
use vaultlet.Adapters.Poll.Versions.{version_at}
use vaultlet.Prelude.{length-filter, take-all}
use vaultlet.Adapters.Poll.{Wait}
use vaultlet.Adapters.Poll.Table.{Seen, find, find-insert, find-remove}
use vaultlet.Adapters.Poll.Diff.{stream_events}
use vaultlet.Adapters.Poll.Replay.{apply_type, replay}

-- What an event of another key does to a copy is not seen at `k`.
find-apply_other :
    (k : Bytes) (t : EventType) (m : SecretMeta) (view : Seen)
    → key_string m.key ≢ k
    → find k (apply_type t m view) ≡ find k view
find-apply_other k added m view h =
    ground (arith, find-insert (key_string m.key) k m view, bytes_eq_iff (key_string m.key) k)
find-apply_other k updated m view h =
    ground (arith, find-insert (key_string m.key) k m view, bytes_eq_iff (key_string m.key) k)
find-apply_other k deleted m view h =
    ground (arith, find-remove (key_string m.key) k view, bytes_eq_iff (key_string m.key) k)
find-apply_other k in_sync m view h = refl
find-apply_other k (other t) m view h = refl

-- An event keeps two copies alike at `k`.
find-apply_same :
    (k : Bytes) (t : EventType) (m : SecretMeta) (view seen : Seen)
    → find k view ≡ find k seen
    → find k (apply_type t m view) ≡ find k (apply_type t m seen)
find-apply_same k added m view seen h =
    ground (arith, find-insert (key_string m.key) k m view, find-insert (key_string m.key) k m seen)
find-apply_same k updated m view seen h =
    ground (arith, find-insert (key_string m.key) k m view, find-insert (key_string m.key) k m seen)
find-apply_same k deleted m view seen h =
    ground (arith, find-remove (key_string m.key) k view, find-remove (key_string m.key) k seen)
find-apply_same k in_sync m view seen h = h
find-apply_same k (other t) m view seen h = h

module _ {W : Type 0} (s : Service W) (who : Bytes) (ns : Namespace) (k : Key) where
  -- The principal may see the secrets of the key's namespace in the watch.
  abbrev pub may_watch : Bool
  may_watch = contains ns k.ns && allows s.policy who list k.ns && allows s.policy who watch k.ns

  -- An event that says nothing of the key, or that passes exactly if the key may be watched.
  pub Decided : SecretEvent → Type 0
  Decided ev =
      (ev.type ≡ in_sync)
      ⊎ (key_string ev.meta.key ≢ key_string k)
      ⊎ (passes s who ns ev ≡ may_watch)

  passes_at :
      (ev : SecretEvent) → ev.meta.key ≡ k → (ev.type ≡ in_sync) ⊎ (passes s who ns ev ≡ may_watch)
  unfolding visible
  passes_at ev e = elim (in_sync-cases ev.type) [ inl h ↦ inl h | inr h ↦ inr (rw (h, e) refl) ]
    where
      in_sync-cases : (t : EventType) → (t ≡ in_sync) ⊎ (is_in_sync t ≡ false)
      in_sync-cases in_sync = inl refl
      in_sync-cases added = inr (unfold is_in_sync in refl)
      in_sync-cases updated = inr (unfold is_in_sync in refl)
      in_sync-cases deleted = inr (unfold is_in_sync in refl)
      in_sync-cases (other t) = inr (unfold is_in_sync in refl)

  IsKeyed-Decided : (ev : SecretEvent) → IsValidKey k → IsKeyed ev → Decided ev
  unfolding Decided key_string key_is_zero bytes_eq
  IsKeyed-Decided ev v (inr e) = inr (inl (λ h. HasEnds-ne-nil (key_string-HasEnds k v) (cc)))
  IsKeyed-Decided ev v (inl u) =
      elim (Bool-cases (bytes_eq (key_string ev.meta.key) (key_string k))) [
        | inr e ↦
            inr (inl (λ h. ground (arith, bytes_eq_iff (key_string ev.meta.key) (key_string k))))
        | inl e ↦
            elim (passes_at ev (
              key_string-injective ev.meta.key k u v
                ((bytes_eq_iff (key_string ev.meta.key) (key_string k)).0 e))) [
                  | inl h ↦ inl h
                  | inr h ↦ inr (inr h)
                ]
      ]

  -- A decided event whose verdict is not the key's says nothing of the key.
  find-apply_Decided :
      (ev : SecretEvent) (view : Seen)
      → Decided ev
      → passes s who ns ev ≢ may_watch
      → find (key_string k) (apply_type ev.type ev.meta view) ≡ find (key_string k) view
  unfolding Decided
  find-apply_Decided ev view (inl t) h = rw t refl
  find-apply_Decided ev view (inr (inl o)) h =
      find-apply_other (key_string k) ev.type ev.meta view o
  find-apply_Decided ev view (inr (inr q)) h = absurd (h q)

  -- Behind the filter a copy has of the key what it would have without it, if the key may be
  -- watched, and what it had before, if not.
  find-filter :
      (evs : List SecretEvent) (view all_view : Seen)
      → All Decided evs
      → may_watch ≡ true
      → find (key_string k) view ≡ find (key_string k) all_view
      → find (key_string k) (replay (filter (passes s who ns) evs) view)
        ≡ find (key_string k) (replay evs all_view)
  unfolding replay filter Decided
  find-filter [] view all_view d m h = h
  find-filter (ev ∷ evs) view all_view (c, d) m h =
      let kept =
        find-filter evs (apply_type ev.type ev.meta view) (apply_type ev.type ev.meta all_view) d m
          (find-apply_same (key_string k) ev.type ev.meta view all_view h) in
      elim (Bool-cases (passes s who ns ev)) [
        | inl e ↦ rw e kept
        | inr e ↦ rw e (
            find-filter evs view (apply_type ev.type ev.meta all_view) d m
              (h ∙ sym (find-apply_Decided ev all_view c (λ q. cc))))
      ]

  find-hidden :
      (evs : List SecretEvent) (view : Seen)
      → All Decided evs
      → may_watch ≡ false
      → find (key_string k) (replay (filter (passes s who ns) evs) view) ≡ find (key_string k) view
  unfolding replay filter Decided
  find-hidden [] view d m = refl
  find-hidden (ev ∷ evs) view (c, d) m = elim (Bool-cases (passes s who ns ev)) [
    | inr e ↦ rw e (find-hidden evs view d m)
    | inl e ↦ rw e (
        find-hidden evs (apply_type ev.type ev.meta view) d m
        ∙ find-apply_Decided ev view c (λ q. cc))
  ]

  -- What a subscriber that takes every event of a list has of the key.
  pub filtered_view :
      (room : ℕ) (evs : List SecretEvent)
      → All Decided evs
      → length evs ≤ room
      → version_at (key_string k) (replay (filter_events s room who ns evs) [])
        ≡ (if may_watch then version_at (key_string k) (replay evs []) else none)
  unfolding version_at
  filtered_view room evs d enough =
      let short : length (filter (passes s who ns) evs) ≤ room =
        omega (arith, length-filter (passes s who ns) evs) in
      let whole =
        filter_events-take s who ns room evs ∙ take-all room (filter (passes s who ns) evs) short in
      rw whole (elim (Bool-cases may_watch) [
        | inl m ↦ rw m (ap (Option.map (λ x. x.version)) (find-filter evs [] [] d m refl))
        | inr m ↦
            rw m (ap (Option.map (λ x. x.version)) (find-hidden evs [] d m) ∙ (unfold find in refl))
      ])

  pub stream-Decided :
      (snapshot : List SecretMeta) (waits : List Wait)
      → IsValidKey k
      → HasValidKeys snapshot
      → BringValidKeys waits
      → All Decided (stream_events snapshot waits)
  stream-Decided snapshot waits v h hw =
      All-map (stream_events snapshot waits) (stream_events-IsKeyed snapshot waits h hw)
    where
      All-map : (evs : List SecretEvent) → All IsKeyed evs → All Decided evs
      All-map [] t = tt
      All-map (ev ∷ evs) (c, t) = (IsKeyed-Decided ev v c, All-map evs t)
