-- ===== src/Adapters/Poll/Replay.antt =====
-- A subscriber's copy of the backend, made from the events, and that the parts of a round keep it
-- equal to the poller's map.
use vaultlet.Prelude.{
  true, Option, none, some, List, [], ◌∷◌, ◌++◌, Bytes, ◌≡◌, refl, ap, ◌∙◌, arith, Bool-cases, inl,
  inr, bytes_eq_iff,
}
use vaultlet.Domain.Key.{key_string}
use vaultlet.Domain.Secret.{SecretMeta}
use vaultlet.Domain.Event.{SecretEvent, EventType, added, updated, deleted, in_sync, other}
use vaultlet.Adapters.Poll.Table.{Seen, find, insert, remove, keys, member}
use vaultlet.Adapters.Poll.Table.Keys.{
  IsTable, IsKeyed, Distinct, remove-IsTable, member-keys-remove, find_of_member,
}
use vaultlet.Adapters.Poll.{unchanged, change_type, meta_at}
use vaultlet.Adapters.Poll.Diff.{
  snapshot_events, insert_all, change_events, changed, gone_events, remove_all,
}

abbrev pub apply_type : EventType → SecretMeta → Seen → Seen
apply_type added m view = insert (key_string m.key) m view
apply_type updated m view = insert (key_string m.key) m view
apply_type deleted m view = remove (key_string m.key) view
apply_type in_sync m view = view
apply_type (other t) m view = view

-- A subscriber's copy: Added and Updated store the metadata, Deleted drops the key.
unfoldable pub replay : List SecretEvent → Seen → Seen
replay [] view = view
replay (ev ∷ evs) view = replay evs (apply_type ev.type ev.meta view)

pub replay-append :
    (es fs : List SecretEvent) (view : Seen) → replay (es ++ fs) view ≡ replay fs (replay es view)
unfolding replay
replay-append [] fs view = refl
replay-append (e ∷ es) fs view = replay-append es fs (apply_type e.type e.meta view)

pub replay-snapshot :
    (metas : List SecretMeta) (view : Seen)
    → replay (snapshot_events metas) view ≡ insert_all metas view
unfolding replay snapshot_events insert_all
replay-snapshot [] view = refl
replay-snapshot (m ∷ metas) view = replay-snapshot metas (insert (key_string m.key) m view)

apply-change_type :
    (o : Option SecretMeta) (m : SecretMeta) (view : Seen)
    → apply_type (change_type o) m view ≡ insert (key_string m.key) m view
unfolding change_type
apply-change_type none m view = refl
apply-change_type (some p) m view = refl

pub replay-change :
    (metas : List SecretMeta) (seen : Seen)
    → replay (change_events metas seen) seen ≡ changed metas seen
unfolding replay change_events changed
replay-change [] seen = refl
replay-change (m ∷ metas) seen = elim (Bool-cases (unchanged (find (key_string m.key) seen) m)) [
  | inl e ↦ rw e (replay-change metas seen)
  | inr e ↦ rw e (
      ap (replay (change_events metas (insert (key_string m.key) m seen)))
        (apply-change_type (find (key_string m.key) seen) m seen)
      ∙ replay-change metas (insert (key_string m.key) m seen))
]

found-keyed :
    (k : Bytes) (seen : Seen) (m : SecretMeta)
    → IsKeyed seen
    → find k seen ≡ some m
    → key_string m.key ≡ k
unfolding find
found-keyed k [] m h f = cc
found-keyed k ((j, n) ∷ seen) m (e, h) f = ground (arith, bytes_eq_iff j k, found-keyed k seen m h)

-- Every key of the first list is a key of the table.
abbrev pub Within : List Bytes → Seen → Type 0
Within ks seen = (j : Bytes) → member j ks ≡ true → member j (keys seen) ≡ true

deletion_key :
    (k : Bytes) (seen : Seen)
    → IsTable seen
    → member k (keys seen) ≡ true
    → key_string (meta_at (find k seen)).key ≡ k
unfolding meta_at
deletion_key k seen t h =
    let (m, f) = find_of_member k seen h in rw f (found-keyed k seen m t.keyed f)

pub replay-gone :
    (ks : List Bytes) (seen : Seen)
    → IsTable seen
    → Distinct ks
    → Within ks seen
    → replay (gone_events ks seen) seen ≡ remove_all ks seen
unfolding replay gone_events remove_all
replay-gone [] seen t d w = refl
replay-gone (k ∷ ks) seen t (a, d) w =
    ap (λ x. replay (gone_events ks (remove k seen)) (remove x seen))
      (deletion_key k seen t (w k (unfold member in ground (arith, bytes_eq_iff k k))))
    ∙ replay-gone ks (remove k seen) (remove-IsTable k seen t) d later
  where
    later : Within ks (remove k seen)
    later j h =
        ground (
          arith,
          member-keys-remove j k seen,
          bytes_eq_iff k j,
          w j (unfold member in ground arith),
        )
