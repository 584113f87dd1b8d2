-- ===== src/Adapters/Poll/Versions.antt =====
-- Which version the poller's map has for each key, after each part of a round.
use vaultlet.Prelude.{
  Bool, true, false, not, ◌&&◌, ◌||◌, Option, none, some, List, [], ◌∷◌, Bytes, bytes_eq,
  if◌then◌else◌, ◌≡◌, refl, ap, ◌∙◌, arith, Bool-cases, inl, inr, bytes_eq_iff,
}
use mathlib.Core.Option
use vaultlet.Domain.Key.{key_string}
use vaultlet.Domain.Secret.{SecretMeta, Version}
use vaultlet.Adapters.Poll.Table.{
  Seen, find, insert, remove, keys, member, find-insert, find-remove, find-keys, member-sort,
}
use vaultlet.Adapters.Poll.Table.Keys.{member-filter}
use vaultlet.Adapters.Poll.{unchanged, gone}
use vaultlet.Adapters.Poll.Diff.{insert_all, changed, present_after, remove_all, lost, round_seen}

-- The latest version that a snapshot has for a key.
unfoldable pub latest : Bytes → List SecretMeta → Option Version
latest k [] = none
latest k (m ∷ metas) = elim (latest k metas) [
  | some v ↦ some v
  | none ↦ if bytes_eq (key_string m.key) k then some m.version else none
]

unfoldable pub version_at : Bytes → Seen → Option Version
version_at k seen = Option.map (λ m. m.version) (find k seen)

-- The same, with what was there before where the snapshot lacks the key.
abbrev pub or_before : Option Version → Option Version → Option Version
or_before (some v) before = some v
or_before none before = before

version-insert :
    (k j : Bytes) (m : SecretMeta) (seen : Seen)
    → version_at k (insert j m seen) ≡ (if bytes_eq j k then some m.version else version_at k seen)
unfolding version_at
version-insert k j m seen = ground (arith, find-insert j k m seen)

pub version-insert_all :
    (k : Bytes) (metas : List SecretMeta) (seen : Seen)
    → version_at k (insert_all metas seen) ≡ or_before (latest k metas) (version_at k seen)
unfolding insert_all latest
version-insert_all k [] seen = refl
version-insert_all k (m ∷ metas) seen = ground (
  arith,
  version-insert_all k metas (insert (key_string m.key) m seen),
  version-insert k (key_string m.key) m seen,
)

same_version :
    (o : Option SecretMeta) (m : SecretMeta)
    → unchanged o m ≡ true
    → Option.map (λ (x : SecretMeta). x.version) o ≡ some m.version
unfolding unchanged
same_version none m h = cc
same_version (some p) m h =
    ap some (λ i. record { id = (bytes_eq_iff p.version.id m.version.id).0 h i })

version_kept :
    (k : Bytes) (m : SecretMeta) (seen : Seen)
    → version_at k (
        if unchanged (find (key_string m.key) seen) m
        then seen
        else insert (key_string m.key) m seen)
      ≡ (if bytes_eq (key_string m.key) k then some m.version else version_at k seen)
version_kept k m seen = elim (Bool-cases (unchanged (find (key_string m.key) seen) m)) [
  | inr e ↦ rw e (version-insert k (key_string m.key) m seen)
  | inl e ↦ rw e (at_key (same_version (find (key_string m.key) seen) m e))
]
  where
    at_key :
        Option.map (λ (x : SecretMeta). x.version) (find (key_string m.key) seen) ≡ some m.version
        → version_at k seen
          ≡ (if bytes_eq (key_string m.key) k then some m.version else version_at k seen)
    at_key h = elim (Bool-cases (bytes_eq (key_string m.key) k)) [
      | inr e ↦ rw e
      | inl e ↦ rw e (unfold version_at in rw ((bytes_eq_iff (key_string m.key) k).0 e) at h)
    ]

pub version-changed :
    (k : Bytes) (metas : List SecretMeta) (seen : Seen)
    → version_at k (changed metas seen) ≡ or_before (latest k metas) (version_at k seen)
unfolding changed latest
version-changed k [] seen = refl
version-changed k (m ∷ metas) seen = ground (
  arith,
  version-changed k metas (
      if unchanged (find (key_string m.key) seen) m
      then seen
      else insert (key_string m.key) m seen),
  version_kept k m seen,
)

abbrev pub is_some : Option Version → Bool
is_some none = false
is_some (some v) = true

member-present :
    (k : Bytes) (metas : List SecretMeta) (present : List Bytes)
    → member k (present_after metas present) ≡ (is_some (latest k metas) || member k present)
unfolding present_after latest
member-present k [] present = refl
member-present k (m ∷ metas) present =
    ground (
      arith,
      member-present k metas (key_string m.key ∷ present),
      cons k (key_string m.key) present,
    )
  where
    cons : (a j : Bytes) (ks : List Bytes) → member a (j ∷ ks) ≡ (bytes_eq j a || member a ks)
    cons a j ks = unfold member in refl

find-remove_all :
    (k : Bytes) (ks : List Bytes) (seen : Seen)
    → find k (remove_all ks seen) ≡ (if member k ks then none else find k seen)
unfolding remove_all member
find-remove_all k [] seen = refl
find-remove_all k (j ∷ ks) seen =
    ground (arith, find-remove_all k ks (remove j seen), find-remove j k seen)

pub member-lost :
    (k : Bytes) (metas : List SecretMeta) (seen : Seen)
    → member k (lost metas seen)
      ≡ (not (is_some (latest k metas)) && member k (keys (changed metas seen)))
unfolding lost gone
member-lost k metas seen =
    member-sort k _
    ∙ (member-filter _ k (keys (changed metas seen))
        ∙ ground (arith, member-present k metas [], nothing k))
  where
    nothing : (j : Bytes) → member j [] ≡ false
    nothing j = unfold member in refl

-- After a good snapshot the map has exactly the snapshot's keys, each at the version that the
-- snapshot has for it.
pub version-round_seen :
    (k : Bytes) (metas : List SecretMeta) (seen : Seen)
    → version_at k (round_seen metas seen) ≡ latest k metas
unfolding round_seen version_at
version-round_seen k metas seen =
    let kept : Option.map (λ (m : SecretMeta). m.version) (find k (changed metas seen))
        ≡ or_before (latest k metas) (Option.map (λ (m : SecretMeta). m.version) (find k seen)) =
      unfold version_at in version-changed k metas seen in
    ground (
      arith,
      find-remove_all k (lost metas seen) (changed metas seen),
      member-lost k metas seen,
      kept,
      find-keys k (changed metas seen),
    )
