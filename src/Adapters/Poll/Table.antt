-- ===== src/Adapters/Poll/Table.antt =====
-- The map from printed keys to metadata that the poller keeps, and the sorting of keys. Go's map
-- has no order of its own; the program sorts the keys that it ranges over.
pub mod Keys
use vaultlet.Prelude.{
  ℕ, Bool, true, false, ◌||◌, Option, none, some, List, [], ◌∷◌, ◌++◌, Bytes, bytes_eq,
  if◌then◌else◌, ◌≡◌, refl, arith, bytes_eq_iff, not, ◌&&◌, filter, All, Bool-cases, inl, inr, ◌∙◌,
}
use vaultlet.Strings.{before}
use vaultlet.Domain.Key.{key_string}
use vaultlet.Domain.Secret.{SecretMeta}

abbrev pub Seen : Type 0
Seen = List (Bytes × SecretMeta)

-- seen[k]
unfoldable pub find : Bytes → Seen → Option SecretMeta
find k [] = none
find k ((j, m) ∷ seen) = if bytes_eq j k then some m else find k seen

-- seen[k] = meta
unfoldable pub insert : Bytes → SecretMeta → Seen → Seen
insert k meta [] = (k, meta) ∷ []
insert k meta ((j, m) ∷ seen) =
    if bytes_eq j k then (k, meta) ∷ seen else (j, m) ∷ insert k meta seen

-- delete(seen, k)
unfoldable pub remove : Bytes → Seen → Seen
remove k [] = []
remove k ((j, m) ∷ seen) = let rest = remove k seen in if bytes_eq j k then rest else (j, m) ∷ rest

unfoldable pub keys : Seen → List Bytes
keys [] = []
keys ((j, m) ∷ seen) = j ∷ keys seen

unfoldable pub member : Bytes → List Bytes → Bool
member k [] = false
member k (j ∷ ks) = bytes_eq j k || member k ks

unfoldable pub insert_sorted : Bytes → List Bytes → List Bytes
insert_sorted k [] = k ∷ []
insert_sorted k (j ∷ ks) = if before j k then j ∷ insert_sorted k ks else k ∷ j ∷ ks

-- slices.SortFunc(gone, strings.Compare)
unfoldable pub sort : List Bytes → List Bytes
unfolding insert_sorted
sort [] = []
sort (k ∷ ks) = insert_sorted k (sort ks)

pub find-insert :
    (k j : Bytes) (m : SecretMeta) (seen : Seen)
    → find j (insert k m seen) ≡ (if bytes_eq k j then some m else find j seen)
unfolding find insert
find-insert k j m [] = refl
find-insert k j m ((i, n) ∷ seen) =
    ground (arith, find-insert k j m seen, bytes_eq_iff i k, bytes_eq_iff i j, bytes_eq_iff k j)

pub find-remove :
    (k j : Bytes) (seen : Seen)
    → find j (remove k seen) ≡ (if bytes_eq k j then none else find j seen)
unfolding find remove
find-remove k j [] = ground arith
find-remove k j ((i, n) ∷ seen) =
    ground (arith, find-remove k j seen, bytes_eq_iff i k, bytes_eq_iff i j, bytes_eq_iff k j)

pub find-keys : (k : Bytes) (seen : Seen) → member k (keys seen) ≡ false → find k seen ≡ none
unfolding find keys member
find-keys k [] h = refl
find-keys k ((j, m) ∷ seen) h = ground (arith, find-keys k seen)

pub member-insert_sorted :
    (k j : Bytes) (ks : List Bytes) → member k (insert_sorted j ks) ≡ (bytes_eq j k || member k ks)
unfolding member insert_sorted
member-insert_sorted k j [] = refl
member-insert_sorted k j (i ∷ ks) = ground (arith, member-insert_sorted k j ks)

pub member-sort : (k : Bytes) (ks : List Bytes) → member k (sort ks) ≡ member k ks
unfolding member sort
member-sort k [] = refl
member-sort k (j ∷ ks) = ground (arith, member-insert_sorted k j (sort ks), member-sort k ks)
