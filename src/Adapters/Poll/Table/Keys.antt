-- ===== src/Adapters/Poll/Table/Keys.antt =====
-- The poller's map has one entry for each key, which stands at its own printed form, and the sorted
-- keys to delete are distinct.
use vaultlet.Prelude.{
  Bool, true, false, ◌||◌, some, List, [], ◌∷◌, Bytes, bytes_eq, ◌≡◌, refl, arith, bytes_eq_iff,
  not, ◌&&◌, filter, All, Bool-cases, inl, inr, ◌∙◌,
}
use vaultlet.Strings.{before}
use vaultlet.Domain.Key.{key_string}
use vaultlet.Domain.Secret.{SecretMeta}
use vaultlet.Adapters.Poll.Table.{
  Seen, find, insert, remove, keys, member, insert_sorted, sort, member-insert_sorted, member-sort,
}

pub member-keys-insert :
    (j k : Bytes) (m : SecretMeta) (seen : Seen)
    → member j (keys (insert k m seen)) ≡ (bytes_eq k j || member j (keys seen))
unfolding keys insert member
member-keys-insert j k m [] = refl
member-keys-insert j k m ((i, n) ∷ seen) =
    ground (arith, member-keys-insert j k m seen, bytes_eq_iff i k)

pub member-keys-remove :
    (j k : Bytes) (seen : Seen)
    → member j (keys (remove k seen)) ≡ (not (bytes_eq k j) && member j (keys seen))
unfolding keys remove member
member-keys-remove j k [] = ground arith
member-keys-remove j k ((i, n) ∷ seen) =
    ground
      (arith, member-keys-remove j k seen, bytes_eq_iff i k, bytes_eq_iff i j, bytes_eq_iff k j)

pub member-filter :
    (p : Bytes → Bool) (k : Bytes) (ks : List Bytes) → member k (filter p ks) ≡ (p k && member k ks)
unfolding member filter
member-filter p k [] = ground arith
member-filter p k (j ∷ ks) = ground (arith, member-filter p k ks, bytes_eq_iff j k)

pub find_of_member :
    (k : Bytes) (seen : Seen)
    → member k (keys seen) ≡ true
    → (m : SecretMeta) × (find k seen ≡ some m)
unfolding find keys member
find_of_member k [] h = cc
find_of_member k ((j, m) ∷ seen) h = elim (Bool-cases (bytes_eq j k)) [
  | inl e ↦ (m, rw e)
  | inr e ↦ let (n, f) = find_of_member k seen (ground arith) in (n, rw e f)
]

-- No key stands twice.
abbrev pub Distinct : List Bytes → Type 0
Distinct [] = Unit
Distinct (k ∷ ks) = (member k ks ≡ false) × Distinct ks

-- Every entry stands at the printed form of its own key.
abbrev pub IsKeyed : Seen → Type 0
IsKeyed = All (λ (e : Bytes × SecretMeta). key_string e.1.key ≡ e.0)

-- The poller's map is a map.
pub record IsTable (seen : Seen) : Type 0 where
  pub keyed : IsKeyed seen
  pub distinct : Distinct (keys seen)

insert-IsKeyed :
    (m : SecretMeta) (seen : Seen) → IsKeyed seen → IsKeyed (insert (key_string m.key) m seen)
unfolding insert
insert-IsKeyed m [] h = (refl, tt)
insert-IsKeyed m ((j, n) ∷ seen) (e, h) = elim (Bool-cases (bytes_eq j (key_string m.key))) [
  | inl same ↦ rw same (refl, h)
  | inr other ↦ rw other (e, insert-IsKeyed m seen h)
]

insert-Distinct :
    (k : Bytes) (m : SecretMeta) (seen : Seen)
    → Distinct (keys seen)
    → Distinct (keys (insert k m seen))
unfolding insert keys
insert-Distinct k m [] h = unfold member in (refl, tt)
insert-Distinct k m ((j, n) ∷ seen) (a, h) = elim (Bool-cases (bytes_eq j k)) [
  | inl same ↦ rw same (rw ((bytes_eq_iff j k).0 same) at a, h)
  | inr other ↦ rw other (
    ground (arith, member-keys-insert j k m seen, bytes_eq_iff k j, bytes_eq_iff j k),
    insert-Distinct k m seen h,
  )
]

pub insert-IsTable :
    (m : SecretMeta) (seen : Seen) → IsTable seen → IsTable (insert (key_string m.key) m seen)
insert-IsTable m seen t = record {
  keyed = insert-IsKeyed m seen t.keyed;
  distinct = insert-Distinct (key_string m.key) m seen t.distinct;
}

remove-IsKeyed : (k : Bytes) (seen : Seen) → IsKeyed seen → IsKeyed (remove k seen)
unfolding remove
remove-IsKeyed k [] h = tt
remove-IsKeyed k ((j, n) ∷ seen) (e, h) = elim (Bool-cases (bytes_eq j k)) [
  | inl same ↦ rw same (remove-IsKeyed k seen h)
  | inr other ↦ rw other (e, remove-IsKeyed k seen h)
]

remove-Distinct : (k : Bytes) (seen : Seen) → Distinct (keys seen) → Distinct (keys (remove k seen))
unfolding remove keys
remove-Distinct k [] h = tt
remove-Distinct k ((j, n) ∷ seen) (a, h) = elim (Bool-cases (bytes_eq j k)) [
  | inl same ↦ rw same (remove-Distinct k seen h)
  | inr other ↦ rw other (ground (arith, member-keys-remove j k seen), remove-Distinct k seen h)
]

pub remove-IsTable : (k : Bytes) (seen : Seen) → IsTable seen → IsTable (remove k seen)
remove-IsTable k seen t = record {
  keyed = remove-IsKeyed k seen t.keyed;
  distinct = remove-Distinct k seen t.distinct;
}

filter-Distinct : (p : Bytes → Bool) (ks : List Bytes) → Distinct ks → Distinct (filter p ks)
unfolding filter
filter-Distinct p [] h = tt
filter-Distinct p (k ∷ ks) (a, h) = elim (Bool-cases (p k)) [
  | inl e ↦ rw e (ground (arith, member-filter p k ks), filter-Distinct p ks h)
  | inr e ↦ rw e (filter-Distinct p ks h)
]

member-cons :
    (k j : Bytes) (ks : List Bytes)
    → member k (j ∷ ks) ≡ false
    → (bytes_eq j k ≡ false) × (member k ks ≡ false)
unfolding member
member-cons k j ks h = (ground arith, ground arith)

insert_sorted-Distinct :
    (k : Bytes) (ks : List Bytes)
    → member k ks ≡ false
    → Distinct ks
    → Distinct (insert_sorted k ks)
unfolding insert_sorted
insert_sorted-Distinct k [] a h = (a, tt)
insert_sorted-Distinct k (j ∷ ks) a (b, h) = elim (Bool-cases (before j k)) [
  | inl e ↦ rw e (
    ground (
      arith,
      member-insert_sorted j k ks,
      bytes_eq_iff k j,
      bytes_eq_iff j k,
      member-cons k j ks a,
    ),
    insert_sorted-Distinct k ks ((member-cons k j ks a).1) h,
  )
  | inr e ↦ rw e (a, (b, h))
]

sort-Distinct : (ks : List Bytes) → Distinct ks → Distinct (sort ks)
unfolding sort
sort-Distinct [] h = tt
sort-Distinct (k ∷ ks) (a, h) =
    insert_sorted-Distinct k (sort ks) (member-sort k ks ∙ a) (sort-Distinct ks h)

pub sort-filter-Distinct :
    (p : Bytes → Bool) (ks : List Bytes) → Distinct ks → Distinct (sort (filter p ks))
sort-filter-Distinct p ks h = sort-Distinct (filter p ks) (filter-Distinct p ks h)
