-- ===== src/Adapters/Backend/Order.antt =====
-- The listing's sort: ascending, with the same metadata.
use vaultlet.Prelude.{false, List, [], ◌∷◌, Bytes, All, ◌≡◌, arith, Bool-cases, inl, inr}
use vaultlet.Strings.{before}
use vaultlet.Strings.Order.{before_trans, before-total, before_irrefl}
use vaultlet.Domain.Key.{key_string}
use vaultlet.Domain.Secret.{SecretMeta}
use vaultlet.Adapters.Backend.{insert_meta, sort_by_key}

-- No element stands behind one with a greater key.
abbrev pub IsAscending : List SecretMeta → Type 0
IsAscending [] = Unit
IsAscending (m ∷ ms) =
    All (λ n. before (key_string n.key) (key_string m.key) ≡ false) ms × IsAscending ms

insert_meta-All :
    (P : SecretMeta → Type 0) (m : SecretMeta) (ms : List SecretMeta)
    → P m
    → All P ms
    → All P (insert_meta m ms)
unfolding insert_meta
insert_meta-All P m [] p h = (p, tt)
insert_meta-All P m (n ∷ ns) p (q, h) =
    elim (Bool-cases (before (key_string n.key) (key_string m.key))) [
      | inl e ↦ rw (e, insert_meta) (q, insert_meta-All P m ns p h)
      | inr e ↦ rw (e, insert_meta) (p, (q, h))
    ]

pub sort_by_key-All :
    (P : SecretMeta → Type 0) (ms : List SecretMeta) → All P ms → All P (sort_by_key ms)
unfolding sort_by_key
sort_by_key-All P [] h = tt
sort_by_key-All P (m ∷ ms) (p, h) = insert_meta-All P m (sort_by_key ms) p (sort_by_key-All P ms h)

-- What is not smaller than `n` is not smaller than a smaller `m`.
All-before :
    (a b : Bytes) (ms : List SecretMeta)
    → before b a ≡ false
    → All (λ n. before (key_string n.key) b ≡ false) ms
    → All (λ n. before (key_string n.key) a ≡ false) ms
All-before a b [] e h = tt
All-before a b (n ∷ ns) e (q, h) = (
  elim (Bool-cases (before (key_string n.key) a)) [
    | inl x ↦ elim (Bool-cases (before a b)) [
      | inl y ↦ ground (arith, before_trans (key_string n.key) a b x y)
      | inr y ↦ let same = before-total a b y e in ground (arith, same)
    ]
    | inr x ↦ x
  ],
  All-before a b ns e h,
)

insert_meta-IsAscending :
    (m : SecretMeta) (ms : List SecretMeta) → IsAscending ms → IsAscending (insert_meta m ms)
unfolding insert_meta
insert_meta-IsAscending m [] h = (tt, tt)
insert_meta-IsAscending m (n ∷ ns) (q, h) =
    elim (Bool-cases (before (key_string n.key) (key_string m.key))) [
      | inl e ↦
          rw (e, insert_meta)
            (
              insert_meta-All _ m ns
                  (elim (Bool-cases (before (key_string m.key) (key_string n.key))) [
                    | inl f ↦ ground (
                      arith,
                      before_irrefl (key_string n.key),
                      before_trans (key_string n.key) (key_string m.key) (key_string n.key) e f,
                    )
                    | inr f ↦ f
                  ])
                  q,
              insert_meta-IsAscending m ns h,
            )
      | inr e ↦ rw (e, insert_meta) ((e, All-before _ _ ns e q), (q, h))
    ]

-- The sort puts the keys in ascending order.
pub sort_by_key-IsAscending : (ms : List SecretMeta) → IsAscending (sort_by_key ms)
unfolding sort_by_key
sort_by_key-IsAscending [] = tt
sort_by_key-IsAscending (m ∷ ms) =
    insert_meta-IsAscending m (sort_by_key ms) (sort_by_key-IsAscending ms)
