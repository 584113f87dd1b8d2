-- ===== src/Domain/Key/Containment.antt =====
-- Namespace.Contains is the prefix order on segment lists.
use vaultlet.Prelude.{
  ℕ, suc, zero, ◌-◌, ◌≤◌, ◌≡◌, ◌≢◌, ◌↔◌, refl, sym, ◌∙◌, true, List, [], ◌∷◌, ◌++◌, Bytes, arith,
  ap, Bool-cases, inl, inr, length, append_assoc, take, leb, bytes_eq, bytes_eq_iff, bytes_eq_refl,
  length-append, append-nil,
}
use mathlib.Core.Path.{ap₂}
use vaultlet.Domain.Key.{Namespace, zero_namespace, same_segments, contains, parent, depth}

-- `other` is `n` or stands beneath it.
abbrev pub Beneath : Namespace → Namespace → Type 0
Beneath n other = (rest : List Bytes) × (other.segments ≡ n.segments ++ rest)

same_segments_sound :
    (a b : List Bytes) → same_segments a b ≡ true → (rest : List Bytes) × (b ≡ a ++ rest)
unfolding same_segments
same_segments_sound [] b h = (b, refl)
same_segments_sound (x ∷ a) [] h = cc
same_segments_sound (x ∷ a) (y ∷ b) h = elim (Bool-cases (bytes_eq y x)) [
  | inl e ↦
      let (rest, p) = same_segments_sound a b (ground arith) in
      (rest, ap₂ (λ (s : Bytes) (r : List Bytes). s ∷ r) ((bytes_eq_iff y x).0 e) p)
  | inr e ↦ ground arith
]

same_segments-append : (a rest : List Bytes) → same_segments a (a ++ rest) ≡ true
unfolding same_segments
same_segments-append [] rest = refl
same_segments-append (x ∷ a) rest = rw (bytes_eq_refl, same_segments-append a rest)

contains_sound : (n other : Namespace) → contains n other ≡ true → Beneath n other
unfolding contains
contains_sound n other h = same_segments_sound n.segments other.segments (ground arith)

contains_complete : (n other : Namespace) → Beneath n other → contains n other ≡ true
unfolding contains
contains_complete n other (rest, e) =
    rw e (ground (arith, length-append n.segments rest, same_segments-append n.segments rest))

-- Contains holds exactly if the segments of the first namespace are a prefix of the other's.
pub contains_iff : (n other : Namespace) → (contains n other ≡ true) ↔ Beneath n other
contains_iff n other = (contains_sound n other, contains_complete n other)

pub contains_refl : (n : Namespace) → contains n n ≡ true
contains_refl n = contains_complete n n ([], sym (append-nil n.segments))

pub contains-zero : (n : Namespace) → contains zero_namespace n ≡ true
contains-zero n = contains_complete zero_namespace n (n.segments, refl)

pub contains_trans :
    (a b c : Namespace) → contains a b ≡ true → contains b c ≡ true → contains a c ≡ true
contains_trans a b c h k =
    let (r, e) = contains_sound a b h in
    let (s, f) = contains_sound b c k in
    contains_complete a c (r ++ s, f ∙ (ap (λ x. x ++ s) e ∙ append_assoc a.segments r s))

append-same : (a r : List Bytes) → length (a ++ r) ≤ length a → r ≡ []
append-same a [] h = refl
append-same a (x ∷ r) h = absurd (omega (arith, length-append {0} a (x ∷ r)))

pub contains-antisym : (a b : Namespace) → contains a b ≡ true → contains b a ≡ true → a ≡ b
contains-antisym a b h k =
    let (r, e) = contains_sound a b h in
    let (s, f) = contains_sound b a k in
    let none_left : r ≡ [] = append-same a.segments r (
      omega (
        arith,
        ap length e,
        ap length f,
        length-append {0} a.segments r,
        length-append {0} b.segments s,
      )) in
    λ i. record {
      segments = (sym (e ∙ (ap (λ x. a.segments ++ x) none_left ∙ append-nil a.segments))) i;
    }

prefixes :
    (a b r s : List Bytes) → a ++ r ≡ b ++ s → length a ≤ length b → (t : List Bytes) × (b ≡ a ++ t)
prefixes [] b r s e h = (b, refl)
prefixes (x ∷ a) [] r s e h = elim h [ ]
prefixes (x ∷ a) (y ∷ b) r s e h =
    let (t, p) = prefixes a b r s (cc) (omega arith) in
    (t, ap₂ (λ (u : Bytes) (v : List Bytes). u ∷ v) (cc) p)

-- Of two namespaces that contain a third, the shorter contains the longer.
pub contains_chain :
    (a b c : Namespace)
    → contains a c ≡ true
    → contains b c ≡ true
    → depth a ≤ depth b
    → contains a b ≡ true
unfolding depth
contains_chain a b c h k le =
    let (r, e) = contains_sound a c h in
    let (s, f) = contains_sound b c k in
    contains_complete a b (prefixes a.segments b.segments r s (sym e ∙ f) le)

take-prefix : (n : ℕ) (xs : List Bytes) → (r : List Bytes) × (xs ≡ take n xs ++ r)
take-prefix zero xs = (xs, refl)
take-prefix (suc n) [] = ([], refl)
take-prefix (suc n) (x ∷ xs) = let (r, e) = take-prefix n xs in (r, ap (λ t. x ∷ t) e)

length-take_pred : (xs : List Bytes) → length (take (length xs - 1) xs) ≡ length xs - 1
length-take_pred xs = length-take_le (length xs - 1) xs (omega arith)
  where
    length-take_le : (n : ℕ) (ys : List Bytes) → n ≤ length ys → length (take n ys) ≡ n
    length-take_le zero ys h = refl
    length-take_le (suc n) [] h = elim h [ ]
    length-take_le (suc n) (y ∷ ys) h = ap suc (length-take_le n ys (omega arith))

parent-take :
    (n : Namespace) → parent n ≡ record { segments = take (length n.segments - 1) n.segments }
unfolding parent
parent-take n = elim (Bool-cases (leb (length n.segments) 1)) [
  | inl e ↦ let none_left : length n.segments - 1 ≡ 0 = ground arith in rw (e, none_left)
  | inr e ↦ rw e
]

contains-depth : (a b : Namespace) → contains a b ≡ true → depth a ≤ depth b
unfolding depth
contains-depth a b h =
    let (r, e) = contains_sound a b h in omega (arith, ap length e, length-append {0} a.segments r)

parent-depth : (n : Namespace) → depth (parent n) ≡ depth n - 1
unfolding depth
parent-depth n = rw parent-take (length-take_pred n.segments)

parent-contains : (n : Namespace) → contains (parent n) n ≡ true
parent-contains n =
    contains_complete (parent n) n (rw parent-take (take-prefix (length n.segments - 1) n.segments))

-- Whatever contains the namespace, at another depth, contains its parent.
pub contains-parent :
    (a n : Namespace) → contains a n ≡ true → depth a ≢ depth n → contains a (parent n) ≡ true
contains-parent a n h ne =
    contains_chain a (parent n) n h (parent-contains n)
      (omega (arith, parent-depth n, contains-depth a n h))

-- The parent contains the namespace and is one level above it; the zero namespace is its own parent.
pub parent_lem : (n : Namespace) → (contains (parent n) n ≡ true) × (depth (parent n) ≡ depth n - 1)
parent_lem n = (parent-contains n, parent-depth n)
