-- ===== src/Prelude/Lists.antt =====
-- Lists measured by native numbers, under the library's names, and predicates on lists.
use Prim.Native.Nat.{ℕ, zero, suc, ◌+◌, ◌≤◌}
use mathlib.Core.Path.{◌≡◌, refl}
use mathlib.Core.Logic.{◌⊎◌, ◌↔◌, inl, inr}
use mathlib.Core.Bool.{Bool, true, false}
use vaultlet.Prelude.Tests.{if◌then◌else◌}
use mathlib.Core.List.{List, [], ◌∷◌, ◌++◌}
use native.Mathlib.Omega.{arith}

module _ {ℓ} {A : Type ℓ} where
  abbrev pub length : List A → ℕ
  length [] = 0
  length (x ∷ xs) = suc (length xs)

  abbrev pub take : ℕ → List A → List A
  take zero xs = []
  take (suc n) [] = []
  take (suc n) (x ∷ xs) = x ∷ take n xs

  abbrev pub drop : ℕ → List A → List A
  drop zero xs = xs
  drop (suc n) [] = []
  drop (suc n) (x ∷ xs) = drop n xs

  abbrev pub replicate : ℕ → A → List A
  replicate zero a = []
  replicate (suc n) a = a ∷ replicate n a

  pub take-take : (m n : ℕ) (xs : List A) → m ≤ n → take m (take n xs) ≡ take m xs
  take-take zero n xs h = refl
  take-take (suc m) zero xs h = elim h [ ]
  take-take (suc m) (suc n) [] h = refl
  take-take (suc m) (suc n) (x ∷ xs) h = rw (take-take m n xs (omega arith))

  pub length-append : (xs ys : List A) → length (xs ++ ys) ≡ length xs + length ys
  length-append [] ys = omega arith
  length-append (x ∷ xs) ys = omega (arith, length-append xs ys)

  pub take-append_length : (xs ys : List A) → take (length xs) (xs ++ ys) ≡ xs
  take-append_length [] ys = refl
  take-append_length (x ∷ xs) ys = rw (take-append_length xs ys)

  -- Equal items commute with one more.
  pub replicate_shift :
      (n : ℕ) (a : A) (xs : List A) → replicate n a ++ a ∷ xs ≡ a ∷ (replicate n a ++ xs)
  replicate_shift zero a xs = refl
  replicate_shift (suc n) a xs = rw (replicate_shift n a xs)

  pub drop-append_length : (xs ys : List A) → drop (length xs) (xs ++ ys) ≡ ys
  drop-append_length [] ys = refl
  drop-append_length (x ∷ xs) ys = drop-append_length xs ys

module _ {ℓ κ} {A : Type ℓ} (P : A → Type κ) where
  -- Every element has the property.
  abbrev pub All : List A → Type κ
  All [] = Unit
  All (x ∷ xs) = P x × All xs

  pub All-append : (xs ys : List A) → All xs → All ys → All (xs ++ ys)
  All-append [] ys _ hy = hy
  All-append (x ∷ xs) ys (px, hx) hy = (px, All-append xs ys hx hy)

  pub All-of_append : (xs ys : List A) → All (xs ++ ys) → All xs × All ys
  All-of_append [] ys h = (tt, h)
  All-of_append (x ∷ xs) ys (px, h) = let (a, b) = All-of_append xs ys h in ((px, a), b)

module _ {ℓ} {A : Type ℓ} (P : A → Type 0) where
  -- Some element has the property.
  abbrev pub Any : List A → Type 0
  Any [] = ⊥
  Any (x ∷ xs) = P x ⊎ Any xs

module _ {ℓ} {A : Type ℓ} (P : A → Type 0) where
  -- An element of two lists in a row is one of the first or one of the second.
  pub Any-of_append : (xs ys : List A) → Any P (xs ++ ys) → Any P xs ⊎ Any P ys
  Any-of_append [] ys m = inr m
  Any-of_append (x ∷ xs) ys (inl p) = inl (inl p)
  Any-of_append (x ∷ xs) ys (inr m) = elim (Any-of_append xs ys m) [
    | inl a ↦ inl (inr a)
    | inr b ↦ inr b
  ]

  pub Any-append : (xs ys : List A) → Any P xs ⊎ Any P ys → Any P (xs ++ ys)
  Any-append [] ys (inl m) = absurd m
  Any-append [] ys (inr m) = m
  Any-append (x ∷ xs) ys (inl (inl p)) = inl p
  Any-append (x ∷ xs) ys (inl (inr m)) = inr (Any-append xs ys (inl m))
  Any-append (x ∷ xs) ys (inr m) = inr (Any-append xs ys (inr m))

module _ {ℓ} {A : Type ℓ} (keep : A → Bool) where
  -- The elements that pass a Boolean test.
  unfoldable pub filter : List A → List A
  filter [] = []
  filter (x ∷ xs) = let rest = filter xs in if keep x then x ∷ rest else rest

module _ {ℓ} {A : Type ℓ} (P : A → Type 0) (keep : A → Bool) where
  Any-of_if :
      (x : A) (rest xs : List A) (b : Bool)
      → keep x ≡ b
      → (Any P rest → Any (λ y. P y × (keep y ≡ true)) xs)
      → Any P (if b then x ∷ rest else rest)
      → Any (λ y. P y × (keep y ≡ true)) (x ∷ xs)
  Any-of_if x rest xs true e ih (inl p) = inl (p, e)
  Any-of_if x rest xs true e ih (inr m) = inr (ih m)
  Any-of_if x rest xs false e ih m = inr (ih m)

  if_of_Any :
      (x : A) (rest xs : List A) (b : Bool)
      → keep x ≡ b
      → (Any (λ y. P y × (keep y ≡ true)) xs → Any P rest)
      → Any (λ y. P y × (keep y ≡ true)) (x ∷ xs)
      → Any P (if b then x ∷ rest else rest)
  if_of_Any x rest xs true e ih (inl (p, k)) = inl p
  if_of_Any x rest xs true e ih (inr m) = inr (ih m)
  if_of_Any x rest xs false e ih (inl (p, k)) = cc
  if_of_Any x rest xs false e ih (inr m) = ih m

  Any-filter_sound : (xs : List A) → Any P (filter keep xs) → Any (λ y. P y × (keep y ≡ true)) xs
  unfolding filter
  Any-filter_sound [] m = m
  Any-filter_sound (x ∷ xs) m =
      Any-of_if x (filter keep xs) xs (keep x) refl (Any-filter_sound xs) m

  Any-filter_complete : (xs : List A) → Any (λ y. P y × (keep y ≡ true)) xs → Any P (filter keep xs)
  unfolding filter
  Any-filter_complete [] m = m
  Any-filter_complete (x ∷ xs) m =
      if_of_Any x (filter keep xs) xs (keep x) refl (Any-filter_complete xs) m

  -- An element of the filtered list is an element that passes the test.
  pub Any-filter : (xs : List A) → Any P (filter keep xs) ↔ Any (λ y. P y × (keep y ≡ true)) xs
  Any-filter xs = (Any-filter_sound xs, Any-filter_complete xs)

module _ {ℓ} {A : Type ℓ} where
  pub Any-take : (P : A → Type 0) (n : ℕ) (xs : List A) → Any P (take n xs) → Any P xs
  Any-take P zero xs m = absurd m
  Any-take P (suc n) [] m = m
  Any-take P (suc n) (x ∷ xs) (inl p) = inl p
  Any-take P (suc n) (x ∷ xs) (inr m) = inr (Any-take P n xs m)

  pub take-all : (n : ℕ) (xs : List A) → length xs ≤ n → take n xs ≡ xs
  take-all zero [] h = refl
  take-all (suc n) [] h = refl
  take-all zero (x ∷ xs) h = elim h [ ]
  take-all (suc n) (x ∷ xs) h = rw (take-all n xs (omega arith))

  pub length-filter : (keep : A → Bool) (xs : List A) → length (filter keep xs) ≤ length xs
  unfolding filter
  length-filter keep [] = omega arith
  length-filter keep (x ∷ xs) = ground (arith, length-filter keep xs)

  pub Any-map : (P Q : A → Type 0) → ((x : A) → P x → Q x) → (xs : List A) → Any P xs → Any Q xs
  Any-map P Q f [] m = m
  Any-map P Q f (x ∷ xs) (inl p) = inl (f x p)
  Any-map P Q f (x ∷ xs) (inr m) = inr (Any-map P Q f xs m)

  pub filter-none :
      (keep : A → Bool) → ((x : A) → keep x ≡ false) → (xs : List A) → filter keep xs ≡ []
  unfolding filter
  filter-none keep h [] = refl
  filter-none keep h (x ∷ xs) = rw (h x) (filter-none keep h xs)

  pub filter-append :
      (keep : A → Bool) (xs ys : List A) → filter keep (xs ++ ys) ≡ filter keep xs ++ filter keep ys
  unfolding filter
  filter-append keep [] ys = refl
  filter-append keep (x ∷ xs) ys = ground (arith, filter-append keep xs ys)
