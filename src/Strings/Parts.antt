-- ===== src/Strings/Parts.antt =====
-- Split undoes Join on parts without the separator, and LastIndex finds the last separator.
use vaultlet.Prelude.{ℕ, ◌≡◌, ◌≢◌, refl, none, some, List, [], ◌∷◌, ◌++◌, Bytes, length, All, arith}
use vaultlet.Strings.{extend, split, separated, join, last_index}

-- The separator does not occur.
abbrev pub Lacks : ℕ → Bytes → Type 0
Lacks b = All (λ c. c ≢ b)

module _ (sep : ℕ) where
  split-separated :
      (p : Bytes) (ps : List Bytes)
      → Lacks sep p
      → split (separated ps sep) sep ≡ [] ∷ ps
      → split (p ++ separated ps sep) sep ≡ p ∷ ps
  unfolding split
  split-separated [] ps h e = e
  split-separated (c ∷ p) ps (hc, hp) e = ground (arith, split-separated p ps hp e)

  split-separated-All :
      (ps : List Bytes) → All (Lacks sep) ps → split (separated ps sep) sep ≡ [] ∷ ps
  unfolding split separated
  split-separated-All [] h = refl
  split-separated-All (p ∷ ps) (hp, hps) =
      ground (arith, split-separated p ps hp (split-separated-All ps hps))

-- Split undoes Join on parts that lack the separator, where there is a part at all.
pub split-join :
    (parts : List Bytes) (sep : ℕ)
    → All (Lacks sep) parts
    → parts ≢ []
    → split (join parts sep) sep ≡ parts
unfolding join
split-join [] sep _ h = absurd (h refl)
split-join (p ∷ ps) sep (hp, hps) _ = split-separated sep p ps hp (split-separated-All sep ps hps)

pub split-ne-nil : (s : Bytes) (sep : ℕ) → split s sep ≢ []
unfolding split
split-ne-nil [] sep = ground arith
split-ne-nil (c ∷ s) sep = ground (arith, split-ne-nil s sep)

join-extend :
    (c : ℕ) (ps : List Bytes) (sep : ℕ) → ps ≢ [] → join (extend c ps) sep ≡ c ∷ join ps sep
unfolding join extend
join-extend c [] sep h = absurd (h refl)
join-extend c (p ∷ ps) sep h = refl

join-nil : (ps : List Bytes) (sep : ℕ) → ps ≢ [] → join ([] ∷ ps) sep ≡ sep ∷ join ps sep
unfolding join
join-nil [] sep h = absurd (h refl)
join-nil (p ∷ ps) sep h = refl

-- Join undoes Split on every text.
pub join-split : (text : Bytes) (sep : ℕ) → join (split text sep) sep ≡ text
unfolding split
join-split [] sep = unfold join in refl
join-split (c ∷ s) sep = ground (
  arith,
  join-split s sep,
  join-nil (split s sep) sep (split-ne-nil s sep),
  join-extend c (split s sep) sep (split-ne-nil s sep),
)

last_index-Lacks : (s : Bytes) (sep : ℕ) → Lacks sep s → last_index s sep ≡ none
unfolding last_index
last_index-Lacks [] sep h = refl
last_index-Lacks (c ∷ s) sep (hc, hs) = ground (arith, last_index-Lacks s sep hs)

-- The last separator stands where a text without separators begins.
pub last_index-append :
    (a b : Bytes) (sep : ℕ) → Lacks sep b → last_index (a ++ sep ∷ b) sep ≡ some (length a)
unfolding last_index
last_index-append [] b sep h = ground (arith, last_index-Lacks b sep h)
last_index-append (c ∷ a) b sep h = rw (last_index-append a b sep h)
