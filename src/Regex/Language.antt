-- ===== src/Regex/Language.antt =====
-- The language of a pattern, and that the matcher decides it.
use vaultlet.Prelude.{
  ℕ, Bool, ◌≡◌, refl, sym, ◌∙◌, true, false, [], ◌∷◌, ◌++◌, Bytes, if◌then◌else◌, ◌⊎◌, inl, inr,
  Bool-cases, arith, ap, ◌↔◌, subst,
}
use vaultlet.Regex.{Regex, none, eps, class, seq, alt, star, in_class, nullable, deriv, matches}

-- A text in pieces that each have the property.
pub data Repeat (P : Bytes → Type 0) : Bytes → Type 0 where
  stop : {s : Bytes} → s ≡ [] → Repeat P s
  more : {s : Bytes} (a b : Bytes) → s ≡ a ++ b → P a → Repeat P b → Repeat P s

-- The texts that a pattern describes.
abbrev pub Matches : Regex → Bytes → Type 0
Matches none s = ⊥
Matches eps s = s ≡ []
Matches (class rs) s = (c : ℕ) × (s ≡ c ∷ []) × (in_class rs c ≡ true)
Matches (seq p q) s = (a : Bytes) × (b : Bytes) × (s ≡ a ++ b) × Matches p a × Matches q b
Matches (alt p q) s = Matches p s ⊎ Matches q s
Matches (star p) s = Repeat (Matches p) s

nullable_sound : (p : Regex) → nullable p ≡ true → Matches p []
unfolding nullable
nullable_sound none h = cc
nullable_sound eps h = refl
nullable_sound (class rs) h = cc
nullable_sound (seq p q) h =
    ([], [], refl, nullable_sound p (ground arith), nullable_sound q (ground arith))
nullable_sound (alt p q) h = elim (Bool-cases (nullable p)) [
  | inl e ↦ inl (nullable_sound p e)
  | inr e ↦ inr (nullable_sound q (ground arith))
]
nullable_sound (star p) h = stop refl

append-nil-left : (a b : Bytes) → [] ≡ a ++ b → a ≡ []
append-nil-left [] b e = refl
append-nil-left (x ∷ a) b e = cc

append-nil-right : (a b : Bytes) → [] ≡ a ++ b → b ≡ []
append-nil-right [] b e = sym e
append-nil-right (x ∷ a) b e = cc

nullable_complete : (p : Regex) (s : Bytes) → s ≡ [] → Matches p s → nullable p ≡ true
unfolding nullable
nullable_complete none s e m = absurd m
nullable_complete eps s e m = refl
nullable_complete (class rs) s e (c, h, k) = cc
nullable_complete (seq p q) s e (a, b, h, m, n) = ground (
  arith,
  nullable_complete p a (append-nil-left a b (sym e ∙ h)) m,
  nullable_complete q b (append-nil-right a b (sym e ∙ h)) n,
)
nullable_complete (alt p q) s e (inl m) = ground (arith, nullable_complete p s e m)
nullable_complete (alt p q) s e (inr m) = ground (arith, nullable_complete q s e m)
nullable_complete (star p) s e m = refl

module _ (c : ℕ) (p q : Regex) (s : Bytes) where
  -- Both ways on through a sequence, by whether the first pattern may be skipped.
  seq_front :
      (t : Bool)
      → Matches (seq (deriv c p) q) s
      → Matches (if t then alt (seq (deriv c p) q) (deriv c q) else seq (deriv c p) q) s
  seq_front true m = inl m
  seq_front false m = m

  seq_skip :
      (t : Bool)
      → t ≡ true
      → Matches (deriv c q) s
      → Matches (if t then alt (seq (deriv c p) q) (deriv c q) else seq (deriv c p) q) s
  seq_skip true e m = inr m
  seq_skip false e m = cc

  seq_split :
      (t : Bool)
      → Matches (if t then alt (seq (deriv c p) q) (deriv c q) else seq (deriv c p) q) s
      → Matches (seq (deriv c p) q) s ⊎ ((t ≡ true) × Matches (deriv c q) s)
  seq_split true (inl m) = inl m
  seq_split true (inr m) = inr (refl, m)
  seq_split false m = inl m

class_hit : (t : Bool) (s : Bytes) → Matches (if t then eps else none) s → (t ≡ true) × (s ≡ [])
class_hit true s m = (refl, m)
class_hit false s m = absurd m

class_make : (t : Bool) (s : Bytes) → t ≡ true → s ≡ [] → Matches (if t then eps else none) s
class_make true s e m = m
class_make false s e m = cc

pub deriv_sound : (c : ℕ) (p : Regex) (s : Bytes) → Matches (deriv c p) s → Matches p (c ∷ s)
unfolding deriv
deriv_sound c none s m = m
deriv_sound c eps s m = absurd m
deriv_sound c (class rs) s m =
    let (hit, end) = class_hit (in_class rs c) s m in (c, ap (λ t. c ∷ t) end, hit)
deriv_sound c (seq p q) s m = elim (seq_split c p q s (nullable p) m) [
  | inl (a, b, h, x, y) ↦ (c ∷ a, b, ap (λ t. c ∷ t) h, deriv_sound c p a x, y)
  | inr (skip, x) ↦ ([], c ∷ s, refl, nullable_sound p skip, deriv_sound c q s x)
]
deriv_sound c (alt p q) s (inl m) = inl (deriv_sound c p s m)
deriv_sound c (alt p q) s (inr m) = inr (deriv_sound c q s m)
deriv_sound c (star p) s (a, b, h, x, y) =
    more (c ∷ a) b (ap (λ t. c ∷ t) h) (deriv_sound c p a x) y

-- The first piece that is not empty takes the first byte.
star_head :
    {P : Bytes → Type 0} {u : Bytes} (c : ℕ) (s : Bytes)
    → Repeat P u
    → u ≡ c ∷ s
    → (a : Bytes) × (b : Bytes) × (s ≡ a ++ b) × P (c ∷ a) × Repeat P b
star_head c s (stop e) h = cc
star_head c s (more [] b e x y) h = star_head c s y (sym e ∙ h)
star_head {P} c s (more (d ∷ a) b e x y) h = (a, b, cc, subst (λ t. P (t ∷ a)) (cc) x, y)

pub deriv_complete : (c : ℕ) (p : Regex) (s : Bytes) → Matches p (c ∷ s) → Matches (deriv c p) s
unfolding deriv
deriv_complete c none s m = m
deriv_complete c eps s m = cc
deriv_complete c (class rs) s (d, h, k) = class_make (in_class rs c) s (ground (arith)) (cc)
deriv_complete c (seq p q) s ([], b, h, m, n) =
    seq_skip c p q s (nullable p) (nullable_complete p [] refl m)
      (deriv_complete c q s (subst (λ t. Matches q t) (sym h) n))
deriv_complete c (seq p q) s (d ∷ a, b, h, m, n) =
    seq_front c p q s (nullable p)
      (a, b, cc, deriv_complete c p a (subst (λ t. Matches p (t ∷ a)) (cc) m), n)
deriv_complete c (alt p q) s (inl m) = inl (deriv_complete c p s m)
deriv_complete c (alt p q) s (inr m) = inr (deriv_complete c q s m)
deriv_complete c (star p) s m =
    let (a, b, h, x, y) = star_head c s m refl in (a, b, h, deriv_complete c p a x, y)

pub matches_sound : (p : Regex) (s : Bytes) → matches p s ≡ true → Matches p s
unfolding matches
matches_sound p [] h = nullable_sound p h
matches_sound p (c ∷ s) h = deriv_sound c p s (matches_sound (deriv c p) s h)

pub matches_complete : (p : Regex) (s : Bytes) → Matches p s → matches p s ≡ true
unfolding matches
matches_complete p [] m = nullable_complete p [] refl m
matches_complete p (c ∷ s) m = matches_complete (deriv c p) s (deriv_complete c p s m)

-- The matcher accepts exactly the texts of the pattern's language.
pub matches_iff : (p : Regex) (s : Bytes) → (matches p s ≡ true) ↔ Matches p s
matches_iff p s = (matches_sound p s, matches_complete p s)
