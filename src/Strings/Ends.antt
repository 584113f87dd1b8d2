-- ===== src/Strings/Ends.antt =====
-- Trim changes nothing where neither end is the separator.
use mathlib.Core.List.{reverse, reverse-append, reverse-reverse}
use mathlib.Core.List.{append-nil}
use mathlib.Core.Path.{ap₂}
use vaultlet.Prelude.{
  suc, zero, refl, sym, ◌∙◌, ap, Bool-cases, inl, inr, ◌==◌, ==_iff, replicate, replicate_shift, ℕ,
  ◌≡◌, ◌≢◌, [], ◌∷◌, ◌++◌, Bytes, arith,
}
use vaultlet.Strings.{trim_left, trim}

trim_left-keep : (c : ℕ) (s : Bytes) (sep : ℕ) → c ≢ sep → trim_left sep (c ∷ s) ≡ c ∷ s
unfolding trim_left
trim_left-keep c s sep h = ground arith

-- A text whose first and last bytes are no separators is not trimmed.
pub trim-keep :
    (s : Bytes) (c d : ℕ) (t u : Bytes) (sep : ℕ)
    → s ≡ c ∷ t
    → s ≡ u ++ d ∷ []
    → c ≢ sep
    → d ≢ sep
    → trim s sep ≡ s
unfolding trim
trim-keep s c d t u sep first last hc hd =
    let left : trim_left sep s ≡ s = rw first (trim_left-keep c t sep hc) in
    let back : reverse s ≡ d ∷ reverse u = rw last (reverse-append u (d ∷ [])) in
    let right : trim_left sep (reverse s) ≡ reverse s =
      rw back (trim_left-keep d (reverse u) sep hd) in
    rw (left, right) (reverse-reverse s)

reverse-replicate : (n c : ℕ) → reverse (replicate n c) ≡ replicate n c
reverse-replicate zero c = refl
reverse-replicate (suc n) c =
    reverse-append (c ∷ []) (replicate n c)
    ∙ (ap (λ r. r ++ c ∷ []) (reverse-replicate n c)
        ∙ (replicate_shift n c [] ∙ ap (λ r. c ∷ r) (append-nil (replicate n c))))

-- What trim_left drops is separators.
trim_left-drops : (s : Bytes) (sep : ℕ) → (m : ℕ) × (s ≡ replicate m sep ++ trim_left sep s)
unfolding trim_left
trim_left-drops [] sep = (0, refl)
trim_left-drops (c ∷ s) sep = elim (Bool-cases (c == sep)) [
  | inl e ↦
      let (m, h) = trim_left-drops s sep in
      (suc m, rw e (ap₂ (λ (x : ℕ) (r : Bytes). x ∷ r) ((==_iff c sep).0 e) h))
  | inr e ↦ (0, rw e)
]

trim_left-head : (s : Bytes) (sep c : ℕ) (r : Bytes) → trim_left sep s ≡ c ∷ r → c ≢ sep
unfolding trim_left
trim_left-head [] sep c r e = cc
trim_left-head (x ∷ s) sep c r e = elim (Bool-cases (x == sep)) [
  | inl h ↦ trim_left-head s sep c r (rw h at e)
  | inr h ↦ ground arith
]

trim_left-replicate :
    (m : ℕ) (s : Bytes) (sep : ℕ) → trim_left sep (replicate m sep ++ s) ≡ trim_left sep s
unfolding trim_left
trim_left-replicate zero s sep = refl
trim_left-replicate (suc m) s sep = ground (arith, trim_left-replicate m s sep)

-- Behind a text without a separator in front, Trim drops only separators at the end.
pub trim-drops_end :
    (c : ℕ) (t : Bytes) (sep : ℕ)
    → c ≢ sep
    → (m : ℕ) × (c ∷ t ≡ trim (c ∷ t) sep ++ replicate m sep)
unfolding trim
trim-drops_end c t sep hc =
    let (m, h) = trim_left-drops (reverse (c ∷ t)) sep in
    (
      m,
      rw (trim_left-keep c t sep hc) (
          sym (reverse-reverse (c ∷ t))
          ∙ (ap reverse h ∙ (reverse-append (replicate m sep) _ ∙ rw (reverse-replicate m sep)))),
    )

-- A trimmed text does not begin with the separator.
pub trim-head : (s : Bytes) (sep c : ℕ) (r : Bytes) → trim s sep ≡ c ∷ r → c ≢ sep
unfolding trim
trim-head s sep c r e =
    let left = trim_left sep s in
    let (m, h) = trim_left-drops (reverse left) sep in
    trim_left-head s sep c (r ++ replicate m sep) (
      sym (reverse-reverse left)
      ∙ (ap reverse h ∙ (reverse-append (replicate m sep) _ ∙ rw (reverse-replicate m sep, e))))

-- Separators behind a text that has none at its ends are dropped.
pub trim-trailing :
    (s : Bytes) (c d : ℕ) (t u : Bytes) (sep m : ℕ)
    → s ≡ c ∷ t
    → s ≡ u ++ d ∷ []
    → c ≢ sep
    → d ≢ sep
    → trim (s ++ replicate m sep) sep ≡ s
unfolding trim
trim-trailing s c d t u sep m first last hc hd =
    let left : trim_left sep (s ++ replicate m sep) ≡ s ++ replicate m sep =
      rw first (trim_left-keep c (t ++ replicate m sep) sep hc) in
    let back : reverse s ≡ d ∷ reverse u = rw last (reverse-append u (d ∷ [])) in
    let right : trim_left sep (reverse s) ≡ reverse s =
      rw back (trim_left-keep d (reverse u) sep hd) in
    rw
      (
        left,
        reverse-append s (replicate m sep),
        reverse-replicate m sep,
        trim_left-replicate m (reverse s) sep,
        right,
      )
      (reverse-reverse s)
