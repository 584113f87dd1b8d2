-- ===== src/Strings/Cuts.antt =====
-- What Cut and CutPrefix return, in terms of the text that they took apart.
use vaultlet.Prelude.{
  ℕ, some, Bytes, [], ◌∷◌, ◌++◌, ◌≡◌, refl, ap, arith, Bool-cases, Option-cases, inl, inr, ◌==◌,
  ==_iff,
}
use vaultlet.Strings.{cut, cut_prefix}
use vaultlet.Strings.Parts.{Lacks}

pub cut_prefix-append : (prefix s : Bytes) → cut_prefix (prefix ++ s) prefix ≡ some s
unfolding cut_prefix
cut_prefix-append [] s = refl
cut_prefix-append (c ∷ cs) s = ground (arith, cut_prefix-append cs s)

-- CutPrefix returns what stands behind the prefix.
pub cut_prefix_sound :
    (s prefix rest : Bytes) → cut_prefix s prefix ≡ some rest → s ≡ prefix ++ rest
unfolding cut_prefix
cut_prefix_sound s [] rest h = cc
cut_prefix_sound [] (p ∷ ps) rest h = cc
cut_prefix_sound (c ∷ s) (p ∷ ps) rest h = elim (Bool-cases (c == p)) [
  | inl e ↦
      let tail = cut_prefix_sound s ps rest (ground arith) in
      let head : c ≡ p = (==_iff c p).0 e in rw (tail, head) refl
  | inr e ↦ ground arith
]

pub cut-append :
    (sep : ℕ) (before after : Bytes)
    → Lacks sep before
    → cut (before ++ sep ∷ after) sep ≡ some (before, after)
unfolding cut
cut-append sep [] after h = ground arith
cut-append sep (c ∷ cs) after (hc, hs) = ground (arith, cut-append sep cs after hs)

-- Cut splits at the first separator.
pub cut_sound :
    (sep : ℕ) (s before after : Bytes)
    → cut s sep ≡ some (before, after)
    → (s ≡ before ++ sep ∷ after) × Lacks sep before
unfolding cut
cut_sound sep [] before after h = cc
cut_sound sep (c ∷ s) before after h = elim (Bool-cases (c == sep)) [
  | inl e ↦
      let first : before ≡ [] = ground arith in
      let second : after ≡ s = ground arith in
      let head : c ≡ sep = (==_iff c sep).0 e in rw (first, second, head) (refl, tt)
  | inr e ↦ elim (Option-cases (cut s sep)) [
    | inl n ↦ ground arith
    | inr ((a, b), m) ↦
        let (split, lacks) = cut_sound sep s a b m in
        let first : before ≡ c ∷ a = ground arith in
        let second : after ≡ b = ground arith in
        rw (first, second) (ap (λ t. c ∷ t) split, (ground arith, lacks))
  ]
]
