-- ===== src/Domain/Key/Grammar.antt =====
-- Which texts the two patterns of key.go accept.
use vaultlet.Prelude.{
  ℕ, ◌<◌, ◌≡◌, ◌≢◌, ◌↔◌, refl, sym, true, List, [], ◌∷◌, ◌++◌, Bytes, All, All-append,
  All-of_append, inl, inr, arith, subst,
}
use vaultlet.Regex.{class, in_class, matches}
use vaultlet.Regex.Language.{Repeat, stop, more, Matches, matches_sound, matches_complete}
use vaultlet.Domain.Key.{lower_digit, lower_digit_dash, alnum, name_rest, segment_re, name_re}
use vaultlet.Strings.{slash}

abbrev pub InClass : List (ℕ × ℕ) → Bytes → Type 0
InClass rs = All (λ c. in_class rs c ≡ true)

Repeat-class : (rs : List (ℕ × ℕ)) {s : Bytes} → Repeat (Matches (class rs)) s → InClass rs s
Repeat-class rs (stop e) = subst (InClass rs) (sym e) tt
Repeat-class rs (more a b e (c, h, k) r) =
    subst (InClass rs) (sym e)
      (All-append _ a b (subst (InClass rs) (sym h) (k, tt)) (Repeat-class rs r))

class-Repeat : (rs : List (ℕ × ℕ)) (s : Bytes) → InClass rs s → Repeat (Matches (class rs)) s
class-Repeat rs [] h = stop refl
class-Repeat rs (c ∷ s) (hc, h) = more (c ∷ []) s refl (c, refl, hc) (class-Repeat rs s h)

-- Lower-case letters, digits and hyphens, with no hyphen at either end, and at least one byte.
pub record IsSegmentText (s : Bytes) : Type 0 where
  pub bytes : InClass lower_digit_dash s
  pub first : (c : ℕ) × (t : Bytes) × (s ≡ c ∷ t) × (in_class lower_digit c ≡ true)
  pub last : (u : Bytes) × (d : ℕ) × (s ≡ u ++ d ∷ []) × (in_class lower_digit d ≡ true)

-- A letter or digit, then letters, digits, `_`, `.` and `-`.
pub record IsNameText (s : Bytes) : Type 0 where
  pub bytes : InClass name_rest s
  pub first : (c : ℕ) × (t : Bytes) × (s ≡ c ∷ t) × (in_class alnum c ≡ true)

digit_dash : (c : ℕ) → in_class lower_digit c ≡ true → in_class lower_digit_dash c ≡ true
unfolding in_class
digit_dash c h = ground arith

alnum_rest : (c : ℕ) → in_class alnum c ≡ true → in_class name_rest c ≡ true
unfolding in_class
alnum_rest c h = ground arith

language-IsSegmentText : (s : Bytes) → Matches segment_re s → IsSegmentText s
unfolding segment_re
language-IsSegmentText s (a, b, e, (c, ea, hc), inl (m, z, eb, r, (d, ez, hd))) =
    let whole : s ≡ c ∷ (m ++ d ∷ []) = cc in
    subst IsSegmentText (sym whole) (record {
      bytes = (
        digit_dash c hc,
        All-append _ m (d ∷ []) (Repeat-class lower_digit_dash r) (digit_dash d hd, tt),
      );
      first = (c, m ++ d ∷ [], refl, hc);
      last = (c ∷ m, d, refl, hd);
    })
language-IsSegmentText s (a, b, e, (c, ea, hc), inr eb) =
    let whole : s ≡ c ∷ [] = cc in
    subst IsSegmentText (sym whole) (record {
      bytes = (digit_dash c hc, tt);
      first = (c, [], refl, hc);
      last = ([], c, refl, hc);
    })

segment_language :
    (c : ℕ) (u : Bytes) (d : ℕ) (t : Bytes)
    → in_class lower_digit c ≡ true
    → in_class lower_digit d ≡ true
    → InClass lower_digit_dash t
    → t ≡ u ++ d ∷ []
    → Matches segment_re (c ∷ t)
unfolding segment_re
segment_language c u d t hc hd ht e =
    let front = (All-of_append _ u (d ∷ []) (subst (InClass lower_digit_dash) e ht)).0 in
    (
      c ∷ [],
      t,
      refl,
      (c, refl, hc),
      inl (u, d ∷ [], e, class-Repeat lower_digit_dash u front, (d, refl, hd)),
    )

one_byte_segment : (c : ℕ) → in_class lower_digit c ≡ true → Matches segment_re (c ∷ [])
unfolding segment_re
one_byte_segment c hc = (c ∷ [], [], refl, (c, refl, hc), inr refl)

IsSegmentText-language : (s : Bytes) → IsSegmentText s → Matches segment_re s
IsSegmentText-language [] g = let (c, t, e, _) = g.first in cc
IsSegmentText-language (x ∷ t) g = go g.first g.last
  where
    go :
        ((c : ℕ) × (t' : Bytes) × (x ∷ t ≡ c ∷ t') × (in_class lower_digit c ≡ true))
        → ((u : Bytes) × (d : ℕ) × (x ∷ t ≡ u ++ d ∷ []) × (in_class lower_digit d ≡ true))
        → Matches segment_re (x ∷ t)
    go (c, t', e, hc) ([], d, e', hd) =
        let alone : x ∷ t ≡ c ∷ [] = cc in
        subst (Matches segment_re) (sym alone) (one_byte_segment c hc)
    go (c, t', e, hc) (y ∷ u, d, e', hd) =
        segment_language x u d t (subst (λ z. in_class lower_digit z ≡ true) (cc) hc) hd g.bytes.1
          (cc)

-- A text matches segmentRe exactly if it is not empty, all its bytes are lower-case letters, digits
-- or hyphens, and its first and last bytes are no hyphens.
pub segment_re-accepts_iff : (s : Bytes) → (matches segment_re s ≡ true) ↔ IsSegmentText s
segment_re-accepts_iff s = (
  λ h. language-IsSegmentText s (matches_sound segment_re s h),
  λ g. matches_complete segment_re s (IsSegmentText-language s g),
)

language-IsNameText : (s : Bytes) → Matches name_re s → IsNameText s
unfolding name_re
language-IsNameText s (a, b, e, (c, ea, hc), r) =
    let whole : s ≡ c ∷ b = cc in
    subst IsNameText (sym whole)
      (record { bytes = (alnum_rest c hc, Repeat-class name_rest r); first = (c, b, refl, hc) })

IsNameText-language : (s : Bytes) → IsNameText s → Matches name_re s
unfolding name_re
IsNameText-language [] g = let (c, t, e, _) = g.first in cc
IsNameText-language (x ∷ t) g =
    let (c, t', e, hc) = g.first in
    (
      x ∷ [],
      t,
      refl,
      (x, refl, subst (λ z. in_class alnum z ≡ true) (cc) hc),
      class-Repeat name_rest t g.bytes.1,
    )

-- A text matches nameRe exactly if it begins with a letter or digit and all its bytes are letters,
-- digits, `_`, `.` or `-`.
pub name_re-accepts_iff : (s : Bytes) → (matches name_re s ≡ true) ↔ IsNameText s
name_re-accepts_iff s = (
  λ h. language-IsNameText s (matches_sound name_re s h),
  λ g. matches_complete name_re s (IsNameText-language s g),
)

-- Neither grammar has the slash, and both are ASCII.
pub segment_byte : (c : ℕ) → in_class lower_digit_dash c ≡ true → (c ≢ slash) × (c < 128)
unfolding in_class
segment_byte c h = ground arith

pub name_byte : (c : ℕ) → in_class name_rest c ≡ true → (c ≢ slash) × (c < 128)
unfolding in_class
name_byte c h = ground arith
