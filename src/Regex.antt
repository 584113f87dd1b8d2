-- ===== src/Regex.antt =====
-- Regular expressions of Go's package regexp, as far as the program's two patterns need them, with
-- an executable whole-text match by derivatives.
pub mod Language
use vaultlet.Prelude.{ℕ, Bool, true, false, List, [], ◌∷◌, Bytes, leb, if◌then◌else◌, ◌&&◌, ◌||◌}

pub data Regex : Type 0 where
  none : Regex
  eps : Regex
  -- a bracket expression: a list of ranges, ends included
  class : List (ℕ × ℕ) → Regex
  seq : Regex → Regex → Regex
  alt : Regex → Regex → Regex
  star : Regex → Regex

unfoldable pub in_class : List (ℕ × ℕ) → ℕ → Bool
in_class [] c = false
in_class ((lo, hi) ∷ r) c = (leb lo c && leb c hi) || in_class r c

unfoldable pub nullable : Regex → Bool
nullable none = false
nullable eps = true
nullable (class rs) = false
nullable (seq p q) = nullable p && nullable q
nullable (alt p q) = nullable p || nullable q
nullable (star p) = true

-- What is left of a pattern behind one byte.
unfoldable pub deriv : ℕ → Regex → Regex
unfolding in_class nullable
deriv c none = none
deriv c eps = none
deriv c (class rs) = if in_class rs c then eps else none
deriv c (seq p q) =
    let front = seq (deriv c p) q in
    let both = alt front (deriv c q) in if nullable p then both else front
deriv c (alt p q) = alt (deriv c p) (deriv c q)
deriv c (star p) = seq (deriv c p) (star p)

-- MatchString of the pattern between ^ and $.
unfoldable pub matches : Regex → Bytes → Bool
unfolding deriv
matches p [] = nullable p
matches p (c ∷ s) = matches (deriv c p) s
