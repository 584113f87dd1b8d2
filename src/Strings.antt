-- ===== src/Strings.antt =====
-- The functions of Go's package strings that the program calls, over bytes: Trim, Split, Join and
-- LastIndex with a one-byte separator, Cut, CutPrefix, and the order of Compare.
pub mod Parts
pub mod Cuts
pub mod Utf8
pub mod Ends
pub mod Order
use vaultlet.Prelude.{
  ℕ, zero, suc, ◌+◌, ◌≡◌, Bool, true, false, Option, none, some, List, [], ◌∷◌, ◌++◌, Bytes, ltb,
  ◌==◌, if◌then◌else◌, length, drop, ◌&&◌,
}
use mathlib.Core.List.{reverse}

abbrev pub slash : ℕ
slash = b'/'

-- Drops the separators at the start.
unfoldable pub trim_left : ℕ → Bytes → Bytes
trim_left sep [] = []
trim_left sep (c ∷ s) = if c == sep then trim_left sep s else c ∷ s

-- strings.Trim(s, sep)
unfoldable pub trim : Bytes → ℕ → Bytes
unfolding trim_left
trim s sep = reverse (trim_left sep (reverse (trim_left sep s)))

-- Puts a byte in front of the first part.
unfoldable pub extend : ℕ → List Bytes → List Bytes
extend c [] = (c ∷ []) ∷ []
extend c (p ∷ ps) = (c ∷ p) ∷ ps

-- strings.Split(s, sep)
unfoldable pub split : Bytes → ℕ → List Bytes
unfolding extend
split [] sep = [] ∷ []
split (c ∷ s) sep = let rest = split s sep in if c == sep then [] ∷ rest else extend c rest

-- What stands behind the first part of a joined text.
unfoldable pub separated : List Bytes → ℕ → Bytes
separated [] sep = []
separated (p ∷ ps) sep = sep ∷ (p ++ separated ps sep)

-- strings.Join(parts, sep)
unfoldable pub join : List Bytes → ℕ → Bytes
unfolding separated
join [] sep = []
join (p ∷ ps) sep = p ++ separated ps sep

-- strings.LastIndex(s, sep); `none` stands for -1.
unfoldable pub last_index : Bytes → ℕ → Option ℕ
last_index [] sep = none
last_index (c ∷ s) sep = elim (last_index s sep) [
  | some i ↦ some (suc i)
  | none ↦ if c == sep then some 0 else none
]

-- strings.CutPrefix(s, prefix): the rest, or `none` for !ok.
unfoldable pub cut_prefix : Bytes → Bytes → Option Bytes
cut_prefix s [] = some s
cut_prefix [] (p ∷ ps) = none
cut_prefix (c ∷ s) (p ∷ ps) = let rest = cut_prefix s ps in if c == p then rest else none

-- strings.Cut(s, sep) with a one-byte separator: before and after, or `none` for !found.
unfoldable pub cut : Bytes → ℕ → Option (Bytes × Bytes)
cut [] sep = none
cut (c ∷ s) sep =
    let rest : Option (Bytes × Bytes) = elim (cut s sep) [
      | some (a, b) ↦ some (c ∷ a, b)
      | none ↦ none
    ] in
    if c == sep then some ([], s) else rest

-- strings.Compare(a, b) < 0
unfoldable pub before : Bytes → Bytes → Bool
before a [] = false
before [] (y ∷ ys) = true
before (x ∷ xs) (y ∷ ys) = let rest = before xs ys in if x == y then rest else ltb x y

-- strings.TrimRight(s, sep) with a one-byte separator
unfoldable pub trim_right : Bytes → ℕ → Bytes
unfolding trim_left
trim_right s sep = reverse (trim_left sep (reverse s))

-- path.Base
unfoldable pub path_base : Bytes → Bytes
unfolding trim_right last_index
path_base [] = b'.' ∷ []
path_base (c ∷ s) = elim (trim_right (c ∷ s) slash) [
  | [] ↦ slash ∷ []
  | d ∷ t ↦ elim (last_index (d ∷ t) slash) [ some i ↦ drop (suc i) (d ∷ t) | none ↦ d ∷ t ]
]
